-- ===== src/Selection/Laws.antt =====
-- detect.ts and passthrough.ts: which adapter a mode ends with.
use convira_sandbox.Base.{
  ℕ, true, none, some, List, [], ◌∷◌, ◌≡◌, refl, ◌⊎◌, inl, inr, ◌↔◌, arith, Bool-cases,
  Option-cases, subst, map,
}
use convira_sandbox.Base.Result.{ok, throw}
use convira_sandbox.Types.{IsolationMode, auto, native, off, SandboxSpawnConfig, SpawnSpec}
use convira_sandbox.Selection.Detect.{
  Platform, linux, darwin, win32, another, Adapter, linux_adapter, macos_adapter, windows_adapter,
  passthrough_adapter, Machine, is_wsl, platform_adapter, select_native_adapter, detect_adapter,
  unavailable_text,
}
use convira_sandbox.Selection.Passthrough.{fresh, warn, wrap_spawn, wrap_spawns}

-- The native adapters that may serve a platform.
abbrev pub IsNativeOf : Machine → Adapter → Type 0
IsNativeOf machine linux_adapter = (machine.platform ≡ linux) ⊎ (is_wsl machine ≡ true)
IsNativeOf machine macos_adapter = machine.platform ≡ darwin
IsNativeOf machine windows_adapter = machine.platform ≡ win32
IsNativeOf machine passthrough_adapter = ⊥

-- A native adapter of this machine that answered that it is available.
abbrev pub IsUsable : Machine → Adapter → Type 0
IsUsable machine adapter = IsNativeOf machine adapter × (machine.available adapter ≡ true)

platform_adapter-IsUsable :
    (machine : Machine) (platform : Platform) (adapter : Adapter)
    → machine.platform ≡ platform
    → (platform_adapter machine platform).0 ≡ some adapter
    → IsUsable machine adapter
unfolding platform_adapter
platform_adapter-IsUsable machine linux adapter e h =
    elim (Bool-cases (machine.available linux_adapter)) [
      | inl there ↦ ground arith
      | inr gone ↦ absurd (ground arith)
    ]
platform_adapter-IsUsable machine darwin adapter e h =
    elim (Bool-cases (machine.available macos_adapter)) [
      | inl there ↦ ground arith
      | inr gone ↦ absurd (ground arith)
    ]
platform_adapter-IsUsable machine win32 adapter e h =
    elim (Bool-cases (machine.available windows_adapter)) [
      | inl there ↦ ground arith
      | inr gone ↦ absurd (ground arith)
    ]
platform_adapter-IsUsable machine another adapter e h = absurd (ground arith)

select_native_adapter-IsUsable :
    (machine : Machine) (adapter : Adapter)
    → (select_native_adapter machine).0 ≡ some adapter
    → IsUsable machine adapter
unfolding select_native_adapter
select_native_adapter-IsUsable machine adapter h =
    let here = platform_adapter-IsUsable machine machine.platform adapter refl in
    elim (Bool-cases (is_wsl machine)) [
      | inl wsl ↦ elim (Bool-cases (machine.available linux_adapter)) [
        | inl there ↦
            let same : linux_adapter ≡ adapter = ground arith in
            subst (IsUsable machine) same (inr wsl, there)
        | inr gone ↦ here (ground arith)
      ]
      | inr no_wsl ↦ here (ground arith)
    ]

-- What a mode may end with.
abbrev pub IsChoice : Machine → IsolationMode → Adapter → Type 0
IsChoice machine off adapter = adapter ≡ passthrough_adapter
IsChoice machine native adapter = IsUsable machine adapter
IsChoice machine auto adapter =
    IsUsable machine adapter
    ⊎ ((adapter ≡ passthrough_adapter) × ((select_native_adapter machine).0 ≡ none))

-- "off" ends with passthrough, "native" only with an available native adapter of the machine, and
-- "auto" with such an adapter or, if none was found, with passthrough.
pub detect_adapter-IsChoice :
    (machine : Machine) (mode : IsolationMode) (adapter : Adapter)
    → detect_adapter machine mode ≡ ok adapter
    → IsChoice machine mode adapter
unfolding detect_adapter
detect_adapter-IsChoice machine off adapter h = ground arith
detect_adapter-IsChoice machine auto adapter h =
    elim (Option-cases (select_native_adapter machine).0) [
      | inl absent ↦ inr (ground arith)
      | inr (found, e) ↦ inl (select_native_adapter-IsUsable machine adapter (ground arith))
    ]
detect_adapter-IsChoice machine native adapter h =
    elim (Option-cases (select_native_adapter machine).0) [
      | inl absent ↦ absurd (ground arith)
      | inr (found, e) ↦ select_native_adapter-IsUsable machine adapter (ground arith)
    ]

-- Detection fails exactly in mode "native" on a machine where no native adapter was found.
pub detect_adapter_fails_iff :
    (machine : Machine) (mode : IsolationMode)
    → (detect_adapter machine mode ≡ throw (unavailable_text machine.platform_name))
      ↔ ((mode ≡ native) × ((select_native_adapter machine).0 ≡ none))
unfolding detect_adapter
detect_adapter_fails_iff machine off = (λ h. absurd (cc), λ k. absurd (cc (k.0)))
detect_adapter_fails_iff machine auto = elim (Option-cases (select_native_adapter machine).0) [
  | inl absent ↦ ground arith
  | inr (found, e) ↦ ground arith
]
detect_adapter_fails_iff machine native = elim (Option-cases (select_native_adapter machine).0) [
  | inl absent ↦ ground arith
  | inr (found, e) ↦ ground arith
]

-- The spawn as it was asked for, and nothing more.
abbrev pub unwrapped : SandboxSpawnConfig → SpawnSpec
unwrapped config = record {
  command = config.command;
  args = config.args;
  env = config.env;
  cwd = config.cwd;
  post_spawn_hook = none;
}

wrap_spawns_warned :
    (n : ℕ) (configs : List SandboxSpawnConfig)
    → wrap_spawns (record { warned = true; written = n }) configs
      ≡ (map unwrapped configs, record { warned = true; written = n })
unfolding wrap_spawns wrap_spawn warn
wrap_spawns_warned n [] = refl
wrap_spawns_warned n (config ∷ configs) = rw (wrap_spawns_warned n configs) refl

-- From a fresh start, a row of spawns runs every command as it was asked for, and the warning is
-- written exactly once if there is a spawn at all.
pub wrap_spawns_once :
    (config : SandboxSpawnConfig) (configs : List SandboxSpawnConfig)
    → wrap_spawns fresh (config ∷ configs)
      ≡ (map unwrapped (config ∷ configs), record { warned = true; written = 1 })
unfolding wrap_spawns wrap_spawn warn
wrap_spawns_once config configs = rw (wrap_spawns_warned 1 configs) refl
