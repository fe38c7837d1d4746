-- ===== src/Macos/Sealed.antt =====
-- native-macos.ts: what a granted spawn runs, under which profile.
use convira_sandbox.Base.{
  true, false, Option, none, some, List, [], ◌∷◌, ◌++◌, ◌≡◌, refl, ◌⊎◌, inl, inr, arith, Bool-cases,
  Option-cases, subst, leb,
}
use convira_sandbox.Base.Text.{Text, codes}
use convira_sandbox.Base.Result.{ok, returned_through, Result-cases}
use convira_sandbox.Types.{SandboxSpawnConfig, SpawnSpec}
use convira_sandbox.Rlimit.Values.{ProcLimitFlag, rlimit_values_from_resources}
use convira_sandbox.Rlimit.Script.{wrap_with_rlimit, build_rlimit_script, rlimit_shell_path}
use convira_sandbox.Rlimit.Probing.{RlimitProbeResult}
use convira_sandbox.Macos.Profile.{generate_seatbelt_profile}
use convira_sandbox.Macos.Spawn.{
  Mac, sandbox_exec_path, inline_profile_max_bytes, resolve_command_path, command_read_paths,
  augmented_config, with_reads, profile_args, command_or, entry, wrap_spawn,
}

-- The profile is passed inline, or in the private file that it was written to.
abbrev pub IsDelivered : Mac → Text → List Text → Type 0
IsDelivered mac profile args =
    (args ≡ codes "-p" ∷ profile ∷ [])
    ⊎ ((file : Text) × (mac.write_profile profile ≡ some file) × (args ≡ codes "-f" ∷ file ∷ []))

-- Nothing but the read paths may differ.
abbrev pub IsAugmented : SandboxSpawnConfig → SandboxSpawnConfig → Type 0
IsAugmented config augmented =
    (augmented.filesystem.deny_paths ≡ config.filesystem.deny_paths)
    × (augmented.filesystem.write_paths ≡ config.filesystem.write_paths)
    × (augmented.network ≡ config.network)

-- The command line ends with the resolved command and the arguments.
abbrev pub IsEntry : Text → SandboxSpawnConfig → List Text → Type 0
IsEntry command config inner = (front : List Text) × (inner ≡ front ++ command ∷ config.args)

abbrev pub IsSealed : Mac → SandboxSpawnConfig → SpawnSpec → Type 0
IsSealed mac config spec =
    (spec.command ≡ sandbox_exec_path)
    × (augmented : SandboxSpawnConfig) × (IsAugmented config augmented)
    × (delivered : List Text) × (IsDelivered mac (generate_seatbelt_profile augmented) delivered)
    × (inner : List Text) × (IsEntry
        (command_or config.command (resolve_command_path mac config.command config.env)) config
        inner)
    × (spec.args ≡ delivered ++ inner)

profile_args-IsDelivered :
    (mac : Mac) (profile : Text) (args : List Text)
    → profile_args mac profile ≡ ok args
    → IsDelivered mac profile args
unfolding profile_args
profile_args-IsDelivered mac profile args h =
    elim (Bool-cases (leb (mac.byte_length profile) inline_profile_max_bytes)) [
      | inl small ↦ inl (ground arith)
      | inr large ↦ elim (Option-cases (mac.write_profile profile)) [
        | inl failed ↦ absurd (ground arith)
        | inr (file, written) ↦ inr (file, written, ground arith)
      ]
    ]

augmented_config-IsAugmented :
    (mac : Mac) (config : SandboxSpawnConfig) (resolved : Option Text)
    (augmented : SandboxSpawnConfig)
    → augmented_config mac config resolved ≡ ok augmented
    → IsAugmented config augmented
unfolding augmented_config with_reads
augmented_config-IsAugmented mac config none augmented h =
    let same : config ≡ augmented = cc in subst (IsAugmented config) same (refl, refl, refl)
augmented_config-IsAugmented mac config (some resolved) augmented h =
    let (extra, read, last) = returned_through (command_read_paths mac resolved) _ h in
    let same : with_reads config extra ≡ augmented = cc in
    subst (IsAugmented config) same (refl, refl, refl)

limited-IsEntry :
    (config : SandboxSpawnConfig) (command : Text) (flag : ProcLimitFlag)
    (rlimit_probe : RlimitProbeResult) (inner : List Text)
    → rlimit_probe.ok ≡ true
    → rlimit_probe.proc_flag ≡ some flag
    → entry rlimit_probe config command ≡ ok inner
    → IsEntry command config inner
unfolding entry wrap_with_rlimit
limited-IsEntry config command flag rlimit_probe inner on there h =
    elim (Result-cases
      (build_rlimit_script (rlimit_values_from_resources config.resources false) flag)) [
        | inl (script, built) ↦ (rlimit_shell_path ∷ codes "-c" ∷ script ∷ [], ground arith)
        | inr (e, failed) ↦ absurd (ground arith)
      ]

entry-IsEntry :
    (rlimit_probe : RlimitProbeResult) (config : SandboxSpawnConfig) (command : Text)
    (inner : List Text)
    → entry rlimit_probe config command ≡ ok inner
    → IsEntry command config inner
unfolding entry
entry-IsEntry rlimit_probe config command inner h = elim (Bool-cases rlimit_probe.ok) [
  | inl on ↦ elim (Option-cases rlimit_probe.proc_flag) [
    | inl missing ↦ ([], ground arith)
    | inr (flag, there) ↦ limited-IsEntry config command flag rlimit_probe inner on there h
  ]
  | inr off ↦ ([], ground arith)
]

-- A macOS spawn that is granted runs sandbox-exec under a profile generated for the deny paths, the
-- write paths and the network of the spawn itself, given inline or in a private file that was
-- written, and the resolved command and its arguments end the command line verbatim.
pub wrap_spawn-IsSealed :
    (mac : Mac) (rlimit_probe : RlimitProbeResult) (config : SandboxSpawnConfig) (spec : SpawnSpec)
    → wrap_spawn mac rlimit_probe config ≡ ok spec
    → IsSealed mac config spec
unfolding wrap_spawn
wrap_spawn-IsSealed mac rlimit_probe config spec h =
    let resolved = resolve_command_path mac config.command config.env in
    let (augmented, a, h1) = returned_through (augmented_config mac config resolved) _ h in
    let (delivered, d, h2) =
      returned_through (profile_args mac (generate_seatbelt_profile augmented)) _ h1 in
    let (inner, e, h3) =
      returned_through (entry rlimit_probe config (command_or config.command resolved)) _ h2 in
    let run : SpawnSpec = record {
      command = sandbox_exec_path;
      args = delivered ++ inner;
      env = config.env;
      cwd = config.cwd;
      post_spawn_hook = none;
    } in
    let same : run ≡ spec = cc in
    subst (IsSealed mac config) same (
      refl,
      augmented,
      augmented_config-IsAugmented mac config resolved augmented a,
      delivered,
      profile_args-IsDelivered mac (generate_seatbelt_profile augmented) delivered d,
      inner,
      entry-IsEntry rlimit_probe config (command_or config.command resolved) inner e,
      refl,
    )
