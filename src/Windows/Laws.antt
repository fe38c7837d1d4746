-- ===== src/Windows/Laws.antt =====
-- native-windows.ts: no spawn without proven isolation.
use convira_sandbox.Base.{
  true, false, not, ◌&&◌, ◌||◌, none, some, List, [], ◌∷◌, ◌++◌, ◌≡◌, refl, sym, ◌↔◌, inl, inr,
  arith, Bool-cases, Option-cases, ◌∙◌, subst,
}
use convira_sandbox.Base.Text.{Text, codes}
use convira_sandbox.Base.Result.{ok, ◌>>=◌, returned_through}
use convira_sandbox.Types.{SandboxSpawnConfig, SpawnSpec}
use convira_sandbox.AppContainer.Grants.{
  WinAppContainerGrants, Filtered, filter_grants_to_existing_paths, format_app_container_grants,
}
use convira_sandbox.AppContainer.Prepare.{
  Files, FsCall, write_file, PreparedAppContainerSpawn, prepare_app_container_spawn, profile_name,
  grants_file, must, make_directory, materialize_all,
}
use convira_sandbox.Windows.Available.{Verdicts, windows_sandbox_available}
use convira_sandbox.Windows.Spawn.{
  Machine, spawn_grants, launched, ready_launcher, launch, wrap_spawn,
}

-- The adapter is available exactly when it runs on Windows, the addon loads, the payload host
-- answers and the kill-tree probe passes, and it then gives no reason; otherwise it gives one.
pub windows_sandbox_available_iff :
    (v : Verdicts)
    → ((windows_sandbox_available v).0 ≡ true
        ↔ v.is_win32 && (v.addon && (v.handshake && v.job_kill_tree)) ≡ true)
      × ((windows_sandbox_available v).0 ≡ true ↔ (windows_sandbox_available v).1 ≡ none)
unfolding windows_sandbox_available
windows_sandbox_available_iff v = ground arith

-- The grants file of a prepared spawn is written last, and it holds the filtered grants.
abbrev pub IsPrepared :
    Files → WinAppContainerGrants → PreparedAppContainerSpawn × List FsCall → Type 0
IsPrepared files grants (prepared, calls) =
    (filtered : Filtered) × (filter_grants_to_existing_paths grants files.exists ≡ ok filtered)
    × (prepared.grants_file ≡ grants_file files)
    × (front : List FsCall) × (calls
        ≡ front
          ++ write_file prepared.grants_file (format_app_container_grants filtered.grants) ∷ [])

prepare-IsPrepared :
    (files : Files) (grants : WinAppContainerGrants)
    (result : PreparedAppContainerSpawn × List FsCall)
    → prepare_app_container_spawn files grants ≡ ok result
    → IsPrepared files grants result
unfolding prepare_app_container_spawn
prepare-IsPrepared files grants result h =
    let (u, ledger, h1) =
      returned_through
        (must files (files.outcome (make_directory files.ledger_dir)) (codes "mkdir")) _ h in
    let (filtered, kept, h2) =
      returned_through (filter_grants_to_existing_paths grants files.exists) _ h1 in
    let (created, made, h3) = returned_through (materialize_all files filtered.materialize) _ h2 in
    let (v, written, h4) =
      returned_through
        (must files
          (files.outcome
            (write_file (grants_file files) (format_app_container_grants filtered.grants)))
          (codes "write"))
        _ h3 in
    let prepared : (
      record { profile_name = profile_name files; grants_file = grants_file files },
      make_directory files.ledger_dir
          ∷ (created
              ++ write_file (grants_file files) (format_app_container_grants filtered.grants) ∷ []),
    )
        ≡ result =
      cc in
    subst (IsPrepared files grants) prepared
      (filtered, kept, refl, make_directory files.ledger_dir ∷ created, refl)

-- What a granted spawn rests on, and what it runs.
abbrev pub IsConfined : Machine → SandboxSpawnConfig → SpawnSpec × List FsCall → Type 0
IsConfined machine config (spec, calls) =
    (machine.launcher ≡ some spec.command)
    × (machine.verdicts.filesystem ≡ true)
    × (config.network.enabled || machine.verdicts.network ≡ true)
    × (not config.network.enabled && config.network.allow_loopback ≡ false)
    × (prepared : PreparedAppContainerSpawn) × (IsPrepared machine.files
        (spawn_grants machine config) (prepared, calls))
    × (spec ≡ launched machine spec.command config prepared)

ready_launcher_lem :
    (machine : Machine) (config : SandboxSpawnConfig) (launcher : Text)
    → ready_launcher machine config ≡ some launcher
    → (machine.launcher ≡ some launcher)
      × ((machine.verdicts.filesystem ≡ true)
          × (config.network.enabled || machine.verdicts.network ≡ true))
unfolding ready_launcher
ready_launcher_lem machine config launcher h =
    elim (Bool-cases
      (machine.verdicts.filesystem && (config.network.enabled || machine.verdicts.network))) [
        | inl proven ↦ ground arith
        | inr unproven ↦ absurd (ground arith)
      ]

launch-IsConfined :
    (machine : Machine) (config : SandboxSpawnConfig) (result : SpawnSpec × List FsCall)
    (launcher : Text)
    → ready_launcher machine config ≡ some launcher
    → launch machine config launcher ≡ ok result
    → IsConfined machine config result
unfolding launch launched
launch-IsConfined machine config result launcher ready h =
    let (there, (filesystem, network)) = ready_launcher_lem machine config launcher ready in
    elim (Bool-cases (not config.network.enabled && config.network.allow_loopback)) [
      | inl loopback ↦ absurd (ground arith)
      | inr no_loopback ↦
          let run : (prepare_app_container_spawn machine.files (spawn_grants machine config)
                >>= (λ prepared. ok (launched machine launcher config prepared.0, prepared.1)))
              ≡ ok result =
            sym (rw no_loopback refl) ∙ h in
          let (prepared, done, last) =
            returned_through
              (prepare_app_container_spawn machine.files (spawn_grants machine config)) _ run in
          let same : (launched machine launcher config prepared.0, prepared.1) ≡ result = cc in
          subst (IsConfined machine config) same (
            there,
            filesystem,
            network,
            no_loopback,
            prepared.0,
            prepare-IsPrepared machine.files (spawn_grants machine config) prepared done,
            refl,
          )
    ]

pub wrap_spawn-IsConfined :
    (machine : Machine) (config : SandboxSpawnConfig) (result : SpawnSpec × List FsCall)
    → wrap_spawn machine config ≡ ok result
    → IsConfined machine config result
unfolding wrap_spawn ready_launcher launch
wrap_spawn-IsConfined machine config result h =
    elim (Option-cases (ready_launcher machine config)) [
      | inl unready ↦ absurd (ground arith)
      | inr (launcher, ready) ↦
          launch-IsConfined machine config result launcher ready (ground arith)
    ]
