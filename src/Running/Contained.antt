-- ===== src/Running/Contained.antt =====
-- What a spawn runs, by the adapter that was chosen for it.
use convira_sandbox.Base.{
  none, some, List, ◌∷◌, ◌++◌, ◌≡◌, refl, inl, inr, arith, Option-cases, subst, flat_map,
}
use convira_sandbox.Base.Text.{Text, codes}
use convira_sandbox.Base.Result.{ok, returned_through, Result-cases}
use convira_sandbox.Types.{SandboxSpawnConfig, SpawnSpec, IsolationMode}
use convira_sandbox.Selection.Detect.{
  Adapter, linux_adapter, macos_adapter, windows_adapter, passthrough_adapter, detect_adapter,
}
use convira_sandbox.Selection.Laws.{IsChoice, detect_adapter-IsChoice, unwrapped}
use convira_sandbox.Selection.Passthrough as Passthrough
use convira_sandbox.Linux.Launcher.{LauncherState, find_bwrap}
use convira_sandbox.Linux.Mounts.{BwrapArg, render}
use convira_sandbox.Linux.Spawn.{
  filesystem_args, isolation_args, entry, wrap_spawn_with, wrap_spawn,
}
use convira_sandbox.Macos.Sealed.{IsSealed, wrap_spawn-IsSealed}
use convira_sandbox.Windows.Laws.{IsConfined, wrap_spawn-IsConfined}
use convira_sandbox.Windows.Spawn as Windows
use convira_sandbox.AppContainer.Prepare.{FsCall}
use convira_sandbox.Running.{Hosts, machine_of, asked, windows_spec, wrap_by, start}

-- Bubblewrap, as the launcher located it, with the mounts of the file system plan, the isolation
-- flags, and the entry behind `--`.
abbrev pub IsWrapped : Hosts → LauncherState → SandboxSpawnConfig → SpawnSpec → Type 0
IsWrapped hosts s config spec =
    (mounts : List BwrapArg) × (inner : List Text) × ((find_bwrap hosts.host hosts.env s).0
      ≡ some spec.command)
    × (filesystem_args hosts.host config.filesystem ≡ ok mounts)
    × (entry hosts.rlimit_probe config ≡ ok inner)
    × (spec.args
        ≡ flat_map render (mounts ++ isolation_args hosts.get_seccomp_fd config)
          ++ codes "--" ∷ inner)

abbrev pub IsContained : Hosts → LauncherState → SandboxSpawnConfig → SpawnSpec → Adapter → Type 0
IsContained hosts s config spec linux_adapter = IsWrapped hosts (asked hosts s) config spec
IsContained hosts s config spec macos_adapter = IsSealed hosts.mac config spec
IsContained hosts s config spec windows_adapter =
    (calls : List FsCall) × IsConfined hosts.windows config (spec, calls)
IsContained hosts s config spec passthrough_adapter = spec ≡ unwrapped config

wrap_spawn_with-IsWrapped :
    (hosts : Hosts) (s : LauncherState) (config : SandboxSpawnConfig) (spec : SpawnSpec)
    (bwrap : Text)
    → (find_bwrap hosts.host hosts.env s).0 ≡ some bwrap
    → wrap_spawn_with hosts.host hosts.get_seccomp_fd hosts.rlimit_probe bwrap config ≡ ok spec
    → IsWrapped hosts s config spec
unfolding wrap_spawn_with
wrap_spawn_with-IsWrapped hosts s config spec bwrap there h =
    let (mounts, planned, h1) =
      returned_through (filesystem_args hosts.host config.filesystem) _ h in
    let (inner, ended, h2) = returned_through (entry hosts.rlimit_probe config) _ h1 in
    let run : SpawnSpec = record {
      command = bwrap;
      args =
          flat_map render (mounts ++ isolation_args hosts.get_seccomp_fd config)
          ++ codes "--" ∷ inner;
      env = config.env;
      cwd = config.cwd;
      post_spawn_hook = none;
    } in
    let same : run ≡ spec = cc in
    subst (IsWrapped hosts s config) same (mounts, inner, there, planned, ended, refl)

wrap_spawn-IsWrapped :
    (hosts : Hosts) (s : LauncherState) (config : SandboxSpawnConfig) (spec : SpawnSpec)
    → (wrap_spawn hosts.host hosts.env hosts.get_seccomp_fd hosts.rlimit_probe config s).0 ≡ ok spec
    → IsWrapped hosts s config spec
unfolding wrap_spawn
wrap_spawn-IsWrapped hosts s config spec h =
    elim (Option-cases (find_bwrap hosts.host hosts.env s).0) [
      | inl absent ↦ absurd (ground arith)
      | inr (bwrap, there) ↦
          wrap_spawn_with-IsWrapped hosts s config spec bwrap there (ground arith)
    ]

windows_spec-IsConfined :
    (hosts : Hosts) (config : SandboxSpawnConfig) (spec : SpawnSpec)
    → windows_spec (Windows.wrap_spawn hosts.windows config) ≡ ok spec
    → (calls : List FsCall) × IsConfined hosts.windows config (spec, calls)
windows_spec-IsConfined hosts config spec h =
    elim (Result-cases (Windows.wrap_spawn hosts.windows config)) [
      | inr (message, threw) ↦ absurd (ground arith)
      | inl ((run, calls), ran) ↦
          let same : run ≡ spec = ground arith in
          (
            calls,
            subst (λ x. IsConfined hosts.windows config (x, calls)) same
                (wrap_spawn-IsConfined hosts.windows config (run, calls) ran),
          )
    ]

wrap_by-IsContained :
    (hosts : Hosts) (s : LauncherState) (config : SandboxSpawnConfig) (spec : SpawnSpec)
    (adapter : Adapter)
    → wrap_by hosts s config adapter ≡ ok spec
    → IsContained hosts s config spec adapter
unfolding wrap_by Passthrough.wrap_spawn
wrap_by-IsContained hosts s config spec linux_adapter h =
    wrap_spawn-IsWrapped hosts (asked hosts s) config spec h
wrap_by-IsContained hosts s config spec macos_adapter h =
    wrap_spawn-IsSealed hosts.mac hosts.rlimit_probe config spec h
wrap_by-IsContained hosts s config spec windows_adapter h =
    windows_spec-IsConfined hosts config spec h
wrap_by-IsContained hosts s config spec passthrough_adapter h = ground arith

-- A spawn that is granted was wrapped by an adapter that its mode may end with, and is contained the
-- way of that adapter: in bubblewrap with the planned mounts, the isolation flags and the entry of
-- the command, under a sealed Seatbelt profile, or in an AppContainer on proven isolation; it is
-- unwrapped only by the passthrough adapter, which is never the choice of the mode `native`.
pub start-IsContained :
    (hosts : Hosts) (mode : IsolationMode) (s : LauncherState) (config : SandboxSpawnConfig)
    (spec : SpawnSpec)
    → start hosts mode s config ≡ ok spec
    → (adapter : Adapter) × IsChoice (machine_of hosts s) mode adapter
      × IsContained hosts s config spec adapter
unfolding start
start-IsContained hosts mode s config spec h =
    let (adapter, chosen, ran) = returned_through (detect_adapter (machine_of hosts s) mode) _ h in
    (
      adapter,
      detect_adapter-IsChoice (machine_of hosts s) mode adapter chosen,
      wrap_by-IsContained hosts s config spec adapter ran,
    )
