-- ===== src/Windows/Spawn.antt =====
-- native-windows.ts: `windowsAdapter.wrapSpawn`.
use convira_sandbox.Base.{
  ℕ, ◌*◌, max, Bool, true, false, not, ◌&&◌, ◌||◌, Option, none, some, List, [], ◌∷◌, ◌++◌,
  if◌then◌else◌,
}
use convira_sandbox.Base.Text.{Text, codes}
use convira_sandbox.Base.Result.{Result, ok, throw, ◌>>=◌}
use convira_sandbox.Types.{
  SandboxSpawnConfig, SpawnSpec, Resources, floor, WinJobObjectLimits, PostSpawnHook, attach_to_job,
  warn_unlimited,
}
use convira_sandbox.DenyLeafKind.{lookup}
use convira_sandbox.Rlimit.Values.{rlimit_values_from_resources}
use convira_sandbox.AppContainer.Grants.{WinAppContainerGrants}
use convira_sandbox.AppContainer.Prepare.{
  Files, FsCall, PreparedAppContainerSpawn, prepare_app_container_spawn,
}
use convira_sandbox.Windows.Available.{Verdicts}

-- What a spawn meets: the probes' verdicts, the launcher if one is resolved, LOCALAPPDATA of the
-- process, and `isAbsolute` and `dirname` of Node's `path.win32`.
pub record Machine : Type 0 where
  pub verdicts : Verdicts
  pub launcher : Option Text
  pub local_app_data : Option Text
  pub is_absolute : Text → Bool
  pub dirname : Text → Text
  pub files : Files

cpu_time_ms : Option ℕ → Option ℕ
cpu_time_ms none = none
cpu_time_ms (some seconds) = some (seconds * 1000)

unfoldable pub job_limits : Resources → WinJobObjectLimits
unfolding cpu_time_ms
job_limits resources = record {
  memory_limit_mb = some (floor resources.memory_mb);
  max_processes = some (max 1 (floor resources.max_processes));
  cpu_time_ms = cpu_time_ms (rlimit_values_from_resources resources false).cpu_seconds;
  kill_on_close = true;
}

unfoldable pub hook : Bool → Resources → PostSpawnHook
hook addon resources = if addon then attach_to_job (job_limits resources) else warn_unlimited

inherit_local_app_data : List (Text × Text) → Option Text → List (Text × Text)
inherit_local_app_data env none = env
inherit_local_app_data env (some []) = env
inherit_local_app_data env (some (c ∷ inherited)) =
    env ++ (codes "LOCALAPPDATA", c ∷ inherited) ∷ []

unfoldable pub with_app_container_required_env :
    Option Text → List (Text × Text) → List (Text × Text)
unfolding inherit_local_app_data
with_app_container_required_env inherited env = elim (lookup (codes "LOCALAPPDATA") env) [
  | some value ↦ env
  | none ↦ inherit_local_app_data env inherited
]

-- The grants that are asked for.
unfoldable pub spawn_grants : Machine → SandboxSpawnConfig → WinAppContainerGrants
spawn_grants machine config = record {
  read_paths =
      config.filesystem.read_paths
      ++ (if machine.is_absolute config.command then machine.dirname config.command ∷ [] else []);
  write_paths = config.filesystem.write_paths;
  deny_paths = config.filesystem.deny_paths;
  deny_path_kinds = config.filesystem.deny_path_kinds;
}

unfoldable pub launched :
    Machine → Text → SandboxSpawnConfig → PreparedAppContainerSpawn → SpawnSpec
launched machine launcher config prepared = record {
  command = launcher;
  args =
      prepared.profile_name
      ∷ prepared.grants_file
      ∷ ((if config.network.enabled then codes "--allow-network" ∷ [] else [])
          ++ codes "--" ∷ config.command ∷ config.args);
  env = with_app_container_required_env machine.local_app_data config.env;
  cwd = config.cwd;
  post_spawn_hook = some (hook machine.verdicts.addon config.resources);
}

unfoldable pub refused_loopback : Text
refused_loopback =
    codes "[sandbox-runtime] AppContainer cannot grant loopback-only network access "
    ++ codes "(a non-admin install cannot register a loopback exemption); refusing to spawn"

unfoldable pub refused_unconfined : Text
refused_unconfined =
    codes "[sandbox-runtime] AppContainer filesystem/network isolation is not proven on this host; "
    ++ codes "refusing to spawn an unconfined process"

-- `appContainerReady`, with the launcher.
unfoldable pub ready_launcher : Machine → SandboxSpawnConfig → Option Text
ready_launcher machine config =
    if machine.verdicts.filesystem && (config.network.enabled || machine.verdicts.network)
    then machine.launcher
    else none

-- The spawn through the launcher, with the calls on the file system.
unfoldable pub launch : Machine → SandboxSpawnConfig → Text → Result (SpawnSpec × List FsCall)
launch machine config launcher =
    if not config.network.enabled && config.network.allow_loopback
    then throw refused_loopback
    else do
      prepared ← prepare_app_container_spawn machine.files (spawn_grants machine config)
      ok (launched machine launcher config prepared.0, prepared.1)

unfoldable pub wrap_spawn : Machine → SandboxSpawnConfig → Result (SpawnSpec × List FsCall)
wrap_spawn machine config = elim (ready_launcher machine config) [
  | some launcher ↦ launch machine config launcher
  | none ↦ throw refused_unconfined
]
