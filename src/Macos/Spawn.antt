-- ===== src/Macos/Spawn.antt =====
-- native-macos.ts: `macosAdapter.wrapSpawn`, the reports, and the sweep of stale profiles.
use convira_sandbox.Base.{
  ℕ, ◌-◌, Bool, true, false, ◌&&◌, ◌||◌, Option, none, some, List, [], ◌∷◌, ◌++◌, ltb, leb, any,
  filter, if◌then◌else◌,
}
use convira_sandbox.Base.Text.{Text, codes, ◌===◌, starts_with, ends_with}
use convira_sandbox.Base.Result.{Result, ok, throw, ◌>>=◌}
use convira_sandbox.Types.{
  SandboxSpawnConfig, SpawnSpec, SandboxCapabilities, ExecutionCapabilityReportV2, rss_watchdog,
  no_memory_limit,
}
use convira_sandbox.Rlimit.Values.{ProcLimitFlag, rlimit_values_from_resources}
use convira_sandbox.Rlimit.Script.{wrap_with_rlimit, rlimit_shell_path}
use convira_sandbox.Rlimit.Probing.{RlimitProbeResult}
use convira_sandbox.Macos.Profile.{generate_seatbelt_profile}

abbrev pub sandbox_exec_path : Text
sandbox_exec_path = codes "/usr/bin/sandbox-exec"

abbrev pub inline_profile_max_bytes : ℕ
inline_profile_max_bytes = 200000

-- Node's `path.isAbsolute`, `fs.existsSync`, `path.dirname`, `fs.realpathSync` (nothing if it throws),
-- the trimmed answer of /usr/bin/which (nothing if it throws), `Buffer.byteLength` and the private
-- temporary file that a large profile is written to (nothing if a call throws).
pub record Mac : Type 0 where
  pub is_absolute : Text → Bool
  pub exists : Text → Bool
  pub dirname : Text → Text
  pub realpath : Text → Option Text
  pub which : Text → List (Text × Text) → Option Text
  pub byte_length : Text → ℕ
  pub write_profile : Text → Option Text

-- The answer of `which`, if it names an existing file.
found : Mac → Option Text → Option Text
found mac none = none
found mac (some []) = none
found mac (some (c ∷ p)) = if mac.exists (c ∷ p) then some (c ∷ p) else none

unfoldable pub resolve_command_path : Mac → Text → List (Text × Text) → Option Text
unfolding found
resolve_command_path mac command env =
    if mac.is_absolute command && mac.exists command
    then some command
    else found mac (mac.which command env)

abbrev pub default_read_prefixes : List Text
default_read_prefixes =
    codes "/usr"
    ∷ codes "/Library"
    ∷ codes "/System"
    ∷ codes "/bin"
    ∷ codes "/sbin"
    ∷ codes "/opt"
    ∷ codes "/etc"
    ∷ []

real_dir_paths : Text → Option Text → Result (List Text)
real_dir_paths dir none = throw (codes "realpath")
real_dir_paths dir (some real) = ok (if real === dir then dir ∷ [] else dir ∷ real ∷ [])

unfoldable pub command_read_paths : Mac → Text → Result (List Text)
unfolding real_dir_paths
command_read_paths mac abs_path =
    let dir = mac.dirname abs_path in
    if any (λ p. starts_with dir p) default_read_prefixes
    then ok []
    else real_dir_paths dir (mac.realpath dir)

-- The configuration with the directories of the command among the read paths.
unfoldable pub with_reads : SandboxSpawnConfig → List Text → SandboxSpawnConfig
with_reads config extra = record config {
  filesystem = record {
    read_paths = config.filesystem.read_paths ++ extra;
    write_paths = config.filesystem.write_paths;
    deny_paths = config.filesystem.deny_paths;
    deny_path_kinds = config.filesystem.deny_path_kinds;
  };
}

unfoldable pub augmented_config : Mac → SandboxSpawnConfig → Option Text → Result SandboxSpawnConfig
unfolding with_reads
augmented_config mac config none = ok config
augmented_config mac config (some resolved) = do
  extra ← command_read_paths mac resolved
  ok (with_reads config extra)

written_args : Option Text → Result (List Text)
written_args none = throw (codes "write")
written_args (some file) = ok (codes "-f" ∷ file ∷ [])

unfoldable pub profile_args : Mac → Text → Result (List Text)
unfolding written_args
profile_args mac profile =
    if leb (mac.byte_length profile) inline_profile_max_bytes
    then ok (codes "-p" ∷ profile ∷ [])
    else written_args (mac.write_profile profile)

abbrev pub command_or : Text → Option Text → Text
command_or command none = command
command_or command (some resolved) = resolved

limited_entry : SandboxSpawnConfig → Text → Option ProcLimitFlag → Result (List Text)
limited_entry config command none = ok (command ∷ config.args)
limited_entry config command (some flag) = do
  (shell, args) ←
      wrap_with_rlimit command config.args (rlimit_values_from_resources config.resources false)
        flag rlimit_shell_path
  ok (shell ∷ args)

unfoldable pub entry : RlimitProbeResult → SandboxSpawnConfig → Text → Result (List Text)
unfolding limited_entry
entry rlimit_probe config command =
    if rlimit_probe.ok
    then limited_entry config command rlimit_probe.proc_flag
    else ok (command ∷ config.args)

unfoldable pub wrap_spawn : Mac → RlimitProbeResult → SandboxSpawnConfig → Result SpawnSpec
wrap_spawn mac rlimit_probe config = do
  let resolved = resolve_command_path mac config.command config.env
  augmented ← augmented_config mac config resolved
  delivered ← profile_args mac (generate_seatbelt_profile augmented)
  inner ← entry rlimit_probe config (command_or config.command resolved)
  ok (record {
    command = sandbox_exec_path;
    args = delivered ++ inner;
    env = config.env;
    cwd = config.cwd;
    post_spawn_hook = none;
  })

-- `probeRlimitSupport().ok`, `probeDescendantKill()` and `probeRssWatchdogSupport()`.
pub record Probes : Type 0 where
  pub rlimit : Bool
  pub descendant_kill : Bool
  pub watchdog : Bool

unfoldable pub capabilities : Probes → SandboxCapabilities
capabilities probes = record {
  filesystem_isolation = true;
  network_isolation = true;
  resource_limits = probes.rlimit;
}

unfoldable pub capabilities_v2 : Probes → ExecutionCapabilityReportV2
capabilities_v2 probes = record {
  adapter = codes "macos-sandbox-exec";
  memory = if probes.watchdog then rss_watchdog else no_memory_limit;
  cpu = probes.rlimit;
  pids = probes.rlimit;
  file_size = probes.rlimit;
  wall_clock_kill = probes.descendant_kill;
  kill_tree = probes.descendant_kill;
  filesystem_isolation = true;
  network_isolation = true;
}

abbrev pub profile_max_age_ms : ℕ
profile_max_age_ms = 604800000

abbrev pub is_profile_name : Text → Bool
is_profile_name name =
    (starts_with name (codes "convira-sb-") && ends_with name (codes ".sb"))
    || starts_with name (codes "convira-sbd-")

is_stale : ℕ → Option ℕ → Bool
is_stale now none = false
is_stale now (some mtime) = ltb profile_max_age_ms (now - mtime)

-- The names that `fs.rmSync` is called for, in the temporary directory. `names` is nothing if the
-- directory cannot be read, `mtime` is nothing if `stat` throws; a time ahead of `now` is not stale.
unfoldable pub sweep_stale_profiles : ℕ → Option (List Text) → (Text → Option ℕ) → List Text
unfolding is_stale
sweep_stale_profiles now none mtime = []
sweep_stale_profiles now (some names) mtime =
    filter (λ name. is_profile_name name && is_stale now (mtime name)) names
