-- ===== src/Running/Examples.antt =====
-- A spawn in mode `native` on macOS.
use convira_sandbox.Base.{true, false, none, some, refl}
use convira_sandbox.Base.Text.{codes, ◌===◌, starts_with}
use convira_sandbox.Types.{native}
use convira_sandbox.Host.{Host}
use convira_sandbox.Linux.Launcher.{LauncherState}
use convira_sandbox.Selection.Detect.{
  Adapter, darwin, detect_adapter, select_native_adapter, platform_adapter, is_wsl,
}
use convira_sandbox.Selection.Laws.{IsChoice}
use convira_sandbox.Macos.Spawn.{
  wrap_spawn, resolve_command_path, augmented_config, command_read_paths, profile_args, entry,
}
use convira_sandbox.Macos.Examples.{mac, config, spec, no_limits}
use convira_sandbox.Windows.Examples.{machine}
use convira_sandbox.Running.{Hosts, available, machine_of, wrap_by, start}
use convira_sandbox.Running.Contained.{IsContained, start-IsContained}

abbrev bare : Host
bare = record { stat_sync = λ p. none; realpath_sync = λ p. none; readdir_sync = λ p. none }

abbrev unasked : LauncherState
unasked = record { bwrap_path = none; available = none }

abbrev hosts : Hosts
hosts = record {
  platform = darwin;
  platform_name = codes "darwin";
  proc_version = none;
  host = bare;
  env = record {
    getuid = some 501;
    resources_path = none;
    which_bwrap = none;
    userns_clone = none;
    appimage = false;
    snap = false;
    flatpak_id = false;
    cgroup = none;
  };
  get_seccomp_fd = λ name. none;
  rlimit_probe = no_limits;
  sandbox_exec = true;
  mac = mac;
  windows = machine;
}

start-IsContained_example :
    (adapter : Adapter) × IsChoice (machine_of hosts unasked) native adapter
    × IsContained hosts unasked config spec adapter
unfolding start wrap_by detect_adapter select_native_adapter platform_adapter is_wsl available
    wrap_spawn resolve_command_path augmented_config command_read_paths profile_args entry
    starts_with ◌===◌
start-IsContained_example = start-IsContained hosts native unasked config spec refl
