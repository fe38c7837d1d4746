-- ===== src/Windows/Available.antt =====
-- native-windows.ts: whether the adapter is available, why not, and what it reports.
use convira_sandbox.Base.{Bool, true, false, not, Option, none, some, ◌++◌, if◌then◌else◌}
use convira_sandbox.Base.Text.{Text, codes}
use convira_sandbox.Types.{
  SandboxCapabilities, ExecutionCapabilityReportV2, hard_address_space, no_memory_limit,
}

-- The verdicts that the adapter asks for. `addon` says that the Job Object bindings load; a stage is
-- the text that a probe leaves behind.
pub record Verdicts : Type 0 where
  pub is_win32 : Bool
  pub addon : Bool
  pub handshake : Bool
  pub handshake_stage : Text
  pub job_kill_tree : Bool
  pub kill_tree_stage : Text
  pub filesystem : Bool
  pub network : Bool
  pub memory : Bool
  pub cpu : Bool
  pub pids : Bool
  pub wall_clock_kill : Bool
  pub disk : Bool

-- The answer, and what `_unavailableReason` is set to.
unfoldable pub windows_sandbox_available : Verdicts → Bool × Option Text
windows_sandbox_available v =
    if not v.is_win32
    then (false, some (codes "not-win32"))
    else if not v.addon
    then (false, some (codes "job-object-addon-did-not-load"))
    else if not v.handshake
    then (false, some (codes "selftest-host-unavailable:" ++ v.handshake_stage))
    else if not v.job_kill_tree
    then (false, some (codes "kill-tree-probe-failed:" ++ v.kill_tree_stage))
    else (true, none)

unfoldable pub capabilities : Verdicts → SandboxCapabilities
capabilities v = record {
  filesystem_isolation = v.filesystem;
  network_isolation = v.network;
  resource_limits = false;
}

unfoldable pub capabilities_v2 : Verdicts → ExecutionCapabilityReportV2
capabilities_v2 v = record {
  adapter = codes "windows-job-objects";
  memory = if v.memory then hard_address_space else no_memory_limit;
  cpu = v.cpu;
  pids = v.pids;
  file_size = v.disk;
  wall_clock_kill = v.wall_clock_kill;
  kill_tree = v.job_kill_tree;
  filesystem_isolation = v.filesystem;
  network_isolation = v.network;
}
