-- ===== src/Linux/Capabilities.antt =====
-- native-linux.ts: what the adapter reports, from the verdicts of the probes.
use convira_sandbox.Base.{Bool, true, if◌then◌else◌}
use convira_sandbox.Base.Text.{Text, codes}
use convira_sandbox.Types.{
  SandboxCapabilities, ExecutionCapabilityReportV2, hard_address_space, no_memory_limit,
}

-- `probeRlimitSupport().ok`, `probeDescendantKill()` and `probeMemoryHardCap()`.
pub record Probes : Type 0 where
  pub rlimit : Bool
  pub descendant_kill : Bool
  pub memory_hard_cap : Bool

abbrev pub platform : Text
platform = codes "linux-bubblewrap"

unfoldable pub capabilities : Probes → SandboxCapabilities
capabilities probes = record {
  filesystem_isolation = true;
  network_isolation = true;
  resource_limits = probes.rlimit;
}

unfoldable pub capabilities_v2 : Probes → ExecutionCapabilityReportV2
capabilities_v2 probes = record {
  adapter = platform;
  memory = if probes.memory_hard_cap then hard_address_space else no_memory_limit;
  cpu = probes.rlimit;
  pids = probes.rlimit;
  file_size = probes.rlimit;
  wall_clock_kill = probes.descendant_kill;
  kill_tree = probes.descendant_kill;
  filesystem_isolation = true;
  network_isolation = true;
}
