-- ===== src/Boot/Reports.antt =====
-- The reports that the boot probes back, each asking its probes in the order of the source.
use convira_sandbox.Base.{Bool, true, List, [], ◌∷◌}
use convira_sandbox.Types.{ExecutionCapabilityReportV2}
use convira_sandbox.Boot.Memos.{
  BootProbe, job_kill_tree, job_memory, job_pids, job_cpu_time, app_container_filesystem,
  app_container_network, app_container_spawn_caging, disk_watchdog, rss_watchdog, descendant_kill,
  memory_hard_cap, rlimit_support, Boot, ◌>>=◌, return, ask,
}
use convira_sandbox.Linux.Capabilities as Linux
use convira_sandbox.Windows.Available as Windows
use convira_sandbox.Macos.Spawn as Macos

pub record WinJobObjectProbeReport : Type 0 where
  pub kill_tree : Bool
  pub wall_clock_kill : Bool
  pub memory : Bool
  pub pids : Bool
  pub cpu : Bool

pub record WinAppContainerProbeReport : Type 0 where
  pub filesystem_isolation : Bool
  pub network_isolation : Bool
  pub spawn_caging : Bool

pub data Request : Type 0 where
  single : BootProbe → Request
  job_report container_report : Request
  linux_report macos_report windows_report : Request

pub data Answer : Type 0 where
  verdict_of : Bool → Answer
  job_answer : WinJobObjectProbeReport → Answer
  container_answer : WinAppContainerProbeReport → Answer
  capability_answer : ExecutionCapabilityReportV2 → Answer

abbrev pub job_report_of : Bool → Bool → Bool → Bool → WinJobObjectProbeReport
job_report_of kill_tree memory pids cpu = record {
  kill_tree = kill_tree;
  wall_clock_kill = kill_tree;
  memory = memory;
  pids = pids;
  cpu = cpu;
}

-- The Windows report reads nothing of availability.
abbrev pub windows_report_of :
    WinJobObjectProbeReport → Bool → Bool → Bool → ExecutionCapabilityReportV2
windows_report_of probes disk filesystem network = Windows.capabilities_v2 (record {
  is_win32 = true;
  addon = true;
  handshake = true;
  handshake_stage = [];
  job_kill_tree = probes.kill_tree;
  kill_tree_stage = [];
  filesystem = filesystem;
  network = network;
  memory = probes.memory;
  cpu = probes.cpu;
  pids = probes.pids;
  wall_clock_kill = probes.wall_clock_kill;
  disk = disk;
})

module _ (verdict : BootProbe → List BootProbe → Bool) where
  unfoldable pub probe_win_job_object_report : Boot WinJobObjectProbeReport
  probe_win_job_object_report = do
    kill_tree ← ask verdict job_kill_tree
    memory ← ask verdict job_memory
    pids ← ask verdict job_pids
    cpu ← ask verdict job_cpu_time
    return (job_report_of kill_tree memory pids cpu)

  unfoldable pub probe_win_app_container_report : Boot WinAppContainerProbeReport
  probe_win_app_container_report = do
    filesystem ← ask verdict app_container_filesystem
    network ← ask verdict app_container_network
    caging ← ask verdict app_container_spawn_caging
    return (record {
      filesystem_isolation = filesystem;
      network_isolation = network;
      spawn_caging = caging;
    })

  unfoldable pub windows_capabilities_v2 : Boot ExecutionCapabilityReportV2
  windows_capabilities_v2 = do
    probes ← probe_win_job_object_report
    disk ← ask verdict disk_watchdog
    filesystem ← ask verdict app_container_filesystem
    network ← ask verdict app_container_network
    return (windows_report_of probes disk filesystem network)

  unfoldable pub linux_capabilities_v2 : Boot ExecutionCapabilityReportV2
  linux_capabilities_v2 = do
    rlimit ← ask verdict rlimit_support
    kill_tree ← ask verdict descendant_kill
    memory ← ask verdict memory_hard_cap
    return (
        Linux.capabilities_v2
          (record { rlimit = rlimit; descendant_kill = kill_tree; memory_hard_cap = memory }))

  unfoldable pub macos_capabilities_v2 : Boot ExecutionCapabilityReportV2
  macos_capabilities_v2 = do
    rlimit ← ask verdict rlimit_support
    kill_tree ← ask verdict descendant_kill
    watchdog ← ask verdict rss_watchdog
    return (
        Macos.capabilities_v2
          (record { rlimit = rlimit; descendant_kill = kill_tree; watchdog = watchdog }))

  unfoldable pub serve : Request → Boot Answer
  serve (single k) = do b ← ask verdict k; return (verdict_of b)
  serve job_report = do report ← probe_win_job_object_report; return (job_answer report)
  serve container_report = do
    report ← probe_win_app_container_report
    return (container_answer report)
  serve linux_report = do report ← linux_capabilities_v2; return (capability_answer report)
  serve macos_report = do report ← macos_capabilities_v2; return (capability_answer report)
  serve windows_report = do report ← windows_capabilities_v2; return (capability_answer report)

  unfoldable pub serve_all : List Request → Boot (List Answer)
  serve_all [] = return []
  serve_all (r ∷ rs) = do answer ← serve r; answers ← serve_all rs; return (answer ∷ answers)
