-- ===== src/Boot/Evidence.antt =====
-- What stands behind the capability reports, where the memos hold the verdicts of the modelled probes.
use convira_sandbox.Base.{ℕ, Bool, true, false, Option, some, List, ◌≡◌, ◌⊎◌}
use convira_sandbox.Base.Text.{Text, codes, ◌===◌}
use convira_sandbox.Base.Result.{Result, ok, throw}
use convira_sandbox.Rlimit.Values.{ProcLimitFlag}
use convira_sandbox.Rlimit.Probing.{Exec, RlimitProbeResult, run_rlimit_probe}
use convira_sandbox.Rlimit.ProbingLaws.{IsLimited, IsReadBack}
use convira_sandbox.ProbePayload.{ProbePayloadHost, Handshaking, run_handshake}
use convira_sandbox.ProbePayload.Laws as Payload
use convira_sandbox.JobObject.KillTree.{JobKillTreeProbeStage, Encounter, run_job_kill_tree_probe}
use convira_sandbox.JobObject.KillTreeLaws.{IsReaped}
use convira_sandbox.JobObject.TwoLeg.{Legs}
use convira_sandbox.JobObject.TwoLegLaws.{
  memory_probe, pids_probe, cpu_probe, run_limit_probe, IsProven,
}
use convira_sandbox.AppContainer.Evidence.{
  filesystem_probe, network_probe, caging_probe, Probings, run_container_probe, IsEvident,
}
use convira_sandbox.Probes.Group.{Group, is_unix, run_descendant_kill_probe}
use convira_sandbox.Probes.Laws.{IsLed, IsDescendantKilled}
use convira_sandbox.Probes.MemoryCap.{SpawnReturns, run_memory_hard_cap_probe}
use convira_sandbox.Probes.MemoryCapLaws.{IsCapped}
use convira_sandbox.Watchdog.Probing.{Writing, run_rss_watchdog_probe, run_disk_watchdog_probe}
use convira_sandbox.Watchdog.ProbingLaws.{IsRssProven}
use convira_sandbox.Watchdog.WriterLaws.{IsDiskProven}
use convira_sandbox.Boot.Memos.{
  BootProbe, handshake, job_kill_tree, job_memory, job_pids, job_cpu_time, app_container_filesystem,
  app_container_network, app_container_spawn_caging, disk_watchdog, rss_watchdog, descendant_kill,
  memory_hard_cap, rlimit_support,
}

-- What the probes meet when they run: every field but the platform may change from one run to the
-- next. The handshake that the Windows probes ask for is a part of what they meet.
pub record Observed : Type 0 where
  pub platform : Text
  pub host : Option ProbePayloadHost
  pub stage : JobKillTreeProbeStage
  pub handshaking : List BootProbe → Handshaking
  pub encounter : List BootProbe → Encounter
  pub legs : List BootProbe → Legs
  pub dwell : List BootProbe → List Bool
  pub probings : List BootProbe → Probings
  pub writing : List BootProbe → Writing
  pub group : List BootProbe → Group
  pub rlimit_probe : List BootProbe → RlimitProbeResult
  pub spawn_sync : List BootProbe → Text → List Text → SpawnReturns
  pub exec_file : List BootProbe → Exec
  pub shell_path : Text
  pub is_linux : Bool

abbrev pub returned_true : Result Bool → Bool
returned_true (ok b) = b
returned_true (throw message) = false

-- The run of each probe.
abbrev pub observed : Observed → BootProbe → List BootProbe → Bool
observed o handshake l = (run_handshake o.host (o.handshaking l)).0
observed o job_kill_tree l = (run_job_kill_tree_probe o.stage (o.encounter l)).verdict
observed o job_memory l = (run_limit_probe memory_probe (o.legs l) (o.dwell l)).0
observed o job_pids l = (run_limit_probe pids_probe (o.legs l) (o.dwell l)).0
observed o job_cpu_time l = (run_limit_probe cpu_probe (o.legs l) (o.dwell l)).0
observed o app_container_filesystem l = (run_container_probe filesystem_probe (o.probings l)).0
observed o app_container_network l = (run_container_probe network_probe (o.probings l)).0
observed o app_container_spawn_caging l = (run_container_probe caging_probe (o.probings l)).0
observed o disk_watchdog l = (run_disk_watchdog_probe o.platform (o.writing l)).0
observed o rss_watchdog l = (run_rss_watchdog_probe o.platform (o.group l)).0
observed o descendant_kill l = (run_descendant_kill_probe o.platform (o.group l)).0
observed o memory_hard_cap l =
    returned_true (run_memory_hard_cap_probe (o.rlimit_probe l) (o.spawn_sync l) o.platform)
observed o rlimit_support l = (run_rlimit_probe (o.exec_file l) o.shell_path o.is_linux).ok

-- What a passed run of each probe has seen.
abbrev pub IsObserved : Observed → BootProbe → List BootProbe → Type 0
IsObserved o handshake l =
    (host : ProbePayloadHost) × (o.host ≡ some host) × Payload.IsProven host (o.handshaking l)
IsObserved o job_kill_tree l =
    IsReaped (o.encounter l) (run_job_kill_tree_probe o.stage (o.encounter l)).calls
IsObserved o job_memory l = IsProven memory_probe (o.legs l) (o.dwell l)
IsObserved o job_pids l = IsProven pids_probe (o.legs l) (o.dwell l)
IsObserved o job_cpu_time l = IsProven cpu_probe (o.legs l) (o.dwell l)
IsObserved o app_container_filesystem l = IsEvident filesystem_probe (o.probings l)
IsObserved o app_container_network l = IsEvident network_probe (o.probings l)
IsObserved o app_container_spawn_caging l = IsEvident caging_probe (o.probings l)
IsObserved o disk_watchdog l = IsDiskProven o.platform (o.writing l)
IsObserved o rss_watchdog l = IsRssProven o.platform (o.group l)
IsObserved o descendant_kill l =
    (is_unix o.platform ≡ true)
    × ((dir : Text) × (leader : ℕ) × (pid : ℕ) × IsLed (o.group l) dir leader
        × IsDescendantKilled (o.group l) dir leader pid)
IsObserved o memory_hard_cap l =
    ((o.platform === codes "linux") ≡ true) × IsCapped (o.rlimit_probe l) (o.spawn_sync l)
IsObserved o rlimit_support l =
    (flag : ProcLimitFlag) × IsLimited (o.exec_file l) o.shell_path flag
    × IsReadBack (o.exec_file l) o.shell_path o.is_linux flag

-- A control that is reported was observed in some run of its probe.
abbrev pub IsBacked : Observed → BootProbe → Bool → Type 0
IsBacked o k b = (b ≡ false) ⊎ ((history : List BootProbe) × IsObserved o k history)
