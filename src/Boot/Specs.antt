-- ===== src/Boot/Specs.antt =====
-- The reports as functions of a choice of verdicts, and why the programs over the memos agree.
use convira_sandbox.Base.{Bool, List, [], ◌∷◌, map}
use convira_sandbox.Boot.Memos.{
  BootProbe, job_kill_tree, job_memory, job_pids, job_cpu_time, app_container_filesystem,
  app_container_network, app_container_spawn_caging, disk_watchdog, rss_watchdog, descendant_kill,
  memory_hard_cap, rlimit_support, Boot, ◌>>=◌, return, ask,
}
use convira_sandbox.Boot.Reports.{
  WinJobObjectProbeReport, WinAppContainerProbeReport, Request, single, job_report,
  container_report, linux_report, macos_report, windows_report, Answer, verdict_of, job_answer,
  container_answer, capability_answer, job_report_of, windows_report_of,
  probe_win_job_object_report, probe_win_app_container_report, windows_capabilities_v2,
  linux_capabilities_v2, macos_capabilities_v2, serve, serve_all,
}
use convira_sandbox.Boot.Stable.{IsStable, ask-IsStable, bind-IsStable, return-IsStable}
use convira_sandbox.Types.{ExecutionCapabilityReportV2}
use convira_sandbox.Linux.Capabilities as Linux
use convira_sandbox.Macos.Spawn as Macos

-- The specification: the reports as functions of a choice of verdicts, with no memo.
module _ (decided : BootProbe → Bool) where
  abbrev pub job_spec : WinJobObjectProbeReport
  job_spec =
      job_report_of (decided job_kill_tree) (decided job_memory) (decided job_pids)
        (decided job_cpu_time)

  abbrev pub container_spec : WinAppContainerProbeReport
  container_spec = record {
    filesystem_isolation = decided app_container_filesystem;
    network_isolation = decided app_container_network;
    spawn_caging = decided app_container_spawn_caging;
  }

  abbrev pub windows_spec : ExecutionCapabilityReportV2
  windows_spec =
      windows_report_of job_spec (decided disk_watchdog) (decided app_container_filesystem)
        (decided app_container_network)

  abbrev pub linux_spec : ExecutionCapabilityReportV2
  linux_spec = Linux.capabilities_v2 (record {
    rlimit = decided rlimit_support;
    descendant_kill = decided descendant_kill;
    memory_hard_cap = decided memory_hard_cap;
  })

  abbrev pub macos_spec : ExecutionCapabilityReportV2
  macos_spec = Macos.capabilities_v2 (record {
    rlimit = decided rlimit_support;
    descendant_kill = decided descendant_kill;
    watchdog = decided rss_watchdog;
  })

  abbrev pub spec : Request → Answer
  spec (single k) = verdict_of (decided k)
  spec job_report = job_answer job_spec
  spec container_report = container_answer container_spec
  spec linux_report = capability_answer linux_spec
  spec macos_report = capability_answer macos_spec
  spec windows_report = capability_answer windows_spec

module _ (verdict : BootProbe → List BootProbe → Bool) where
  after :
      {B : Type 0} (k : BootProbe) (next : Bool → Boot B)
      (next_spec : (BootProbe → Bool) → Bool → B)
      → ((a : Bool) → IsStable verdict (next a) (λ decided. next_spec decided a))
      → IsStable verdict (ask verdict k >>= next) (λ decided. next_spec decided (decided k))
  after k next next_spec stable =
      bind-IsStable verdict (ask verdict k) next (λ decided. decided k) next_spec
        (ask-IsStable verdict k) stable

  probe_win_job_object_report-IsStable :
      IsStable verdict (probe_win_job_object_report verdict) job_spec
  unfolding probe_win_job_object_report
  probe_win_job_object_report-IsStable =
      after job_kill_tree _ (λ d a. job_report_of a (d job_memory) (d job_pids) (d job_cpu_time))
        (λ a.
          after job_memory _ (λ d b. job_report_of a b (d job_pids) (d job_cpu_time))
            (λ b.
              after job_pids _ (λ d c. job_report_of a b c (d job_cpu_time))
                (λ c.
                  after job_cpu_time _ (λ d e. job_report_of a b c e)
                    (λ e. return-IsStable verdict (job_report_of a b c e)))))

  probe_win_app_container_report-IsStable :
      IsStable verdict (probe_win_app_container_report verdict) container_spec
  unfolding probe_win_app_container_report
  probe_win_app_container_report-IsStable =
      after app_container_filesystem _
        (λ d a. record {
          filesystem_isolation = a;
          network_isolation = d app_container_network;
          spawn_caging = d app_container_spawn_caging;
        })
        (λ a.
          after app_container_network _
            (λ d b. record {
              filesystem_isolation = a;
              network_isolation = b;
              spawn_caging = d app_container_spawn_caging;
            })
            (λ b.
              after app_container_spawn_caging _
                (λ d c. record {
                  filesystem_isolation = a;
                  network_isolation = b;
                  spawn_caging = c;
                })
                (λ c. return-IsStable verdict _)))

  windows_capabilities_v2-IsStable : IsStable verdict (windows_capabilities_v2 verdict) windows_spec
  unfolding windows_capabilities_v2
  windows_capabilities_v2-IsStable =
      bind-IsStable verdict (probe_win_job_object_report verdict) _ job_spec
        (λ d r.
          windows_report_of r (d disk_watchdog) (d app_container_filesystem)
            (d app_container_network))
        probe_win_job_object_report-IsStable
        (λ r.
          after disk_watchdog _
            (λ d a. windows_report_of r a (d app_container_filesystem) (d app_container_network))
            (λ a.
              after app_container_filesystem _
                (λ d b. windows_report_of r a b (d app_container_network))
                (λ b.
                  after app_container_network _ (λ d c. windows_report_of r a b c)
                    (λ c. return-IsStable verdict _))))

  linux_capabilities_v2-IsStable : IsStable verdict (linux_capabilities_v2 verdict) linux_spec
  unfolding linux_capabilities_v2
  linux_capabilities_v2-IsStable =
      after rlimit_support _
        (λ d a. Linux.capabilities_v2 (record {
          rlimit = a;
          descendant_kill = d descendant_kill;
          memory_hard_cap = d memory_hard_cap;
        }))
        (λ a.
          after descendant_kill _
            (λ d b.
              Linux.capabilities_v2
                (record { rlimit = a; descendant_kill = b; memory_hard_cap = d memory_hard_cap }))
            (λ b.
              after memory_hard_cap _
                (λ d c.
                  Linux.capabilities_v2
                    (record { rlimit = a; descendant_kill = b; memory_hard_cap = c }))
                (λ c. return-IsStable verdict _)))

  macos_capabilities_v2-IsStable : IsStable verdict (macos_capabilities_v2 verdict) macos_spec
  unfolding macos_capabilities_v2
  macos_capabilities_v2-IsStable =
      after rlimit_support _
        (λ d a.
          Macos.capabilities_v2
            (record { rlimit = a; descendant_kill = d descendant_kill; watchdog = d rss_watchdog }))
        (λ a.
          after descendant_kill _
            (λ d b.
              Macos.capabilities_v2
                (record { rlimit = a; descendant_kill = b; watchdog = d rss_watchdog }))
            (λ b.
              after rss_watchdog _
                (λ d c.
                  Macos.capabilities_v2 (record { rlimit = a; descendant_kill = b; watchdog = c }))
                (λ c. return-IsStable verdict _)))

  -- A report that is wrapped in an answer.
  wrapped-IsStable :
      {A : Type 0} (act : Boot A) (act_spec : (BootProbe → Bool) → A) (wrap : A → Answer)
      → IsStable verdict act act_spec
      → IsStable verdict (act >>= λ a. return (wrap a)) (λ d. wrap (act_spec d))
  wrapped-IsStable act act_spec wrap stable =
      bind-IsStable verdict act _ act_spec (λ d a. wrap a) stable
        (λ a. return-IsStable verdict (wrap a))

  serve-IsStable : (r : Request) → IsStable verdict (serve verdict r) (λ d. spec d r)
  unfolding serve
  serve-IsStable (single k) =
      wrapped-IsStable (ask verdict k) (λ d. d k) verdict_of (ask-IsStable verdict k)
  serve-IsStable job_report =
      wrapped-IsStable (probe_win_job_object_report verdict) job_spec job_answer
        probe_win_job_object_report-IsStable
  serve-IsStable container_report =
      wrapped-IsStable (probe_win_app_container_report verdict) container_spec container_answer
        probe_win_app_container_report-IsStable
  serve-IsStable linux_report =
      wrapped-IsStable (linux_capabilities_v2 verdict) linux_spec capability_answer
        linux_capabilities_v2-IsStable
  serve-IsStable macos_report =
      wrapped-IsStable (macos_capabilities_v2 verdict) macos_spec capability_answer
        macos_capabilities_v2-IsStable
  serve-IsStable windows_report =
      wrapped-IsStable (windows_capabilities_v2 verdict) windows_spec capability_answer
        windows_capabilities_v2-IsStable

  pub serve_all-IsStable :
      (rs : List Request) → IsStable verdict (serve_all verdict rs) (λ d. map (spec d) rs)
  unfolding serve_all
  serve_all-IsStable [] = return-IsStable verdict []
  serve_all-IsStable (r ∷ rs) =
      bind-IsStable verdict (serve verdict r) _ (λ d. spec d r)
        (λ d answer. answer ∷ map (spec d) rs) (serve-IsStable r)
        (λ answer.
          bind-IsStable verdict (serve_all verdict rs) _ (λ d. map (spec d) rs)
            (λ d answers. answer ∷ answers) (serve_all-IsStable rs)
            (λ answers. return-IsStable verdict (answer ∷ answers)))
