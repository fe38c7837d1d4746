-- ===== src/Boot/Examples.antt =====
-- The reports of a process whose probes pass only as the first one, and of one on a Linux host.
use convira_sandbox.Base.{
  ◌≤◌, Bool, true, false, none, some, List, [], ◌∷◌, ◌++◌, map, ◌≡◌, refl, if◌then◌else◌, ltb,
}
use convira_sandbox.Base.Text.{codes}
use convira_sandbox.ProbeCache.{probe}
use convira_sandbox.JobObject.KillTree.{not_run}
use convira_sandbox.Probes.Group.{delivered, refused, Group}
use convira_sandbox.JobObject.Spawning.{Spawning}
use convira_sandbox.AppContainer.Probing.{Setting}
use convira_sandbox.AppContainer.Prepare.{Files, FsOutcome}
use convira_sandbox.Boot.Memos.{BootProbe, job_memory, job_pids, fresh, ◌>>=◌, ask}
use convira_sandbox.Boot.Reports.{
  Request, single, job_report, windows_report, verdict_of, job_answer, job_report_of,
  probe_win_job_object_report, serve, serve_all,
}
use convira_sandbox.Boot.Settled.{runs}
use convira_sandbox.Boot.Specs.{spec}
use convira_sandbox.Boot.Refines.{IsSeen, serve_all-refines}
use convira_sandbox.Boot.Evidence.{Observed}

abbrev only_first : BootProbe → List BootProbe → Bool
only_first k [] = true
only_first k (j ∷ log) = false

-- The process-count probe is the first to run, and its verdict stays.
serve_all_test :
    (serve_all only_first (single job_pids ∷ job_report ∷ single job_memory ∷ []) fresh).0
    ≡ verdict_of true ∷ job_answer (job_report_of false false true false) ∷ verdict_of false ∷ []
unfolding serve_all serve probe_win_job_object_report ask probe ◌>>=◌
serve_all_test = refl

abbrev requests : List Request
requests = single job_pids ∷ windows_report ∷ job_report ∷ []

serve_all-refines_example :
    let (answers, s) = serve_all only_first requests fresh in
    (decided : BootProbe → Bool) × (answers ≡ map (spec decided) requests)
    × ((k : BootProbe) → (runs k s.log ≤ 1) × IsSeen only_first k (decided k))
serve_all-refines_example = serve_all-refines only_first requests

-- A host where the group of a probe is reaped in the second check, and no other probe passes.
abbrev group : Group
group = record {
  scratch = some (codes "/tmp/sbx");
  join = λ a b. a ++ codes "/" ++ b;
  starts = λ command args. some 41;
  content = λ file round. some (codes "42\n");
  ps_output = λ round. none;
  signal = λ pid round. if ltb round 2 then delivered else refused (codes "ESRCH");
  group_kill = λ leader. delivered;
}

abbrev nothing_spawns : Spawning
nothing_spawns = record {
  host = false;
  creates = none;
  spawns = false;
  child_pid = none;
  assigns = false;
  closes = false;
}

abbrev no_files : Files
no_files = record {
  outcome = λ call. FsOutcome.done;
  exists = λ path. false;
  ledger_dir = codes "/tmp";
  random = codes "00ff";
  join = λ a b. a ++ b;
  dirname = λ path. path;
}

abbrev setting : Setting
setting = record {
  is_win32 = false;
  bindings = false;
  launcher = none;
  handshake = false;
  join = λ a b. a ++ b;
  launch = record { files = no_files; host = none; pid_of = λ command args cwd. none };
}

abbrev host : Observed
host = record {
  platform = codes "linux";
  host = none;
  stage = not_run;
  handshaking = λ l. record {
    scratch = none;
    nonce = codes "n";
    join = λ a b. a ++ b;
    starts = λ command args. none;
    content = λ file round. none;
  };
  encounter = λ l. record {
    is_win32 = false;
    addon = false;
    handshake = false;
    scratch = false;
    spawning = nothing_spawns;
    gate = false;
    pid_files = [];
    is_alive = λ pid. false;
    terminate = λ job code. none;
  };
  legs = λ l. record {
    is_win32 = false;
    addon = false;
    handshake = false;
    leg = λ request. record { scratch = false; spawning = nothing_spawns; polls = []; last = none };
  };
  dwell = λ l. [];
  probings = λ l. record {
    filesystem = record {
      setting = setting;
      outside_dir = none;
      granted_dir = none;
      writes_secret = false;
      control_dir = none;
      plain_result = λ command args. none;
      polls = [];
      last = none;
    };
    network = record {
      setting = setting;
      scratch_dir = none;
      granted_dir = none;
      listener_pid = none;
      port_files = [];
      plain_fails = true;
      plain_result = λ command args. none;
      polls = [];
      last = none;
    };
    caging = record {
      setting = setting;
      scratch_dir = none;
      granted_dir = none;
      reports = [];
      report = none;
      pid_files = [];
      is_alive = λ pid. false;
      gone_after = λ effects child grandchild. [];
    };
  };
  writing = λ l. record {
    scratch = none;
    host = none;
    join = λ a b. a ++ b;
    starts = λ command args. none;
    marker = λ round. none;
    directories = [];
    killed = λ pid. delivered;
    signals = [];
  };
  group = λ l. group;
  rlimit_probe = λ l. record { ok = false; proc_flag = none };
  spawn_sync = λ l command args. record { error = true; status = none; signal = none };
  exec_file = λ l command args. none;
  shell_path = codes "/bin/sh";
  is_linux = true;
}
