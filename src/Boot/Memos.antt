-- ===== src/Boot/Memos.antt =====
-- One memo for each boot probe of the process, and a question to one of them.
use convira_sandbox.Base.{ℕ, Bool, none, List, [], ◌∷◌, ◌==◌, if◌then◌else◌}
use convira_sandbox.ProbeCache.{Cache, probe}

-- The probes by the files that memoize them: probe-payload.ts, win-job-object.ts,
-- win-appcontainer.ts, disk-watchdog.ts, rss-watchdog.ts, probes.ts and rlimit.ts (whose memo holds a
-- record that is seen here by its field `ok`).
pub data BootProbe : Type 0 where
  handshake : BootProbe
  job_kill_tree job_memory job_pids job_cpu_time : BootProbe
  app_container_filesystem app_container_network app_container_spawn_caging : BootProbe
  disk_watchdog rss_watchdog : BootProbe
  descendant_kill memory_hard_cap : BootProbe
  rlimit_support : BootProbe

abbrev pub number_of : BootProbe → ℕ
number_of handshake = 0
number_of job_kill_tree = 1
number_of job_memory = 2
number_of job_pids = 3
number_of job_cpu_time = 4
number_of app_container_filesystem = 5
number_of app_container_network = 6
number_of app_container_spawn_caging = 7
number_of disk_watchdog = 8
number_of rss_watchdog = 9
number_of descendant_kill = 10
number_of memory_hard_cap = 11
number_of rlimit_support = 12

abbrev pub same_probe : BootProbe → BootProbe → Bool
same_probe j k = number_of j == number_of k

-- The memos of the process, and the probes that have run, the latest first.
pub record State : Type 0 where
  pub memos : BootProbe → Cache Bool
  pub log : List BootProbe

abbrev pub fresh : State
fresh = record { memos = λ k. record { cache = none; override = none }; log = [] }

-- What may ask probes.
abbrev pub Boot : Type 0 → Type 0
Boot A = State → A × State

module _ {A B : Type 0} where
  infixl 5 ◌>>=◌
  unfoldable pub ◌>>=◌ : Boot A → (A → Boot B) → Boot B
  ◌>>=◌ act next s = let (a, s') = act s in next a s'

abbrev pub return : {A : Type 0} → A → Boot A
return a s = (a, s)

abbrev pub with_memo : BootProbe → Cache Bool → (BootProbe → Cache Bool) → BootProbe → Cache Bool
with_memo k c memos j = if same_probe j k then c else memos j

-- `verdict` is what a run of a probe comes to, after the runs of a log.
module _ (verdict : BootProbe → List BootProbe → Bool) where
  abbrev pub run : BootProbe → List BootProbe → Bool × List BootProbe
  run k log = (verdict k log, k ∷ log)

  unfoldable pub ask : BootProbe → Boot Bool
  ask k s =
      let (b, c, log) = probe (run k) (s.memos k) s.log in
      (b, record { memos = with_memo k c s.memos; log = log })
