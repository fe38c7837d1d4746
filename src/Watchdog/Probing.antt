-- ===== src/Watchdog/Probing.antt =====
-- The boot probes of the two watchdogs: `_runRssWatchdogProbe` of rss-watchdog.ts and
-- `_runDiskWatchdogProbe` of disk-watchdog.ts.
use convira_sandbox.Base.{
  ℕ, zero, suc, ◌*◌, Bool, true, false, not, ◌&&◌, ◌||◌, Option, none, some, List, [], ◌∷◌, ◌++◌,
  ◌==◌, ltb, map, if◌then◌else◌,
}
use convira_sandbox.Base.Text.{Text, codes, ◌===◌}
use convira_sandbox.Probing.{poll_until, read_file_trimmed}
use convira_sandbox.ProbePayload.{ProbePayloadHost, fill, probe_payload_argv}
use convira_sandbox.Probes.Group.{
  Signal, refused, Group, GroupCall, pid_file_in, pid_in, pid_rounds, with_leader, kill_and_watch,
  is_unix, is_delivered,
}
use convira_sandbox.Watchdog.Rss.{sample_process_group_rss_kb}
use convira_sandbox.Watchdog.Disk.{Directory, sample_directory_bytes}

-- The error code `ESRCH` answers the signal 0.
unfoldable pub is_reaped : Signal → Bool
is_reaped (refused code) = code === codes "ESRCH"
is_reaped _ = false

-- What the loop has seen: the pid of the descendant, and whether the group had a positive size.
pub record Sighting : Type 0 where
  pub descendant : Option ℕ
  pub measured : Bool

abbrev pub is_positive : Option ℕ → Bool
is_positive none = false
is_positive (some kb) = ltb 0 kb

abbrev pub is_known : Option ℕ → Bool
is_known none = false
is_known (some pid) = true

abbrev pub or_seen : Option ℕ → Option ℕ → Option ℕ
or_seen none later = later
or_seen (some pid) later = some pid

-- `content` and `size` are the pid file and the sample of the group in each round.
unfoldable pub look : (ℕ → Option Text) → (ℕ → Option ℕ) → ℕ → Sighting → Sighting
look content size round s = record {
  descendant = or_seen s.descendant (pid_in (content round));
  measured = s.measured || is_positive (size round);
}

unfoldable pub await_sighting : (ℕ → Option Text) → (ℕ → Option ℕ) → ℕ → ℕ → Sighting → Sighting
await_sighting content size zero round s = s
await_sighting content size (suc left) round s =
    let later = await_sighting content size left (suc round) (look content size round s) in
    if is_known s.descendant && s.measured then s else later

-- From the end of that loop on.
unfoldable pub kill_sighted : Group → ℕ → Sighting → Bool × List GroupCall
kill_sighted g leader s = elim s.descendant [
  | none ↦ (false, [])
  | some pid ↦
      if pid == 0 || not s.measured
      then (false, [])
      else kill_and_watch g leader (λ round. is_reaped (g.signal pid (suc round)))
]

abbrev pub unseen : Sighting
unseen = record { descendant = none; measured = false }

-- The size of the leader's group in a round.
abbrev pub group_size : Group → ℕ → ℕ → Option ℕ
group_size g leader round = sample_process_group_rss_kb (g.ps_output round) leader

unfoldable pub rss_body : Group → Text → ℕ → Bool × List GroupCall
rss_body g dir leader =
    kill_sighted g leader
      (await_sighting (g.content (pid_file_in g dir)) (group_size g leader) pid_rounds 0 unseen)

unfoldable pub run_rss_watchdog_probe : Text → Group → Bool × List GroupCall
run_rss_watchdog_probe platform g =
    if is_unix platform then with_leader g (rss_body g) else (false, [])

-- What the probe of the disk watchdog meets: the scratch directory (nothing if it cannot be made),
-- the payload host, the pid of a writer started with these arguments, the marker in each round, the
-- directory each time that it is sampled before the deadline, the answers to SIGKILL, and to the
-- signal 0 until the second deadline.
pub record Writing : Type 0 where
  pub scratch : Option Text
  pub host : Option ProbePayloadHost
  pub join : Text → Text → Text
  pub starts : Text → List Text → Option ℕ
  pub marker : ℕ → Option Text
  pub directories : List Directory
  pub killed : ℕ → Signal
  pub signals : List Signal

pub data WriterCall : Type 0 where
  kill_writer : (pid : ℕ) → WriterCall
  remove_scratch : (dir : Text) → WriterCall

abbrev pub is_spinning : Option Text → Bool
is_spinning none = false
is_spinning (some raw) = raw === codes "spinning"

-- The loop until the writer announces itself.
unfoldable pub await_marker : (ℕ → Option Text) → ℕ → ℕ → Bool
await_marker marker zero round = false
await_marker marker (suc left) round =
    let later = await_marker marker left (suc round) in
    if is_spinning (read_file_trimmed (marker round)) then true else later

-- 10000 ms in steps of 50 ms.
abbrev pub marker_rounds : ℕ
marker_rounds = 200

abbrev pub probe_limit_bytes : ℕ
probe_limit_bytes = 4 * 1024 * 1024

unfoldable pub is_over : Directory → Bool
is_over d = elim (sample_directory_bytes d) [
  | none ↦ false
  | some bytes ↦ ltb probe_limit_bytes bytes
]

abbrev pub is_refused : Signal → Bool
is_refused signal = not (is_delivered signal)

-- From the start of the writer on.
unfoldable pub writer_run : Writing → ℕ → Bool × List WriterCall
writer_run w pid =
    if not (await_marker w.marker marker_rounds 0)
    then (false, [])
    else if not (poll_until (map is_over w.directories))
    then (false, [])
    else if not (is_delivered (w.killed pid))
    then (false, kill_writer pid ∷ [])
    else (poll_until (map is_refused w.signals), kill_writer pid ∷ [])

abbrev pub fill_args : ProbePayloadHost → Writing → Text → List Text
fill_args host w dir =
    probe_payload_argv host fill
      (codes "--dir" ∷ dir ∷ codes "--marker" ∷ w.join dir (codes "marker") ∷ [])

unfoldable pub writer_in : Writing → ProbePayloadHost → Text → Bool × List WriterCall
writer_in w host dir = elim (w.starts host.command (fill_args host w dir)) [
  | none ↦ (false, remove_scratch dir ∷ [])
  | some pid ↦
      let (verdict, calls) = writer_run w pid in
      (verdict, calls ++ kill_writer pid ∷ remove_scratch dir ∷ [])
]

unfoldable pub run_disk_watchdog_probe : Text → Writing → Bool × List WriterCall
run_disk_watchdog_probe platform w =
    if not (platform === codes "win32") then (false, []) else elim w.scratch [
      | none ↦ (false, [])
      | some dir ↦ elim w.host [
        | none ↦ (false, remove_scratch dir ∷ [])
        | some host ↦ writer_in w host dir
      ]
    ]
