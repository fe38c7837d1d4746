-- ===== src/JobObject/TwoLeg.antt =====
-- win-job-object.ts: the probes that run one payload twice, with and without a biting limit.
use convira_sandbox.Base.{
  ℕ, Bool, true, false, not, ◌&&◌, ◌||◌, Option, none, some, List, [], ◌∷◌, ◌++◌, map,
  if◌then◌else◌,
}
use convira_sandbox.Base.Text.{Text, codes, ◌===◌}
use convira_sandbox.Base.Decimal.{to_decimal}
use convira_sandbox.Types.{WinJobObjectLimits}
use convira_sandbox.Probing.{poll_until, read_file_trimmed}
use convira_sandbox.ProbePayload.{ProbeVerb, alloc, try_spawn, burn_cpu}
use convira_sandbox.JobObject.Spawning.{
  SpawnedProbeChild, Spawning, ProbeCall, remove_scratch, spawn_into_job, release_child,
}

-- What a leg asks `spawnIntoJob` for; the arguments depend on the path of a file in the scratch
-- directory.
pub record Request : Type 0 where
  pub limits : WinJobObjectLimits
  pub verb : ProbeVerb
  pub verb_args : Text → List Text

-- What one leg meets: whether the scratch directory can be made, the spawn, the file of the leg and
-- whether the child is alive at each poll until the deadline, and the file when it is read again.
pub record Leg : Type 0 where
  pub scratch : Bool
  pub spawning : Spawning
  pub polls : List (Option Text × Bool)
  pub last : Option Text

-- The host of a probe: its answers to a request.
pub record Legs : Type 0 where
  pub is_win32 : Bool
  pub addon : Bool
  pub handshake : Bool
  pub leg : Request → Leg

abbrev pub no_limits : WinJobObjectLimits
no_limits = record {
  memory_limit_mb = none;
  max_processes = none;
  cpu_time_ms = none;
  kill_on_close = true;
}

module _ {A : Type 0} where
  -- A leg ends with its error where no child is spawned, and cleans up in any case.
  spawned_leg : A → (Leg → A) → Leg → Option SpawnedProbeChild → A × List ProbeCall
  spawned_leg error outcome l none = (error, remove_scratch ∷ [])
  spawned_leg error outcome l (some child) = (outcome l, release_child child ++ remove_scratch ∷ [])

  unfoldable pub run_leg : A → (Leg → A) → Leg → A × List ProbeCall
  unfolding spawned_leg
  run_leg error outcome l =
      if l.scratch
      then (let (child, calls) = spawn_into_job l.spawning in
          let (answer, clean) = spawned_leg error outcome l child in (answer, calls ++ clean))
      else (error, [])

-- Whether a file holds this text, when it is read and trimmed.
reads : Text → Option Text → Bool
reads expected none = false
reads expected (some seen) = seen === expected

unfoldable pub holds : Option Text → Text → Bool
unfolding reads
holds content expected = reads expected (read_file_trimmed content)

-- Whether a file can be read.
unfoldable pub is_there : Option Text → Bool
is_there none = false
is_there (some text) = true

pub data Allocation : Type 0 where
  allocation_ok allocation_failed allocation_error : Allocation

-- The child has written its file or is gone.
unfoldable pub has_settled : Option Text × Bool → Bool
has_settled (content, alive) = is_there content || not alive

unfoldable pub allocation_of : Leg → Allocation
allocation_of l =
    if poll_until (map has_settled l.polls)
    then (if holds l.last (codes "ok") then allocation_ok else allocation_failed)
    else allocation_error

unfoldable pub allocation_request : ℕ → ℕ → Request
allocation_request memory_limit_mb alloc_mib = record {
  limits = record no_limits { memory_limit_mb = some memory_limit_mb };
  verb = alloc;
  verb_args =
      λ result_file. codes "--mib" ∷ to_decimal alloc_mib ∷ codes "--out" ∷ result_file ∷ [];
}

unfoldable pub run_job_allocation : Legs → ℕ → ℕ → Allocation × List ProbeCall
run_job_allocation host memory_limit_mb alloc_mib =
    run_leg allocation_error allocation_of (host.leg (allocation_request memory_limit_mb alloc_mib))

abbrev pub is_allocation_ok : Allocation → Bool
is_allocation_ok allocation_ok = true
is_allocation_ok allocation_failed = false
is_allocation_ok allocation_error = false

abbrev pub is_allocation_failed : Allocation → Bool
is_allocation_failed allocation_ok = false
is_allocation_failed allocation_failed = true
is_allocation_failed allocation_error = false

-- The guards that the three probes share.
unfoldable pub can_probe : Legs → Bool
can_probe host = host.is_win32 && (host.addon && host.handshake)

-- The verdict and the calls of both legs; the second runs only if the first came out as it must.
unfoldable pub run_job_memory_probe : Legs → Bool × List ProbeCall
run_job_memory_probe host =
    if not (can_probe host)
    then (false, [])
    else (let (loose, calls) = run_job_allocation host 1024 64 in
        let (tight, more) = run_job_allocation host 64 256 in
        if is_allocation_ok loose
        then (is_allocation_failed tight, calls ++ more)
        else (false, calls))

pub data SpawnAttempt : Type 0 where
  attempt_spawned attempt_denied attempt_error : SpawnAttempt

unfoldable pub attempt_of : Leg → SpawnAttempt
attempt_of l =
    if poll_until (map (λ poll. is_there poll.0) l.polls)
    then (if holds l.last (codes "spawned")
        then attempt_spawned
        else if holds l.last (codes "denied")
        then attempt_denied
        else attempt_error)
    else attempt_error

unfoldable pub attempt_request : ℕ → Request
attempt_request max_processes = record {
  limits = record no_limits { max_processes = some max_processes };
  verb = try_spawn;
  verb_args = λ result_file. codes "--out" ∷ result_file ∷ [];
}

unfoldable pub run_job_spawn_attempt : Legs → ℕ → SpawnAttempt × List ProbeCall
run_job_spawn_attempt host max_processes =
    run_leg attempt_error attempt_of (host.leg (attempt_request max_processes))

abbrev pub is_spawned : SpawnAttempt → Bool
is_spawned attempt_spawned = true
is_spawned attempt_denied = false
is_spawned attempt_error = false

abbrev pub is_denied : SpawnAttempt → Bool
is_denied attempt_spawned = false
is_denied attempt_denied = true
is_denied attempt_error = false

unfoldable pub run_job_pids_probe : Legs → Bool × List ProbeCall
run_job_pids_probe host =
    if not (can_probe host)
    then (false, [])
    else (let (generous, calls) = run_job_spawn_attempt host 4 in
        let (capped, more) = run_job_spawn_attempt host 1 in
        if is_spawned generous then (is_denied capped, calls ++ more) else (false, calls))

pub record CpuLeg : Type 0 where
  pub started : Bool
  pub died_fast : Bool

abbrev pub not_started : CpuLeg
not_started = record { started = false; died_fast = false }

-- With a cap the polls are those of the child's life only; without one they are those of the marker
-- up to its deadline, and those of the child's life in the dwell that follows are in `dwell`.
unfoldable pub capped_leg : Leg → CpuLeg
capped_leg l = record { started = true; died_fast = poll_until (map (λ poll. not poll.1) l.polls) }

unfoldable pub control_leg : List Bool → Leg → CpuLeg
control_leg dwell l =
    if poll_until (map (λ poll. holds poll.0 (codes "spinning")) l.polls)
    then record { started = true; died_fast = poll_until (map not dwell) }
    else not_started

unfoldable pub cpu_request : Option ℕ → Request
cpu_request cpu_time_ms = record {
  limits = record no_limits { cpu_time_ms = cpu_time_ms };
  verb = burn_cpu;
  verb_args = λ marker. codes "--marker" ∷ marker ∷ [];
}

-- `dwell` says whether the uncapped child is alive at each poll of the dwell.
unfoldable pub run_job_cpu_leg : Legs → List Bool → Option ℕ → CpuLeg × List ProbeCall
run_job_cpu_leg host dwell none =
    run_leg not_started (control_leg dwell) (host.leg (cpu_request none))
run_job_cpu_leg host dwell (some cpu_time_ms) =
    run_leg not_started capped_leg (host.leg (cpu_request (some cpu_time_ms)))

unfoldable pub run_job_cpu_time_probe : Legs → List Bool → Bool × List ProbeCall
run_job_cpu_time_probe host dwell =
    if not (can_probe host)
    then (false, [])
    else (let (control, calls) = run_job_cpu_leg host dwell none in
        let (capped, more) = run_job_cpu_leg host dwell (some 200) in
        if not control.started || control.died_fast
        then (false, calls)
        else (capped.died_fast, calls ++ more))
