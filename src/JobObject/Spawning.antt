-- ===== src/JobObject/Spawning.antt =====
-- win-job-object.ts: `spawnIntoJob`, and the clean-up that every probe of a Job Object ends with.
use convira_sandbox.Base.{ℕ, zero, suc, Bool, Option, none, some, List, [], ◌∷◌, if◌then◌else◌}
use convira_sandbox.JobObject.Registry.{NativeCall, created, assigned, closed}

pub record SpawnedProbeChild : Type 0 where
  pub pid : ℕ
  pub job_id : ℕ

-- What a spawn into a job meets: whether there is a payload host, the id that `createJob` returns
-- (nothing if it throws), whether `spawn` returns, the pid of the child (nothing if there is none),
-- and whether `assignProcess`, and `closeJob` inside the `try` block, return.
pub record Spawning : Type 0 where
  pub host : Bool
  pub creates : Option ℕ
  pub spawns : Bool
  pub child_pid : Option ℕ
  pub assigns : Bool
  pub closes : Bool

-- A native call, a `closeJob` that threw and left the `try` block, a kill by `killBestEffort`, or the
-- removal of the scratch directory.
pub data ProbeCall : Type 0 where
  native_call : NativeCall → ProbeCall
  close_threw : ℕ → ProbeCall
  kill : ℕ → ProbeCall
  remove_scratch : ProbeCall

-- `closeJob` inside the `try` block: where it throws, the outer `catch` closes the job once more.
unfoldable pub close_failed : ℕ → Bool → List ProbeCall
close_failed job closes =
    if closes
    then native_call (closed job) ∷ []
    else close_threw job ∷ native_call (closed job) ∷ []

-- From `assignProcess` on.
unfoldable pub assign_child : ℕ → ℕ → Bool → Bool → Option SpawnedProbeChild × List ProbeCall
assign_child job pid assigns closes =
    if assigns
    then (
      some (record { pid = pid; job_id = job }),
      native_call (created job) ∷ native_call (assigned job pid) ∷ [],
    )
    else (
      none,
      native_call (created job)
          ∷ native_call (assigned job pid)
          ∷ kill pid
          ∷ close_failed job closes,
    )

-- From `spawn` on, which throws into the outer `catch`.
created_job : Spawning → ℕ → Option SpawnedProbeChild × List ProbeCall
created_job s job =
    if s.spawns
    then elim s.child_pid [
      | none ↦ (none, native_call (created job) ∷ close_failed job s.closes)
      | some pid ↦ assign_child job pid s.assigns s.closes
    ]
    else (none, native_call (created job) ∷ native_call (closed job) ∷ [])

unfoldable pub spawn_into_job : Spawning → Option SpawnedProbeChild × List ProbeCall
unfolding created_job
spawn_into_job s =
    if s.host
    then elim s.creates [ none ↦ (none, []) | some job ↦ created_job s job ]
    else (none, [])

-- `killBestEffort`: nothing is killed without a pid above zero.
unfoldable pub kill_best_effort : Option ℕ → List ProbeCall
kill_best_effort none = []
kill_best_effort (some zero) = []
kill_best_effort (some (suc pid)) = kill (suc pid) ∷ []

-- The `finally` block where a child was spawned.
unfoldable pub release_child : SpawnedProbeChild → List ProbeCall
release_child child = native_call (closed child.job_id) ∷ kill_best_effort (some child.pid)
