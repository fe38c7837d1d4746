-- ===== src/JobObject/Balance.antt =====
-- win-job-object.ts: how often the calls of a probe create a job and close it.
use convira_sandbox.Base.{
  ℕ, zero, suc, ◌+◌, Option, none, some, List, [], ◌∷◌, ◌++◌, ◌≡◌, refl, inl, inr, ◌==◌, arith, ap,
  Bool-cases, Option-cases, if◌then◌else◌,
}
use convira_sandbox.JobObject.Registry.{created, assigned, terminated, closed}
use convira_sandbox.JobObject.Spawning.{
  SpawnedProbeChild, Spawning, ProbeCall, native_call, close_threw, kill, remove_scratch,
  close_failed, assign_child, spawn_into_job, kill_best_effort, release_child,
}

-- How often the calls create a job, and how often they close it; a close that threw and is made once
-- more does not count.
unfoldable pub opened : ℕ → List ProbeCall → ℕ
opened id [] = 0
opened id (native_call (created job) ∷ calls) = (if job == id then 1 else 0) + opened id calls
opened id (native_call (assigned job pid) ∷ calls) = opened id calls
opened id (native_call (terminated job code) ∷ calls) = opened id calls
opened id (native_call (closed job) ∷ calls) = opened id calls
opened id (close_threw job ∷ calls) = opened id calls
opened id (kill pid ∷ calls) = opened id calls
opened id (remove_scratch ∷ calls) = opened id calls

unfoldable pub shut : ℕ → List ProbeCall → ℕ
shut id [] = 0
shut id (native_call (created job) ∷ calls) = shut id calls
shut id (native_call (assigned job pid) ∷ calls) = shut id calls
shut id (native_call (terminated job code) ∷ calls) = shut id calls
shut id (native_call (closed job) ∷ calls) = (if job == id then 1 else 0) + shut id calls
shut id (close_threw job ∷ calls) = shut id calls
shut id (kill pid ∷ calls) = shut id calls
shut id (remove_scratch ∷ calls) = shut id calls

pub opened-append :
    (id : ℕ) (xs ys : List ProbeCall) → opened id (xs ++ ys) ≡ opened id xs + opened id ys
unfolding opened
opened-append id [] ys = omega arith
opened-append id (native_call (created job) ∷ xs) ys = ground (arith, opened-append id xs ys)
opened-append id (native_call (assigned job pid) ∷ xs) ys = opened-append id xs ys
opened-append id (native_call (terminated job code) ∷ xs) ys = opened-append id xs ys
opened-append id (native_call (closed job) ∷ xs) ys = opened-append id xs ys
opened-append id (close_threw job ∷ xs) ys = opened-append id xs ys
opened-append id (kill pid ∷ xs) ys = opened-append id xs ys
opened-append id (remove_scratch ∷ xs) ys = opened-append id xs ys

pub shut-append : (id : ℕ) (xs ys : List ProbeCall) → shut id (xs ++ ys) ≡ shut id xs + shut id ys
unfolding shut
shut-append id [] ys = omega arith
shut-append id (native_call (created job) ∷ xs) ys = shut-append id xs ys
shut-append id (native_call (assigned job pid) ∷ xs) ys = shut-append id xs ys
shut-append id (native_call (terminated job code) ∷ xs) ys = shut-append id xs ys
shut-append id (native_call (closed job) ∷ xs) ys = ground (arith, shut-append id xs ys)
shut-append id (close_threw job ∷ xs) ys = shut-append id xs ys
shut-append id (kill pid ∷ xs) ys = shut-append id xs ys
shut-append id (remove_scratch ∷ xs) ys = shut-append id xs ys

-- One where a child was spawned into this job.
abbrev pub spawned_in : ℕ → Option SpawnedProbeChild → ℕ
spawned_in id none = 0
spawned_in id (some child) = if child.job_id == id then 1 else 0

-- Calls that close this job once and create none, for what comes after a spawn.
abbrev pub IsRelease : ℕ → SpawnedProbeChild → List ProbeCall → Type 0
IsRelease id child calls = (shut id calls ≡ spawned_in id (some child)) × (opened id calls ≡ 0)

-- Calls that close a job as often as they create it.
abbrev pub IsBalanced : ℕ → List ProbeCall → Type 0
IsBalanced id calls = opened id calls ≡ shut id calls

pub spawn_into_job-opened :
    (id : ℕ) (s : Spawning)
    → opened id (spawn_into_job s).1
      ≡ shut id (spawn_into_job s).1 + spawned_in id (spawn_into_job s).0
unfolding spawn_into_job assign_child close_failed opened shut
spawn_into_job-opened id s = elim (Bool-cases s.host) [
  | inl there ↦ elim (Option-cases s.creates) [
    | inl threw ↦ ground arith
    | inr (job, made) ↦ elim (Bool-cases s.spawns) [
      | inr failed ↦ ground arith
      | inl spawns ↦ elim (Option-cases s.child_pid) [
        | inl no_pid ↦ ground arith
        | inr (pid, ran) ↦ ground arith
      ]
    ]
  ]
  | inr absent ↦ ground arith
]

pub kill_best_effort_lem :
    (id : ℕ) (pid : Option ℕ)
    → (shut id (kill_best_effort pid) ≡ 0) × (opened id (kill_best_effort pid) ≡ 0)
unfolding kill_best_effort shut opened
kill_best_effort_lem id none = (refl, refl)
kill_best_effort_lem id (some zero) = (refl, refl)
kill_best_effort_lem id (some (suc pid)) = (refl, refl)

-- The `finally` block closes the job of the child.
pub release_child-IsRelease :
    (id : ℕ) (child : SpawnedProbeChild) (rest : List ProbeCall)
    → shut id rest ≡ 0
    → opened id rest ≡ 0
    → IsRelease id child (release_child child ++ rest)
unfolding release_child shut opened
release_child-IsRelease id child rest h k = ground (
  arith,
  kill_best_effort_lem id (some child.pid),
  opened-append id (kill_best_effort (some child.pid)) rest,
  shut-append id (kill_best_effort (some child.pid)) rest,
)

-- A spawn that gave a child, followed by a release of it, is balanced; so is one that gave none.
pub spawned-IsBalanced :
    (id : ℕ) (s : Spawning) (child : SpawnedProbeChild) (calls : List ProbeCall)
    → (spawn_into_job s).0 ≡ some child
    → IsRelease id child calls
    → IsBalanced id ((spawn_into_job s).1 ++ calls)
spawned-IsBalanced id s child calls e h =
    let now : spawned_in id (spawn_into_job s).0 ≡ spawned_in id (some child) =
      ap (spawned_in id) e in
    omega (
      arith,
      now,
      h,
      spawn_into_job-opened id s,
      opened-append id (spawn_into_job s).1 calls,
      shut-append id (spawn_into_job s).1 calls,
    )

pub unspawned-IsBalanced :
    (id : ℕ) (s : Spawning) (calls : List ProbeCall)
    → (spawn_into_job s).0 ≡ none
    → (shut id calls ≡ 0) × (opened id calls ≡ 0)
    → IsBalanced id ((spawn_into_job s).1 ++ calls)
unspawned-IsBalanced id s calls e h =
    let now : spawned_in id (spawn_into_job s).0 ≡ 0 = ap (spawned_in id) e in
    omega (
      arith,
      now,
      h,
      spawn_into_job-opened id s,
      opened-append id (spawn_into_job s).1 calls,
      shut-append id (spawn_into_job s).1 calls,
    )
