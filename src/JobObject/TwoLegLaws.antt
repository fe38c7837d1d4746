-- ===== src/JobObject/TwoLegLaws.antt =====
-- win-job-object.ts: what the two-leg probes prove, and that they leave no job open.
use convira_sandbox.Base.{
  ℕ, Bool, true, false, not, Option, none, some, List, [], ◌∷◌, ◌++◌, ◌≡◌, refl, inl, inr, arith,
  map, Bool-cases, Option-cases,
}
use convira_sandbox.Base.Text.{Text, codes}
use convira_sandbox.Probing.{poll_until}
use convira_sandbox.JobObject.Spawning.{
  SpawnedProbeChild, ProbeCall, remove_scratch, spawn_into_job, release_child,
}
use convira_sandbox.JobObject.Balance.{
  opened, shut, opened-append, shut-append, IsBalanced, release_child-IsRelease, spawned-IsBalanced,
  unspawned-IsBalanced,
}
use convira_sandbox.JobObject.TwoLeg.{
  Leg, Legs, run_leg, holds, has_settled, allocation_error, allocation_of, allocation_request,
  run_job_allocation, run_job_memory_probe, attempt_error, attempt_of, attempt_request,
  run_job_spawn_attempt, is_spawned, run_job_pids_probe, not_started, capped_leg, control_leg,
  cpu_request, run_job_cpu_leg, run_job_cpu_time_probe,
}

-- A child ran in a job that was created for the leg.
abbrev pub HasChild : Leg → Type 0
HasChild l =
    (l.scratch ≡ true) × (child : SpawnedProbeChild) × ((spawn_into_job l.spawning).0 ≡ some child)

module _ {A : Type 0} (error : A) (outcome : Leg → A) where
  run_leg-IsBalanced : (id : ℕ) (l : Leg) → IsBalanced id (run_leg error outcome l).1
  unfolding run_leg opened shut
  run_leg-IsBalanced id l = elim (Bool-cases l.scratch) [
    | inl made ↦ elim (Option-cases (spawn_into_job l.spawning).0) [
      | inl nothing ↦
          ground
            (arith, unspawned-IsBalanced id l.spawning (remove_scratch ∷ []) nothing (refl, refl))
      | inr (child, spawned) ↦ ground (
        arith,
        spawned-IsBalanced id l.spawning child (release_child child ++ remove_scratch ∷ []) spawned
            (release_child-IsRelease id child (remove_scratch ∷ []) refl refl),
      )
    ]
    | inr failed ↦ ground arith
  ]

-- The three probes of a limit.
pub data LimitProbe : Type 0 where
  memory_probe pids_probe cpu_probe : LimitProbe

unfoldable pub run_limit_probe : LimitProbe → Legs → List Bool → Bool × List ProbeCall
run_limit_probe memory_probe host dwell = run_job_memory_probe host
run_limit_probe pids_probe host dwell = run_job_pids_probe host
run_limit_probe cpu_probe host dwell = run_job_cpu_time_probe host dwell

-- The file shows up, or the child of the leg settles, while it is polled.
abbrev pub IsPolled : (Option Text × Bool → Bool) → Leg → Type 0
IsPolled condition l = poll_until (map condition l.polls) ≡ true

-- The evidence of both legs: under the generous limit the child did its work, under the biting one it
-- could not.
abbrev pub IsProven : LimitProbe → Legs → List Bool → Type 0
IsProven memory_probe host dwell =
    let loose = host.leg (allocation_request 1024 64) in
    let tight = host.leg (allocation_request 64 256) in
    (HasChild loose × (IsPolled has_settled loose × (holds loose.last (codes "ok") ≡ true)))
    × (HasChild tight × (IsPolled has_settled tight × (holds tight.last (codes "ok") ≡ false)))
IsProven pids_probe host dwell =
    let generous = host.leg (attempt_request 4) in
    let capped = host.leg (attempt_request 1) in
    (HasChild generous × (holds generous.last (codes "spawned") ≡ true))
    × (HasChild capped × (holds capped.last (codes "denied") ≡ true))
IsProven cpu_probe host dwell =
    let control = host.leg (cpu_request none) in
    let capped = host.leg (cpu_request (some 200)) in
    (HasChild control
      × (IsPolled (λ poll. holds poll.0 (codes "spinning")) control
          × (poll_until (map not dwell) ≡ false)))
    × (HasChild capped × IsPolled (λ poll. not poll.1) capped)

spawned : (l : Leg) → is_spawned (attempt_of l) ≡ true → holds l.last (codes "spawned") ≡ true
unfolding attempt_of
spawned l h = ground arith

both-IsBalanced :
    (id : ℕ) (xs ys : List ProbeCall)
    → IsBalanced id xs
    → IsBalanced id ys
    → IsBalanced id (xs ++ ys)
both-IsBalanced id xs ys h k = omega (arith, h, k, opened-append id xs ys, shut-append id xs ys)

-- Whatever happens in its legs, a memory, process-count or CPU probe calls closeJob exactly once for
-- each job that it created, not counting a call that threw inside spawnIntoJob and was made again.
pub run_limit_probe-IsBalanced :
    (id : ℕ) (which : LimitProbe) (host : Legs) (dwell : List Bool)
    → IsBalanced id (run_limit_probe which host dwell).1
unfolding run_limit_probe run_job_memory_probe run_job_allocation run_job_pids_probe
    run_job_spawn_attempt run_job_cpu_time_probe run_job_cpu_leg opened shut
run_limit_probe-IsBalanced id memory_probe host dwell =
    let loose = host.leg (allocation_request 1024 64) in
    let tight = host.leg (allocation_request 64 256) in
    let loose_calls = (run_leg allocation_error allocation_of loose).1 in
    let tight_calls = (run_leg allocation_error allocation_of tight).1 in
    let first = run_leg-IsBalanced allocation_error allocation_of id loose in
    let second = run_leg-IsBalanced allocation_error allocation_of id tight in
    ground (arith, first, both-IsBalanced id loose_calls tight_calls first second)
run_limit_probe-IsBalanced id pids_probe host dwell =
    let generous = host.leg (attempt_request 4) in
    let capped = host.leg (attempt_request 1) in
    let generous_calls = (run_leg attempt_error attempt_of generous).1 in
    let capped_calls = (run_leg attempt_error attempt_of capped).1 in
    let first = run_leg-IsBalanced attempt_error attempt_of id generous in
    let second = run_leg-IsBalanced attempt_error attempt_of id capped in
    ground (arith, first, both-IsBalanced id generous_calls capped_calls first second)
run_limit_probe-IsBalanced id cpu_probe host dwell =
    let control = host.leg (cpu_request none) in
    let capped = host.leg (cpu_request (some 200)) in
    let control_calls = (run_leg not_started (control_leg dwell) control).1 in
    let capped_calls = (run_leg not_started capped_leg capped).1 in
    let first = run_leg-IsBalanced not_started (control_leg dwell) id control in
    let second = run_leg-IsBalanced not_started capped_leg id capped in
    ground (arith, first, both-IsBalanced id control_calls capped_calls first second)
