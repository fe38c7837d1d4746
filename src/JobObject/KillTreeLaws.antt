-- ===== src/JobObject/KillTreeLaws.antt =====
-- win-job-object.ts: what a verdict of the kill-tree probe means, and that it leaves no job open.
use convira_sandbox.Base.{
  ℕ, Bool, true, false, List, ◌==◌, ◌&&◌, Option, none, some, [], ◌∷◌, ◌++◌, ◌≡◌, refl, inl, inr,
  arith, any, Bool-cases, Option-cases,
}
use convira_sandbox.Probing.{poll_until_lem, poll_pid}
use convira_sandbox.JobObject.Registry.{created, assigned, terminated}
use convira_sandbox.JobObject.Spawning.{
  SpawnedProbeChild, Spawning, ProbeCall, native_call, remove_scratch, assign_child, spawn_into_job,
  kill_best_effort,
}
use convira_sandbox.JobObject.Balance.{
  opened, shut, opened-append, shut-append, IsRelease, IsBalanced, kill_best_effort_lem,
  release_child-IsRelease, spawned-IsBalanced, unspawned-IsBalanced,
}
use convira_sandbox.JobObject.KillTree.{
  JobKillTreeProbeStage, Encounter, failed, clean_up, await_gone, terminate_tree, spawned_run,
  run_job_kill_tree_probe,
}

-- A child came from a spawn whose calls created its job and put it there.
abbrev pub IsSpawned : Spawning → SpawnedProbeChild → Type 0
IsSpawned s child =
    (s.creates ≡ some child.job_id)
    × (s.child_pid ≡ some child.pid)
    × (s.assigns ≡ true)
    × ((spawn_into_job s).1
        ≡ native_call (created child.job_id) ∷ native_call (assigned child.job_id child.pid) ∷ [])

-- Child and grandchild were alive, the job of the child was terminated, and both were gone after it.
abbrev pub IsTerminated : Encounter → SpawnedProbeChild → ℕ → Type 0
IsTerminated e child grandchild =
    ((grandchild == 0) ≡ false)
    × (e.is_alive child.pid && e.is_alive grandchild ≡ true)
    × (both_gone : ℕ → ℕ → List Bool) × (e.terminate child.job_id 1 ≡ some both_gone)
    × (any (λ gone. gone) (both_gone child.pid grandchild) ≡ true)

-- The calls of a run that passed: the child's job is created, the child put in it, the job terminated,
-- and only then everything is cleaned up.
abbrev pub IsReaped : Encounter → List ProbeCall → Type 0
IsReaped e calls =
    (e.is_win32 && (e.addon && e.handshake) ≡ true)
    × (child : SpawnedProbeChild) × (grandchild : ℕ) × IsSpawned e.spawning child
    × (poll_pid e.pid_files ≡ some grandchild)
    × IsTerminated e child grandchild
    × (calls
        ≡ native_call (created child.job_id)
          ∷ native_call (assigned child.job_id child.pid)
          ∷ native_call (terminated child.job_id 1)
          ∷ clean_up child (some grandchild))

spawn_into_job-IsSpawned :
    (s : Spawning) (child : SpawnedProbeChild)
    → (spawn_into_job s).0 ≡ some child
    → IsSpawned s child
unfolding spawn_into_job assign_child
spawn_into_job-IsSpawned s child h = elim (Option-cases s.creates) [
  | inl threw ↦ absurd (ground arith)
  | inr (job, made) ↦ elim (Option-cases s.child_pid) [
    | inl no_pid ↦ absurd (ground arith)
    | inr (pid, ran) ↦ (ground arith, ground arith, ground arith, ground arith)
  ]
]

terminate_tree_lem :
    (e : Encounter) (child : SpawnedProbeChild) (grandchild : ℕ)
    → (terminate_tree e child grandchild).verdict ≡ true
    → IsTerminated e child grandchild
      × ((terminate_tree e child grandchild).calls
          ≡ native_call (terminated child.job_id 1) ∷ clean_up child (some grandchild))
unfolding terminate_tree await_gone failed
terminate_tree_lem e child grandchild h = elim (Option-cases (e.terminate child.job_id 1)) [
  | inl threw ↦ absurd (ground arith)
  | inr (both_gone, done) ↦ (
    (
      ground arith,
      ground arith,
      both_gone,
      done,
      ground (arith, poll_until_lem (both_gone child.pid grandchild)),
    ),
    ground arith,
  )
]

spawned_run_lem :
    (e : Encounter) (child : SpawnedProbeChild)
    → (spawned_run e child).verdict ≡ true
    → (grandchild : ℕ) × (poll_pid e.pid_files ≡ some grandchild)
      × IsTerminated e child grandchild
      × ((spawned_run e child).calls
          ≡ native_call (terminated child.job_id 1) ∷ clean_up child (some grandchild))
unfolding spawned_run failed
spawned_run_lem e child h = elim (Bool-cases e.gate) [
  | inl opened ↦ elim (Option-cases (poll_pid e.pid_files)) [
    | inl silent ↦ absurd (ground arith)
    | inr (grandchild, said) ↦
        let (done, calls) = terminate_tree_lem e child grandchild (ground arith) in
        (grandchild, said, done, rw opened (rw said calls))
  ]
  | inr shut ↦ absurd (ground arith)
]

-- The kill-tree probe passes only on Windows with the addon and the payload host, after a child was
-- put into the job created for it, the child and the grandchild that it reported were seen alive,
-- the termination of that job returned, and both were then seen gone; its calls are the creation,
-- the assignment and the termination of this job, and then the clean-up.
pub run_job_kill_tree_probe-IsReaped :
    (before : JobKillTreeProbeStage) (e : Encounter)
    → (run_job_kill_tree_probe before e).verdict ≡ true
    → IsReaped e (run_job_kill_tree_probe before e).calls
unfolding run_job_kill_tree_probe failed
run_job_kill_tree_probe-IsReaped before e h = elim (Option-cases (spawn_into_job e.spawning).0) [
  | inl nothing ↦ absurd (ground arith)
  | inr (child, spawned) ↦
      let known = spawn_into_job-IsSpawned e.spawning child spawned in
      let (grandchild, said, done, calls) = spawned_run_lem e child (ground arith) in
      (ground arith, child, grandchild, known, said, done, ground (arith, known, calls))
]

clean_up-IsRelease :
    (id : ℕ) (child : SpawnedProbeChild) (reported : Option ℕ)
    → IsRelease id child (clean_up child reported)
unfolding clean_up shut opened
clean_up-IsRelease id child reported =
    release_child-IsRelease id child (kill_best_effort reported ++ remove_scratch ∷ [])
      (omega (
        arith,
        kill_best_effort_lem id reported,
        shut-append id (kill_best_effort reported) (remove_scratch ∷ []),
      ))
      (omega (
        arith,
        kill_best_effort_lem id reported,
        opened-append id (kill_best_effort reported) (remove_scratch ∷ []),
      ))

terminate_tree-IsRelease :
    (id : ℕ) (e : Encounter) (child : SpawnedProbeChild) (grandchild : ℕ)
    → IsRelease id child (terminate_tree e child grandchild).calls
unfolding terminate_tree await_gone failed shut opened
terminate_tree-IsRelease id e child grandchild =
    ground (arith, clean_up-IsRelease id child (some grandchild))

spawned_run-IsRelease :
    (id : ℕ) (e : Encounter) (child : SpawnedProbeChild)
    → IsRelease id child (spawned_run e child).calls
unfolding spawned_run failed
spawned_run-IsRelease id e child = elim (Bool-cases e.gate) [
  | inl opened ↦ elim (Option-cases (poll_pid e.pid_files)) [
    | inl silent ↦ rw opened (rw silent (clean_up-IsRelease id child none))
    | inr (grandchild, said) ↦ rw opened (rw said (terminate_tree-IsRelease id e child grandchild))
  ]
  | inr closed_gate ↦ rw closed_gate (clean_up-IsRelease id child none)
]

-- However a run of the kill-tree probe ends, it closes the job that it created once, not counting a
-- close that threw inside spawnIntoJob and was made again.
pub run_job_kill_tree_probe-IsBalanced :
    (id : ℕ) (before : JobKillTreeProbeStage) (e : Encounter)
    → IsBalanced id (run_job_kill_tree_probe before e).calls
unfolding run_job_kill_tree_probe failed opened shut
run_job_kill_tree_probe-IsBalanced id before e = elim (Option-cases (spawn_into_job e.spawning).0) [
  | inl nothing ↦
      ground (arith, unspawned-IsBalanced id e.spawning (remove_scratch ∷ []) nothing (refl, refl))
  | inr (child, spawned) ↦ ground (
    arith,
    spawned-IsBalanced id e.spawning child (spawned_run e child).calls spawned
        (spawned_run-IsRelease id e child),
  )
]
