-- ===== src/JobObject/KillTree.antt =====
-- win-job-object.ts: the kill-tree probe, with the stage that it leaves behind.
use convira_sandbox.Base.{
  ℕ, Bool, true, false, not, ◌||◌, Option, none, some, List, [], ◌∷◌, ◌++◌, ◌==◌, if◌then◌else◌,
}
use convira_sandbox.Base.Text.{Text}
use convira_sandbox.Probing.{poll_until, poll_pid}
use convira_sandbox.JobObject.Registry.{terminated}
use convira_sandbox.JobObject.Spawning.{
  SpawnedProbeChild, Spawning, ProbeCall, native_call, remove_scratch, spawn_into_job,
  kill_best_effort, release_child,
}

pub data JobKillTreeProbeStage : Type 0 where
  not_run stage_ok addon_absent selftest_host_unavailable job_create_or_assign_failed :
      JobKillTreeProbeStage
  probe_child_never_reported probe_tree_died_before_terminate terminate_job_threw :
      JobKillTreeProbeStage
  descendants_survived_terminate probe_threw : JobKillTreeProbeStage

-- What the probe meets: `scratch` and `gate` say whether the directory and the gate file can be made,
-- `pid_files` is what the pid file holds at each poll until the deadline, nothing where it cannot be
-- read, `is_alive` which pids are alive once the grandchild is reported, and `terminate` what
-- `terminateJob` does to a job with an exit code: nothing if it throws, else whether a child and a
-- grandchild are both gone at each poll after it.
pub record Encounter : Type 0 where
  pub is_win32 : Bool
  pub addon : Bool
  pub handshake : Bool
  pub scratch : Bool
  pub spawning : Spawning
  pub gate : Bool
  pub pid_files : List (Option Text)
  pub is_alive : ℕ → Bool
  pub terminate : ℕ → ℕ → Option (ℕ → ℕ → List Bool)

-- The verdict, the stage and the calls made.
pub record Run : Type 0 where
  pub verdict : Bool
  pub stage : JobKillTreeProbeStage
  pub calls : List ProbeCall

unfoldable pub failed : JobKillTreeProbeStage → List ProbeCall → Run
failed stage calls = record { verdict = false; stage = stage; calls = calls }

-- The `finally` block where a child was spawned, with the grandchild if it was reported.
unfoldable pub clean_up : SpawnedProbeChild → Option ℕ → List ProbeCall
clean_up child grandchild =
    release_child child ++ (kill_best_effort grandchild ++ remove_scratch ∷ [])

-- From the return of `terminateJob` on.
unfoldable pub await_gone : SpawnedProbeChild → ℕ → (ℕ → ℕ → List Bool) → List ProbeCall → Run
await_gone child grandchild both_gone end =
    if poll_until (both_gone child.pid grandchild)
    then record { verdict = true; stage = stage_ok; calls = end }
    else failed descendants_survived_terminate end

-- From the report of the grandchild on.
unfoldable pub terminate_tree : Encounter → SpawnedProbeChild → ℕ → Run
terminate_tree e child grandchild =
    let clean = clean_up child (some grandchild) in
    let end = native_call (terminated child.job_id 1) ∷ clean in
    if grandchild == 0
    then failed probe_child_never_reported clean
    else if not (e.is_alive child.pid) || not (e.is_alive grandchild)
    then failed probe_tree_died_before_terminate clean
    else elim (e.terminate child.job_id 1) [
      | none ↦ failed terminate_job_threw end
      | some both_gone ↦ await_gone child grandchild both_gone end
    ]

unfoldable pub spawned_run : Encounter → SpawnedProbeChild → Run
spawned_run e child =
    if e.gate
    then elim (poll_pid e.pid_files) [
      | none ↦ failed probe_child_never_reported (clean_up child none)
      | some grandchild ↦ terminate_tree e child grandchild
    ]
    else failed probe_threw (clean_up child none)

-- A run where `before` is the stage left by an earlier run.
unfoldable pub run_job_kill_tree_probe : JobKillTreeProbeStage → Encounter → Run
run_job_kill_tree_probe before e =
    if not e.is_win32
    then failed before []
    else if not e.addon
    then failed addon_absent []
    else if not e.handshake
    then failed selftest_host_unavailable []
    else if not e.scratch
    then failed probe_threw []
    else (let (child, calls) = spawn_into_job e.spawning in
        elim child [
          | none ↦ failed job_create_or_assign_failed (calls ++ remove_scratch ∷ [])
          | some spawned ↦
              let run = spawned_run e spawned in record run { calls = calls ++ run.calls }
        ])
