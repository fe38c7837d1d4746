-- ===== src/JobObject/Examples.antt =====
-- A short life of the registry, and one run of the kill-tree probe.
use convira_sandbox.Base.{
  none, leb, ◌==◌, ◌&&◌, ◌||◌, if◌then◌else◌, ◌+◌, true, false, some, List, [], ◌∷◌, ◌≡◌, refl,
}
use convira_sandbox.JobObject.Registry.{
  created, assigned, closed, get, set, delete, attach_pid_to_job, assign_and_set, release_win_job,
  job_of,
}
use convira_sandbox.JobObject.Accounts.{
  Operation, attach, release, perform, registry_after, calls_of, held, creations, closures,
  all_forgotten, IsAttached, attach_pid_to_job-IsAttached, run-accounts,
}
use convira_sandbox.Base.Text.{codes, trim, is_digits}
use convira_sandbox.Base.Decimal.{of_decimal}
use convira_sandbox.Probing.{poll_until, poll_pid, digits_of, read_file_trimmed}
use convira_sandbox.JobObject.Spawning.{
  native_call, close_threw, kill, Spawning, spawn_into_job, assign_child, close_failed,
}
use convira_sandbox.JobObject.Balance.{IsBalanced}
use convira_sandbox.JobObject.KillTree.{
  not_run, Encounter, run_job_kill_tree_probe, spawned_run, terminate_tree, await_gone, failed,
}
use convira_sandbox.JobObject.KillTreeLaws.{IsReaped, run_job_kill_tree_probe-IsReaped}
use convira_sandbox.JobObject.TwoLeg.{Legs}
use convira_sandbox.JobObject.TwoLegLaws
use convira_sandbox.JobObject.TwoLegLaws.{memory_probe, run_limit_probe, run_limit_probe-IsBalanced}

-- Process 20 is attached twice, and then released once.
abbrev ops : List Operation
ops =
    attach true (some 1) true 20
    ∷ attach true (some 2) true 20
    ∷ attach true (some 3) false 30
    ∷ release true 20
    ∷ []

first_job_left_open : closures 1 (calls_of ops []) ≡ 0
unfolding closures calls_of perform attach_pid_to_job assign_and_set release_win_job job_of get set
    delete
first_job_left_open = refl

run-accounts_example :
    0 + creations 1 (calls_of ops [])
    ≡ closures 1 (calls_of ops []) + (held 1 (registry_after ops []) + all_forgotten 1 ops [])
unfolding held
run-accounts_example = run-accounts 1 ops []

attach_pid_to_job-IsAttached_example :
    IsAttached true (some 7) true 20 (attach_pid_to_job true (some 7) true 20 [])
unfolding attach_pid_to_job assign_and_set
attach_pid_to_job-IsAttached_example =
    attach_pid_to_job-IsAttached true (some 7) true 20 [] true refl

abbrev encounter : Encounter
encounter = record {
  is_win32 = true;
  addon = true;
  handshake = true;
  scratch = true;
  spawning = record {
    host = true;
    creates = some 1;
    spawns = true;
    child_pid = some 20;
    assigns = true;
    closes = true;
  };
  gate = true;
  pid_files = none ∷ some (codes "21\n") ∷ [];
  is_alive = λ pid. pid == 20 || pid == 21;
  terminate = λ job code. if job == 1 && code == 1 then some (λ a b. false ∷ true ∷ []) else none;
}

run_job_kill_tree_probe-IsReaped_example :
    IsReaped encounter (run_job_kill_tree_probe not_run encounter).calls
unfolding run_job_kill_tree_probe spawn_into_job assign_child spawned_run terminate_tree await_gone
    poll_until failed poll_pid digits_of read_file_trimmed trim is_digits of_decimal
run_job_kill_tree_probe-IsReaped_example = run_job_kill_tree_probe-IsReaped not_run encounter refl

-- A close that throws after a failed assignment is made again.
close_failed_test :
    (spawn_into_job (record encounter.spawning { assigns = false; closes = false })).1
    ≡ native_call (created 1)
      ∷ native_call (assigned 1 20)
      ∷ kill 20
      ∷ close_threw 1
      ∷ native_call (closed 1)
      ∷ []
unfolding spawn_into_job assign_child close_failed
close_failed_test = refl

-- A host where a payload with more memory than its limit ends without a word, and any other says ok.
abbrev job_spawning : Spawning
job_spawning = record {
  host = true;
  creates = some 4;
  spawns = true;
  child_pid = some 40;
  assigns = true;
  closes = true;
}

abbrev legs : Legs
legs = record {
  is_win32 = true;
  addon = true;
  handshake = true;
  leg = λ request. record {
    scratch = true;
    spawning = job_spawning;
    polls = (none, true) ∷ (none, false) ∷ [];
    last = elim request.limits.memory_limit_mb [
      | none ↦ none
      | some mb ↦ if leb 100 mb then some (codes "ok\n") else none
    ];
  };
}

run_limit_probe-IsBalanced_example : IsBalanced 4 (run_limit_probe memory_probe legs []).1
run_limit_probe-IsBalanced_example = run_limit_probe-IsBalanced 4 memory_probe legs []
