-- ===== src/Probes/Examples.antt =====
-- probes.ts on one host.
use convira_sandbox.Base.{
  ℕ, true, false, List, any, none, some, [], ◌∷◌, ◌++◌, ◌==◌, ◌≡◌, refl, if◌then◌else◌,
}
use convira_sandbox.Base.Text.{Text, codes, ◌===◌, trim, is_digits, starts_with}
use convira_sandbox.Base.Decimal.{of_decimal}
use convira_sandbox.Base.Result.{ok}
use convira_sandbox.Probing.{read_file_trimmed, digits_of}
use convira_sandbox.Rlimit.Values.{u}
use convira_sandbox.Rlimit.Probing.{RlimitProbeResult}
use convira_sandbox.Probes.Group.{
  delivered, refused, is_alive, Group, kill_group, remove_directory, leader_args,
  escape_single_quotes, await_pid, await_gone, with_leader, kill_and_watch, kill_descendant,
  descendant_body, is_unix, run_descendant_kill_probe,
}
use convira_sandbox.Probes.Laws.{IsLed, IsDescendantKilled, run_descendant_kill_probe-IsReaped}
use convira_sandbox.Probes.MemoryCap.{SpawnReturns}

-- The descendant has the pid 42, written by the third round, and is gone in the second check.
abbrev group : Group
group = record {
  scratch = some (codes "/tmp/sbx");
  join = λ a b. a ++ codes "/" ++ b;
  starts = λ command args. some 41;
  content = λ file round. if round == 2 then some (codes "42\n") else none;
  ps_output = λ round. none;
  signal = λ pid round. if round == 2 then refused (codes "ESRCH") else delivered;
  group_kill = λ leader. delivered;
}

leader_args_test :
    leader_args (codes "/tmp/it's")
    ≡ codes "-c" ∷ codes "sleep 30 & echo $! > '/tmp/it'\\''s'; wait" ∷ []
unfolding leader_args escape_single_quotes
leader_args_test = refl

descendant_test :
    run_descendant_kill_probe (codes "linux") group
    ≡ (true, kill_group 41 ∷ kill_group 41 ∷ remove_directory (codes "/tmp/sbx") ∷ [])
unfolding run_descendant_kill_probe with_leader descendant_body await_pid digits_of
    read_file_trimmed trim is_digits of_decimal kill_descendant is_alive kill_and_watch await_gone
    ◌===◌
descendant_test = refl

run_descendant_kill_probe-IsReaped_example :
    (is_unix (codes "linux") ≡ true)
    × ((dir : Text) × (leader : ℕ) × (pid : ℕ) × IsLed group dir leader
        × IsDescendantKilled group dir leader pid)
unfolding run_descendant_kill_probe with_leader descendant_body await_pid digits_of
    read_file_trimmed trim is_digits of_decimal kill_descendant is_alive kill_and_watch await_gone
    ◌===◌
run_descendant_kill_probe-IsReaped_example =
    run_descendant_kill_probe-IsReaped (codes "linux") group refl

abbrev proven : RlimitProbeResult
proven = record { ok = true; proc_flag = some u }

-- Only the large allocation fails.
abbrev capped : Text → List Text → SpawnReturns
capped command args = record {
  error = false;
  status = some (
      if any (λ arg. starts_with (codes "exec dd if=/dev/zero of=/dev/null bs=256M") arg) args
      then 1
      else 0);
  signal = none;
}
