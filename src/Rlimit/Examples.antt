-- ===== src/Rlimit/Examples.antt =====
-- rlimit.ts on small spawns and a small shell.
use convira_sandbox.Base.{
  ℕ, ◌*◌, ◌≤◌, true, false, none, some, [], ◌∷◌, ◌++◌, ◌≡◌, refl, ◌⊎◌, ◌↔◌, arith, All,
}
use convira_sandbox.Base.Text.{codes, ◌===◌, trim, is_digits, split, join}
use convira_sandbox.Base.Decimal.{to_decimal, of_decimal}
use convira_sandbox.Base.Result.{ok}
use convira_sandbox.Types.{Resources}
use convira_sandbox.Rlimit.Values.{ProcLimitFlag, u, p, RlimitValues, rlimit_values_from_resources}
use convira_sandbox.Rlimit.Script.{
  build_rlimit_script, wrap_with_rlimit, limit_entries, assert_limit_values, assert_limit_value,
  render_script, flag_text, clamp_helper, rlimit_shell_path,
}
use convira_sandbox.Rlimit.ProbingLaws.{IsLimited, IsReadBack, run_rlimit_probe-IsReadBack}
use convira_sandbox.Rlimit.Probing.{
  accepts, Exec, run_rlimit_probe, failed_probe, wrapped_readback, normalized, expected,
  discover_proc_flag, compare_readback, run_probe_shell, readback, probe_values,
}
use convira_sandbox.Rlimit.Laws.{
  IsLimit, cpu_headroom, build_rlimit_script_iff, wrap_with_rlimit_resources,
}

abbrev ten_minutes : Resources
ten_minutes = record {
  memory_mb = 512000;
  max_processes = 8000;
  timeout_ms = some 600000000;
  long_lived = false;
}

ten_minutes_test : rlimit_values_from_resources ten_minutes true ≡ record {
  cpu_seconds = some 2400;
  file_size_blocks = 8388608;
  open_files = 1024;
  processes = 1032;
  vmem_kb = some 524288;
}
unfolding rlimit_values_from_resources
ten_minutes_test = refl

abbrev values : RlimitValues
values = record {
  cpu_seconds = none;
  file_size_blocks = 8;
  open_files = 256;
  processes = 1040;
  vmem_kb = some 65536;
}

script_test :
    build_rlimit_script values p
    ≡ ok (
        clamp_helper
        ++ codes " l -f 8 && l -n 256 && l -v 65536 && l -p 1040 && exec \"$0\" \"$@\"")
unfolding build_rlimit_script assert_limit_values assert_limit_value limit_entries render_script
    flag_text to_decimal join clamp_helper
script_test = refl

-- A shell that accepts every limit and reads back what the probe set.
shell : Exec
shell command args = elim args [
  | [] ↦ none
  | _ ∷ rest ↦ elim rest [
    | [] ↦ none
    | _ ∷ more ↦ elim more [ [] ↦ some (codes "1040\n") | _ ∷ _ ↦ some (codes "9\r\n8\n256\n") ]
  ]
]

probe_test :
    run_rlimit_probe shell rlimit_shell_path false ≡ record { ok = true; proc_flag = some u }
unfolding run_rlimit_probe discover_proc_flag accepts shell run_probe_shell is_digits trim
    of_decimal wrapped_readback wrap_with_rlimit build_rlimit_script assert_limit_values
    assert_limit_value limit_entries render_script flag_text to_decimal join clamp_helper readback
    probe_values compare_readback normalized expected split ◌===◌
probe_test = refl

cpu_headroom_example :
    (c : ℕ) × ((rlimit_values_from_resources ten_minutes true).cpu_seconds ≡ some c)
    × (4 * 600000000 ≤ c * 1000000)
cpu_headroom_example = cpu_headroom ten_minutes true 600000000 refl refl (omega arith) (omega arith)

build_rlimit_script_iff_example :
    (build_rlimit_script values p ≡ ok (render_script (limit_entries values p)))
    ↔ All IsLimit (limit_entries values p)
build_rlimit_script_iff_example = build_rlimit_script_iff values p

wrap_with_rlimit_resources_example :
    wrap_with_rlimit
      (codes "ls")
      (codes "$(id)" ∷ [])
      (rlimit_values_from_resources ten_minutes true)
      u
      rlimit_shell_path
    ≡ ok (
      rlimit_shell_path,
      codes "-c"
          ∷ render_script (limit_entries (rlimit_values_from_resources ten_minutes true) u)
          ∷ codes "ls"
          ∷ codes "$(id)"
          ∷ [],
    )
wrap_with_rlimit_resources_example =
    wrap_with_rlimit_resources ten_minutes true u (codes "ls") (codes "$(id)" ∷ [])
      rlimit_shell_path (omega arith) (omega arith)

run_rlimit_probe-IsReadBack_example :
    (run_rlimit_probe shell rlimit_shell_path false ≡ failed_probe)
    ⊎ ((flag : ProcLimitFlag) × (run_rlimit_probe shell rlimit_shell_path false
          ≡ record { ok = true; proc_flag = some flag })
        × IsLimited shell rlimit_shell_path flag
        × IsReadBack shell rlimit_shell_path false flag)
run_rlimit_probe-IsReadBack_example = run_rlimit_probe-IsReadBack shell rlimit_shell_path false
