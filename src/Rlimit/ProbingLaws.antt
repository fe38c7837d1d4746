-- ===== src/Rlimit/ProbingLaws.antt =====
-- What a passed probe of the rlimit wrapper has set and read back.
use convira_sandbox.Base.{
  ℕ, Bool, true, false, ◌<◌, ◌≤◌, Option, none, some, List, [], ◌∷◌, ◌++◌, map, ◌≡◌, refl, ◌⊎◌, inl,
  inr, arith, Bool-cases, Option-cases,
}
use convira_sandbox.Base.Text.{Text, codes, ◌===◌, ===_sound, trim, is_digits, join}
use convira_sandbox.Base.Decimal.{to_decimal, of_decimal}
use convira_sandbox.Base.Result.{ok}
use convira_sandbox.Rlimit.Values.{ProcLimitFlag, u, p, RlimitValues}
use convira_sandbox.Rlimit.Script.{
  wrap_with_rlimit, build_rlimit_script, limit_entries, assert_limit_values, assert_limit_value,
  render_script,
}
use convira_sandbox.Rlimit.Probing.{
  Exec, run_rlimit_probe, failed_probe, wrapped_readback, normalized, expected, discover_proc_flag,
  discover_script, probe_proc_limit, probe_values, readback, run_probe_shell, accepts,
  compare_readback,
}

-- The CPU, file size, open file and memory limits of some values, as far as they are set.
abbrev optional : Option ℕ → List ℕ
optional none = []
optional (some n) = n ∷ []

abbrev pub readable : RlimitValues → List ℕ
readable values =
    optional values.cpu_seconds
    ++ values.file_size_blocks ∷ values.open_files ∷ optional values.vmem_kb

-- A shell that printed a process limit from 1 to the one asked for.
abbrev pub IsLimited : Exec → Text → ProcLimitFlag → Type 0
IsLimited exec_file shell_path flag =
    (seen : Text) × (exec_file shell_path (codes "-c" ∷ discover_script flag ∷ []) ≡ some seen)
    × (is_digits (trim seen) ≡ true)
    × (0 < of_decimal (trim seen))
    × (of_decimal (trim seen) ≤ probe_proc_limit)

-- A shell behind the script that sets the values of the probe printed these values, line by line.
abbrev pub IsReadBack : Exec → Text → Bool → ProcLimitFlag → Type 0
IsReadBack exec_file shell_path enforce_memory flag =
    let values = probe_values enforce_memory in
    (out : Text) × (exec_file shell_path (
        codes "-c"
        ∷ render_script (limit_entries values flag)
        ∷ shell_path
        ∷ codes "-c"
        ∷ readback enforce_memory
        ∷ [])
      ≡ some out)
    × (normalized (trim out) ≡ join (codes "\n") (map to_decimal (readable values)))

-- The text that the probe compares with is that of the values that it sets.
expected_lem :
    (enforce_memory : Bool)
    → expected enforce_memory
      ≡ join (codes "\n") (map to_decimal (readable (probe_values enforce_memory)))
unfolding expected probe_values to_decimal
expected_lem true = refl
expected_lem false = refl

-- The values of the probe pass the checks of the wrapper.
wrap_with_rlimit-probe_values :
    (enforce_memory : Bool) (flag : ProcLimitFlag) (command : Text) (args : List Text)
    (shell_path : Text)
    → wrap_with_rlimit command args (probe_values enforce_memory) flag shell_path
      ≡ ok (
        shell_path,
        codes "-c"
            ∷ render_script (limit_entries (probe_values enforce_memory) flag)
            ∷ command
            ∷ args,
      )
unfolding wrap_with_rlimit build_rlimit_script assert_limit_values assert_limit_value limit_entries
    probe_values
wrap_with_rlimit-probe_values true u command args shell_path = refl
wrap_with_rlimit-probe_values true p command args shell_path = refl
wrap_with_rlimit-probe_values false u command args shell_path = refl
wrap_with_rlimit-probe_values false p command args shell_path = refl

run_probe_shell_lem :
    (exec_file : Exec) (command : Text) (args : List Text) (seen : Text)
    → run_probe_shell exec_file command args ≡ some seen
    → (out : Text) × (exec_file command args ≡ some out) × (seen ≡ trim out)
unfolding run_probe_shell
run_probe_shell_lem exec_file command args seen h = elim (Option-cases (exec_file command args)) [
  | inl threw ↦ absurd (ground arith)
  | inr (out, ran) ↦ (out, ran, ground arith)
]

accepted :
    (exec_file : Exec) (shell_path : Text) (flag : ProcLimitFlag)
    → accepts exec_file
        (run_probe_shell exec_file shell_path (codes "-c" ∷ discover_script flag ∷ []))
      ≡ true
    → IsLimited exec_file shell_path flag
unfolding accepts
accepted exec_file shell_path flag h =
    let args = codes "-c" ∷ discover_script flag ∷ [] in
    elim (Option-cases (run_probe_shell exec_file shell_path args)) [
      | inl threw ↦ absurd (ground arith)
      | inr (seen, read) ↦
          let (out, ran, trimmed) = run_probe_shell_lem exec_file shell_path args seen read in
          (out, ran, ground (arith, trimmed), ground (arith, trimmed), ground (arith, trimmed))
    ]

discovered :
    (exec_file : Exec) (shell_path : Text) (flag : ProcLimitFlag)
    → discover_proc_flag exec_file shell_path ≡ some flag
    → accepts exec_file
        (run_probe_shell exec_file shell_path (codes "-c" ∷ discover_script flag ∷ []))
      ≡ true
unfolding discover_proc_flag
discovered exec_file shell_path u h = ground arith
discovered exec_file shell_path p h = ground arith

compare_readback_lem :
    (exec_file : Exec) (enforce_memory : Bool) (flag : ProcLimitFlag) (read : Option Text)
    → (compare_readback exec_file enforce_memory flag read ≡ failed_probe)
      ⊎ ((seen : Text) × (read ≡ some seen)
          × (compare_readback exec_file enforce_memory flag read
              ≡ record { ok = true; proc_flag = some flag })
          × (normalized seen ≡ expected enforce_memory))
unfolding compare_readback
compare_readback_lem exec_file enforce_memory flag none = inl refl
compare_readback_lem exec_file enforce_memory flag (some seen) =
    elim (Bool-cases (normalized seen === expected enforce_memory)) [
      | inl same ↦
          inr (seen, refl, rw same, ===_sound (normalized seen) (expected enforce_memory) same)
      | inr differ ↦ inl (rw differ)
    ]

wrapped_readback_lem :
    (exec_file : Exec) (shell_path : Text) (enforce_memory : Bool) (flag : ProcLimitFlag)
    (seen : Text)
    → wrapped_readback exec_file shell_path enforce_memory flag ≡ some seen
    → normalized seen ≡ expected enforce_memory
    → IsReadBack exec_file shell_path enforce_memory flag
unfolding wrapped_readback
wrapped_readback_lem exec_file shell_path enforce_memory flag seen h same =
    let args = codes "-c" ∷ readback enforce_memory ∷ [] in
    let wraps = wrap_with_rlimit-probe_values enforce_memory flag shell_path args shell_path in
    let (out, ran, trimmed) =
      run_probe_shell_lem exec_file shell_path
        (codes "-c"
          ∷ render_script (limit_entries (probe_values enforce_memory) flag)
          ∷ shell_path
          ∷ args)
        seen (ground (arith, wraps)) in
    (out, ran, cc (trimmed, same, expected_lem enforce_memory))

-- The probe passes only with a process flag under which a shell could set a process limit and print a
-- number from 1 to it, and only if a shell behind the script with all the probe's limits printed the
-- CPU, file size and open file limits, and on Linux the memory limit, exactly as they were set; a
-- probe that does not pass names no flag.
pub run_rlimit_probe-IsReadBack :
    (exec_file : Exec) (shell_path : Text) (is_linux : Bool)
    → (run_rlimit_probe exec_file shell_path is_linux ≡ failed_probe)
      ⊎ ((flag : ProcLimitFlag) × (run_rlimit_probe exec_file shell_path is_linux
            ≡ record { ok = true; proc_flag = some flag })
          × IsLimited exec_file shell_path flag
          × IsReadBack exec_file shell_path is_linux flag)
unfolding run_rlimit_probe
run_rlimit_probe-IsReadBack exec_file shell_path is_linux =
    elim (Option-cases (discover_proc_flag exec_file shell_path)) [
      | inl missing ↦ inl (rw (missing, run_rlimit_probe))
      | inr (flag, found) ↦
          elim (compare_readback_lem exec_file is_linux flag
            (wrapped_readback exec_file shell_path is_linux flag)) [
              | inl failed ↦ inl (rw (found, run_rlimit_probe) failed)
              | inr (seen, read, passed, same) ↦ inr (
                flag,
                rw (found, run_rlimit_probe) passed,
                accepted exec_file shell_path flag (discovered exec_file shell_path flag found),
                wrapped_readback_lem exec_file shell_path is_linux flag seen read same,
              )
            ]
    ]
