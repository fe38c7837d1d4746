-- ===== src/Rlimit/Probing.antt =====
-- rlimit.ts: the functional probe of the wrapper. `exec_file` stands for `execFileSync` of a
-- command with its arguments: its standard output, or nothing when it throws.
use convira_sandbox.Base.{
  ℕ, ◌+◌, Bool, true, false, ◌&&◌, Option, none, some, List, [], ◌∷◌, ◌++◌, map, ltb, leb,
  if◌then◌else◌,
}
use convira_sandbox.Base.Text.{Text, codes, ◌===◌, trim, is_digits, split, join}
use convira_sandbox.Base.Decimal.{to_decimal, of_decimal}
use convira_sandbox.Base.Result.{ok, throw}
use convira_sandbox.Rlimit.Values.{ProcLimitFlag, u, p, RlimitValues, rlimit_nproc_headroom}
use convira_sandbox.Rlimit.Script.{flag_text, wrap_with_rlimit}
use convira_sandbox.ProbeCache.{Cache, probe}

pub record RlimitProbeResult : Type 0 where
  pub ok : Bool
  pub proc_flag : Option ProcLimitFlag

abbrev pub failed_probe : RlimitProbeResult
failed_probe = record { ok = false; proc_flag = none }

abbrev pub probe_proc_limit : ℕ
probe_proc_limit = rlimit_nproc_headroom + 16

abbrev pub Exec : Type 0
Exec = Text → List Text → Option Text

-- The script that sets a process limit and reads it back.
unfoldable pub discover_script : ProcLimitFlag → Text
discover_script flag =
    codes "h=$(ulimit -H "
    ++ flag_text flag
    ++ codes " 2>/dev/null); v="
    ++ to_decimal probe_proc_limit
    ++ codes "; "
    ++ codes
        "case \"$h\" in \"\"|unlimited) ;; *) if [ \"$h\" -lt \"$v\" ]; then v=\"$h\"; fi ;; esac; "
    ++ codes "ulimit "
    ++ flag_text flag
    ++ codes " \"$v\" && ulimit "
    ++ flag_text flag

unfoldable pub probe_values : Bool → RlimitValues
probe_values enforce_memory = record {
  cpu_seconds = some 9;
  file_size_blocks = 8;
  open_files = 256;
  processes = probe_proc_limit;
  vmem_kb = if enforce_memory then some 1048576 else none;
}

unfoldable pub readback : Bool → Text
readback enforce_memory =
    codes "ulimit -t && ulimit -f && ulimit -n"
    ++ (if enforce_memory then codes " && ulimit -v" else [])

unfoldable pub expected : Bool → Text
expected enforce_memory =
    join (codes "\n")
      (codes "9" ∷ codes "8" ∷ codes "256" ∷ (if enforce_memory then codes "1048576" ∷ [] else []))

-- `out.split(/\r?\n/).map(trim).join("\n")`: trimming takes the carriage returns off.
unfoldable pub normalized : Text → Text
normalized out = join (codes "\n") (map trim (split b'\n' out))

module _ (exec_file : Exec) where
  unfoldable pub run_probe_shell : Text → List Text → Option Text
  run_probe_shell command args = elim (exec_file command args) [
    | none ↦ none
    | some out ↦ some (trim out)
  ]

  -- Whether the readback of a process limit is a number from 1 to the limit asked for.
  unfoldable pub accepts : Option Text → Bool
  accepts none = false
  accepts (some out) =
      is_digits out && ltb 0 (of_decimal out) && leb (of_decimal out) probe_proc_limit

  unfoldable pub discover_proc_flag : Text → Option ProcLimitFlag
  discover_proc_flag shell_path =
      if accepts (run_probe_shell shell_path (codes "-c" ∷ discover_script u ∷ []))
      then some u
      else if accepts (run_probe_shell shell_path (codes "-c" ∷ discover_script p ∷ []))
      then some p
      else none

  -- The wrapped readback; a throw of the wrapper would leave the probe by the exception.
  unfoldable pub wrapped_readback : Text → Bool → ProcLimitFlag → Option Text
  wrapped_readback shell_path enforce_memory flag =
      elim (wrap_with_rlimit shell_path (codes "-c" ∷ readback enforce_memory ∷ [])
        (probe_values enforce_memory) flag shell_path) [
          | throw e ↦ none
          | ok (command, args) ↦ run_probe_shell command args
        ]

  unfoldable pub compare_readback : Bool → ProcLimitFlag → Option Text → RlimitProbeResult
  compare_readback enforce_memory flag none = failed_probe
  compare_readback enforce_memory flag (some out) =
      if normalized out === expected enforce_memory
      then record { ok = true; proc_flag = some flag }
      else failed_probe

  unfoldable pub run_rlimit_probe : Text → Bool → RlimitProbeResult
  run_rlimit_probe shell_path is_linux = elim (discover_proc_flag shell_path) [
    | none ↦ failed_probe
    | some flag ↦ compare_readback is_linux flag (wrapped_readback shell_path is_linux flag)
  ]

-- `probeRlimitSupport` over the module's memo.
unfoldable pub probe_rlimit_support :
    {W : Type 0}
    → (W → RlimitProbeResult × W)
    → Cache RlimitProbeResult
    → W
    → RlimitProbeResult × Cache RlimitProbeResult × W
unfolding probe
probe_rlimit_support run s w = probe run s w
