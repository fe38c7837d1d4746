-- ===== src/Rlimit/Script.antt =====
-- rlimit.ts: the `-c` script and the wrapped command line.
use convira_sandbox.Base.{
  ℕ, ◌-◌, ◌^◌, Bool, not, ◌||◌, Option, none, some, List, [], ◌∷◌, ◌++◌, map, leb, if◌then◌else◌,
}
use convira_sandbox.Base.Text.{Text, codes, join}
use convira_sandbox.Base.Decimal.{to_decimal}
use convira_sandbox.Base.Result.{Result, ok, throw, ◌>>=◌, ◌>>◌}
use convira_sandbox.Rlimit.Values.{ProcLimitFlag, u, p, RlimitValues}

abbrev pub rlimit_shell_path : Text
rlimit_shell_path = codes "/bin/sh"

unfoldable pub flag_text : ProcLimitFlag → Text
flag_text u = codes "-u"
flag_text p = codes "-p"

unfoldable pub clamp_helper : Text
clamp_helper =
    codes "l() { v=$2; h=$(ulimit -H \"$1\" 2>/dev/null); "
    ++ codes
        "case \"$h\" in \"\"|unlimited) ;; *) if [ \"$h\" -lt \"$v\" ]; then v=\"$h\"; fi ;; esac; "
    ++ codes "ulimit \"$1\" \"$v\"; };"

-- `!Number.isSafeInteger(value) || value <= 0`, at a natural number.
abbrev pub is_invalid : ℕ → Bool
is_invalid value = not (leb value (2 ^ 53 - 1)) || leb value 0

unfoldable pub assert_limit_value : Text → ℕ → Result (Unit {0})
assert_limit_value flag value =
    if is_invalid value
    then throw (
        codes "[sandbox-runtime] invalid rlimit value for "
        ++ flag
        ++ codes ": "
        ++ to_decimal value)
    else ok tt

-- The loop of `assertLimitValue` over the entries.
unfoldable pub assert_limit_values : List (Text × ℕ) → Result (Unit {0})
assert_limit_values [] = ok tt
assert_limit_values ((flag, value) ∷ entries) = do
  assert_limit_value flag value
  assert_limit_values entries

-- What `entries.unshift` and `entries.push` add for a value that may be undefined.
abbrev pub optional_entry : Text → Option ℕ → List (Text × ℕ)
optional_entry flag none = []
optional_entry flag (some value) = (flag, value) ∷ []

unfoldable pub limit_entries : RlimitValues → ProcLimitFlag → List (Text × ℕ)
limit_entries values proc_flag =
    optional_entry (codes "-t") values.cpu_seconds
    ++ ((codes "-f", values.file_size_blocks)
        ∷ (codes "-n", values.open_files)
        ∷ (optional_entry (codes "-v") values.vmem_kb
            ++ (flag_text proc_flag, values.processes) ∷ []))

abbrev pub set_limit : Text × ℕ → Text
set_limit (flag, value) = codes "l " ++ flag ++ codes " " ++ to_decimal value

unfoldable pub render_script : List (Text × ℕ) → Text
unfolding clamp_helper
render_script entries =
    clamp_helper
    ++ codes " "
    ++ join (codes " && ") (map set_limit entries)
    ++ codes " && exec \"$0\" \"$@\""

unfoldable pub build_rlimit_script : RlimitValues → ProcLimitFlag → Result Text
build_rlimit_script values proc_flag = do
  assert_limit_values (limit_entries values proc_flag)
  ok (render_script (limit_entries values proc_flag))

-- The pair `{ command, args }`.
unfoldable pub wrap_with_rlimit :
    Text → List Text → RlimitValues → ProcLimitFlag → Text → Result (Text × List Text)
wrap_with_rlimit command args values proc_flag shell_path = do
  script ← build_rlimit_script values proc_flag
  ok (shell_path, codes "-c" ∷ script ∷ command ∷ args)
