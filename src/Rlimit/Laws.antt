-- ===== src/Rlimit/Laws.antt =====
-- What the limits, the script and the probe guarantee.
use convira_sandbox.Base.{
  ℕ, ◌+◌, ◌*◌, max, ◌≤◌, ◌<◌, Bool, true, false, ◌&&◌, Option, none, some, List, [], ◌∷◌, ◌≡◌, refl,
  ◌↔◌, inl, inr, arith, All, Bool-cases, ltb, if◌then◌else◌,
}
use convira_sandbox.Base.Text.{Text, codes}
use convira_sandbox.Base.Result.{ok}
use convira_sandbox.Types.{Resources, floor}
use convira_sandbox.Rlimit.Values.{
  ProcLimitFlag, RlimitValues, rlimit_values_from_resources, max_cpu_seconds, min_cpu_seconds,
  ceil_seconds,
}
use convira_sandbox.Rlimit.Script.{
  build_rlimit_script, wrap_with_rlimit, limit_entries, assert_limit_values, assert_limit_value,
  render_script, is_invalid,
}

-- What a CPU limit may be, for a long-lived spawn and for any other.
abbrev pub IsCpuLimit : Bool → Option ℕ → Type 0
IsCpuLimit true o = o ≡ none
IsCpuLimit false none = ⊥
IsCpuLimit false (some c) = (min_cpu_seconds ≤ c) × (c ≤ max_cpu_seconds)

-- A long-lived spawn has no CPU limit; any other has one, from 4 to 2400 seconds.
pub cpu_seconds_bounds :
    (r : Resources) (m : Bool)
    → IsCpuLimit r.long_lived (rlimit_values_from_resources r m).cpu_seconds
unfolding rlimit_values_from_resources
cpu_seconds_bounds r m = ground arith

-- A spawn with a wall-clock timeout of at most 600 seconds, that is not long-lived, gets a CPU limit
-- of at least four times its timeout (`t` is in thousandths of a millisecond).
pub cpu_headroom :
    (r : Resources) (m : Bool) (t : ℕ)
    → r.long_lived ≡ false
    → r.timeout_ms ≡ some t
    → 0 < t
    → t ≤ 600000000
    → (c : ℕ) × ((rlimit_values_from_resources r m).cpu_seconds ≡ some c) × (4 * t ≤ c * 1000000)
unfolding rlimit_values_from_resources
cpu_headroom r m t short timed pos small =
    (max min_cpu_seconds (ceil_seconds t * 4), ground arith, omega arith)

-- The address space is capped exactly when the adapter enforces memory and the budget is a whole
-- megabyte or more, and then at the budget; the process limit leaves the headroom over the budget.
pub memory_and_processes :
    (r : Resources) (m : Bool)
    → ((rlimit_values_from_resources r m).vmem_kb
        ≡ (if m && ltb 999 r.memory_mb then some (floor r.memory_mb * 1024) else none))
      × (1024 + floor r.max_processes ≤ (rlimit_values_from_resources r m).processes)
      × (1025 ≤ (rlimit_values_from_resources r m).processes)
unfolding rlimit_values_from_resources
memory_and_processes r m = ground arith

-- A positive integer that JavaScript represents exactly.
abbrev pub IsLimit : Text × ℕ → Type 0
IsLimit (flag, value) = (0 < value) × (value ≤ 9007199254740991)

assert_limit_values_ok : (es : List (Text × ℕ)) → All IsLimit es → assert_limit_values es ≡ ok tt
unfolding assert_limit_values assert_limit_value
assert_limit_values_ok [] h = refl
assert_limit_values_ok ((flag, value) ∷ es) (h, k) = ground (arith, assert_limit_values_ok es k)

assert_limit_values-IsLimit :
    (es : List (Text × ℕ)) → assert_limit_values es ≡ ok tt → All IsLimit es
unfolding assert_limit_values assert_limit_value
assert_limit_values-IsLimit [] h = tt
assert_limit_values-IsLimit ((flag, value) ∷ es) h = elim (Bool-cases (is_invalid value)) [
  | inl bad ↦ absurd (ground arith)
  | inr good ↦ (ground arith, assert_limit_values-IsLimit es (ground arith))
]

-- The script is built exactly when every limit is a positive safe integer; otherwise the call
-- throws and there is no command line.
pub build_rlimit_script_iff :
    (v : RlimitValues) (flag : ProcLimitFlag)
    → (build_rlimit_script v flag ≡ ok (render_script (limit_entries v flag)))
      ↔ All IsLimit (limit_entries v flag)
unfolding build_rlimit_script
build_rlimit_script_iff v flag = (
  λ h. assert_limit_values-IsLimit (limit_entries v flag) (ground arith),
  λ h. rw (assert_limit_values_ok (limit_entries v flag) h),
)

entries-IsLimit :
    (r : Resources) (m : Bool) (flag : ProcLimitFlag)
    → floor r.memory_mb * 1024 ≤ 9007199254740991
    → floor r.max_processes + 1024 ≤ 9007199254740991
    → All IsLimit (limit_entries (rlimit_values_from_resources r m) flag)
unfolding limit_entries rlimit_values_from_resources
entries-IsLimit r m flag h k = ground arith

-- For every spawn whose memory and process budgets stay in the safe integers, wrapping succeeds:
-- the shell runs a script that depends on the limits alone, and the command and its arguments follow
-- it verbatim, as positional parameters.
pub wrap_with_rlimit_resources :
    (r : Resources) (m : Bool) (flag : ProcLimitFlag) (command : Text) (args : List Text)
    (shell_path : Text)
    → floor r.memory_mb * 1024 ≤ 9007199254740991
    → floor r.max_processes + 1024 ≤ 9007199254740991
    → wrap_with_rlimit command args (rlimit_values_from_resources r m) flag shell_path
      ≡ ok (
        shell_path,
        codes "-c"
            ∷ render_script (limit_entries (rlimit_values_from_resources r m) flag)
            ∷ command
            ∷ args,
      )
unfolding wrap_with_rlimit
wrap_with_rlimit_resources r m flag command args shell_path h k = rw (
    (build_rlimit_script_iff (rlimit_values_from_resources r m) flag).1
      (entries-IsLimit r m flag h k))
