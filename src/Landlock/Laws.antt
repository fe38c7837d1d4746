-- ===== src/Landlock/Laws.antt =====
-- landlock.ts and enforcer.ts: the calls made, the accesses of the rules, and the combined result.
use convira_sandbox.Base.{
  ℕ, ◌≤◌, Bool, true, some, List, [], ◌∷◌, ◌++◌, ◌≡◌, inl, inr, ◌↔◌, ◌==◌, arith, any, All,
  Bool-cases,
}
use convira_sandbox.Base.Text.{Text, includes}
use convira_sandbox.Base.Result.{ok, Result-cases}
use convira_sandbox.Types.{LandlockRuleset}
use convira_sandbox.Landlock.Ruleset.{
  Access, execute, write_file, read_file, read_dir, remove_dir, remove_file, make_char, make_dir,
  make_reg, make_sock, make_fifo, make_block, make_sym, refer, truncate, KernelCall, create_ruleset,
  add_rule, restrict_self, Kernel, is_landlock_supported, build_handled_access_flags, read_access,
  write_access, resolve_path, apply_landlock_ruleset,
}
use convira_sandbox.Landlock.Hardening.{harden_landlock}

-- A rule for a listed path that resolves to its path, with these accesses.
abbrev pub IsRuleOf : Kernel → List Access → List Text → KernelCall → Type 0
IsRuleOf kernel accesses ps (add_rule real given) =
    (p : Text) × (includes ps p ≡ true) × (resolve_path kernel p ≡ some real) × (given ≡ accesses)
IsRuleOf kernel accesses ps (create_ruleset given) = ⊥
IsRuleOf kernel accesses ps restrict_self = ⊥

-- The calls of a ruleset that was applied.
abbrev pub IsApplied : Kernel → LandlockRuleset → List KernelCall → Type 0
IsApplied kernel asked calls =
    (abi : ℕ) × (kernel.abi ≡ some abi)
    × (1 ≤ abi)
    × (reads : List KernelCall) × (All (IsRuleOf kernel read_access asked.read_only) reads)
    × (writes : List KernelCall) × (All (IsRuleOf kernel (write_access abi) asked.read_write)
        writes)
    × (calls
        ≡ create_ruleset (build_handled_access_flags abi)
          ∷ (reads ++ (writes ++ restrict_self ∷ [])))

-- The file system accesses that Landlock has up to its version 5: the ones of the code, and
-- LANDLOCK_ACCESS_FS_IOCTL_DEV, which the code does not name.
pub data KernelAccess : Type 0 where
  named : Access → KernelAccess
  ioctl_dev : KernelAccess

-- The position of the bit of an access.
abbrev pub number : Access → ℕ
number execute = 0
number write_file = 1
number read_file = 2
number read_dir = 3
number remove_dir = 4
number remove_file = 5
number make_char = 6
number make_dir = 7
number make_reg = 8
number make_sock = 9
number make_fifo = 10
number make_block = 11
number make_sym = 12
number refer = 13
number truncate = 14

abbrev pub bit : KernelAccess → ℕ
bit (named x) = number x
bit ioctl_dev = 15

-- The version that brought an access of the code.
abbrev pub since : Access → ℕ
since refer = 2
since truncate = 3
since execute = 1
since write_file = 1
since read_file = 1
since read_dir = 1
since remove_dir = 1
since remove_file = 1
since make_char = 1
since make_dir = 1
since make_reg = 1
since make_sock = 1
since make_fifo = 1
since make_block = 1
since make_sym = 1

-- The version of Landlock that brought an access.
abbrev pub brought_by : KernelAccess → ℕ
brought_by (named x) = since x
brought_by ioctl_dev = 5

-- Whether a set of bits has an access.
abbrev pub has : List Access → KernelAccess → Bool
has accesses x = any (λ y. number y == bit x) accesses

-- The result says that Landlock was applied exactly when a ruleset was asked for, Landlock is
-- supported and applying it returned.
pub hardened_iff :
    (kernel : Kernel) (asked : LandlockRuleset)
    → ((harden_landlock kernel (some asked)).applied ≡ true
        ↔ (is_landlock_supported kernel ≡ true)
          × ((calls : List KernelCall) × (apply_landlock_ruleset kernel asked ≡ ok calls)))
unfolding harden_landlock
hardened_iff kernel asked = elim (Bool-cases (is_landlock_supported kernel)) [
  | inl supported ↦ elim (Result-cases (apply_landlock_ruleset kernel asked)) [
    | inl (calls, done) ↦ (λ h. (supported, (calls, done)), λ k. ground arith)
    | inr (message, failed) ↦ (λ h. absurd (ground arith), λ k. absurd (cc (k.1.1)))
  ]
  | inr unsupported ↦ (λ h. absurd (ground arith), λ k. absurd (cc (k.0)))
]
