-- ===== src/ProbeCache/Laws.antt =====
-- The memo runs a probe once and keeps its verdict.
use convira_sandbox.Base.{ℕ, suc, ◌+◌, ◌≤◌, Option, none, some, List, [], ◌∷◌, ◌≡◌, arith}
use convira_sandbox.ProbeCache.{Cache, probe, set_probe_for_tests, reset_probe_cache}

-- What a process may do with one memo.
pub data Use (A : Type 0) : Type 0 where
  ask : Use A
  pin : Option A → Use A
  reset : Use A

-- A host that counts its probe runs.
abbrev pub counted : {A : Type 0} → (ℕ → A) → ℕ → A × ℕ
counted verdict n = (verdict n, suc n)

module _ {A : Type 0} (verdict : ℕ → A) where
  unfoldable pub use_all : List (Use A) → Cache A → ℕ → Cache A × ℕ
  use_all [] s n = (s, n)
  use_all (ask ∷ us) s n = let (a, s', n') = probe (counted verdict) s n in use_all us s' n'
  use_all (pin r ∷ us) s n = use_all us (set_probe_for_tests r s) n
  use_all (reset ∷ us) s n = use_all us (reset_probe_cache s) n

abbrev pub resets : {A : Type 0} → List (Use A) → ℕ
resets [] = 0
resets (reset ∷ us) = suc (resets us)
resets (_ ∷ us) = resets us

-- How many runs a memo may still cost before its next reset.
abbrev due : {A : Type 0} → Option A → ℕ
due none = 1
due (some a) = 0

module _ {A W : Type 0} (run : W → A × W) where
  -- The second of two questions is answered from the memo: the same verdict, with no change of the
  -- host and none of the memo.
  pub probe_again :
      (s : Cache A) (w : W) → let (a, s', w') = probe run s w in probe run s' w' ≡ (a, s', w')
  unfolding probe
  probe_again s w = ground arith

  pub probe_pinned : (s : Cache A) (w : W) (a : A) → s.override ≡ some a → probe run s w ≡ (a, s, w)
  unfolding probe
  probe_pinned s w a h = ground arith

runs_due :
    {A : Type 0} (verdict : ℕ → A) (us : List (Use A)) (s : Cache A) (n : ℕ)
    → (use_all verdict us s n).1 ≤ n + due s.cache + resets us
unfolding use_all probe set_probe_for_tests reset_probe_cache
runs_due verdict [] s n = omega arith
runs_due verdict (ask ∷ us) s n = ground (
  arith,
  runs_due verdict us s n,
  runs_due verdict us (record s { cache = some (verdict n) }) (suc n),
)
runs_due verdict (pin r ∷ us) s n =
    ground (arith, runs_due verdict us (record s { override = r }) n)
runs_due verdict (reset ∷ us) s n =
    ground (arith, runs_due verdict us (record { cache = none; override = none }) n)

-- From an empty memo, any sequence of questions, pins and resets runs the probe at most once more
-- than it resets the memo.
pub use_all-runs :
    {A : Type 0} (verdict : ℕ → A) (us : List (Use A)) (n : ℕ)
    → (use_all verdict us (record { cache = none; override = none }) n).1 ≤ n + suc (resets us)
use_all-runs verdict us n =
    omega (arith, runs_due verdict us (record { cache = none; override = none }) n)
