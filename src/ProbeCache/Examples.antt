-- ===== src/ProbeCache/Examples.antt =====
-- The memo on a probe that counts its runs.
use convira_sandbox.Base.{ℕ, ◌≤◌, ◌+◌, suc, none, some, List, [], ◌∷◌, ◌≡◌, refl}
use convira_sandbox.ProbeCache.{Cache, probe, set_probe_for_tests, reset_probe_cache}
use convira_sandbox.ProbeCache.Laws.{Use, ask, pin, reset, use_all, resets, use_all-runs}

abbrev uses : List (Use ℕ)
uses = ask ∷ ask ∷ pin (some 9) ∷ ask ∷ reset ∷ ask ∷ ask ∷ []

abbrev empty : Cache ℕ
empty = record { cache = none; override = none }

two_runs : (use_all (λ n. n) uses empty 0).1 ≡ 2
unfolding use_all probe set_probe_for_tests reset_probe_cache
two_runs = refl

use_all-runs_example : (use_all (λ n. n) uses empty 0).1 ≤ 0 + suc (resets uses)
use_all-runs_example = use_all-runs (λ n. n) uses 0
