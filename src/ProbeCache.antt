-- ===== src/ProbeCache.antt =====
-- The memo of every boot probe: an override for tests, a cache filled by the first run. The source
-- repeats this pattern in rlimit.ts, probes.ts, rss-watchdog.ts, disk-watchdog.ts,
-- win-job-object.ts and win-appcontainer.ts (packages/sandbox-runtime/src).
pub mod Laws
pub mod Examples
use convira_sandbox.Base.{ℕ, Option, none, some, ◌≡◌, refl}

pub record Cache (A : Type 0) : Type 0 where
  pub cache : Option A
  pub override : Option A

-- `run` is a probe of the host in the state `w`: its verdict and the state that it leaves.
module _ {A W : Type 0} (run : W → A × W) where
  fill : Cache A → W → A × Cache A × W
  fill s w = let (a, w') = run w in (a, record s { cache = some a }, w')

  unfoldable pub probe : Cache A → W → A × Cache A × W
  unfolding fill
  probe s w = elim s.override [
    | some a ↦ (a, s, w)
    | none ↦ elim s.cache [ some a ↦ (a, s, w) | none ↦ fill s w ]
  ]

-- `_setXProbeForTests`.
unfoldable pub set_probe_for_tests : {A : Type 0} → Option A → Cache A → Cache A
set_probe_for_tests result s = record s { override = result }

-- `_resetXProbeCache`.
unfoldable pub reset_probe_cache : {A : Type 0} → Cache A → Cache A
reset_probe_cache s = record { cache = none; override = none }
