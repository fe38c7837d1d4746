-- ===== src/Watchdog/Ticking.antt =====
-- The interval handler that both watchdogs install, and `stop`.
use convira_sandbox.Base.{
  ℕ, suc, Bool, true, false, Option, none, some, List, [], ◌∷◌, ltb, if◌then◌else◌,
}

-- `clearInterval` is the source's second way to stop; the timer fires no more once `stopped` is set.
pub record Watchdog : Type 0 where
  pub stopped : Bool
  pub timer_cleared : Bool
  pub breaches : ℕ

-- What a call of the sampler does: it throws, or it returns a number or `null`.
pub data Sample : Type 0 where
  threw : Sample
  measured : Option ℕ → Sample

pub data Event : Type 0 where
  tick : Sample → Event
  stop : Event

unfoldable pub started : Watchdog
started = record { stopped = false; timer_cleared = false; breaches = 0 }

-- `stop()`.
unfoldable pub stop_watchdog : Watchdog → Watchdog
stop_watchdog w = if w.stopped then w else record w { stopped = true; timer_cleared = true }

-- The value that the handler compares: an exception counts as `null`.
abbrev pub sampled : Sample → Option ℕ
sampled threw = none
sampled (measured value) = value

on_sample : ℕ → Watchdog → Option ℕ → Watchdog
on_sample limit w none = w
on_sample limit w (some value) =
    if ltb limit value
    then (let s = stop_watchdog w in record s { breaches = suc s.breaches })
    else w

-- The interval handler; an exception of `onBreach` is swallowed.
unfoldable pub on_tick : ℕ → Watchdog → Sample → Watchdog
unfolding on_sample stop_watchdog
on_tick limit w sample = if w.stopped then w else on_sample limit w (sampled sample)

unfoldable pub run_events : ℕ → Watchdog → List Event → Watchdog
run_events limit w [] = w
run_events limit w (tick sample ∷ es) = run_events limit (on_tick limit w sample) es
run_events limit w (stop ∷ es) = run_events limit (stop_watchdog w) es
