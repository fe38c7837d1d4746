-- ===== src/Boot/Refines.antt =====
-- The reports of a process refine a fixed choice of verdicts, each of them seen at most once.
use convira_sandbox.Base.{
  ◌≤◌, Bool, true, false, Option, none, some, List, map, ◌≡◌, refl, ◌⊎◌, inl, inr, arith,
}
use convira_sandbox.Boot.Memos.{BootProbe, State, fresh}
use convira_sandbox.Boot.Reports.{Request, serve_all}
use convira_sandbox.Boot.Settled.{runs, IsSettled, IsRemembered}
use convira_sandbox.Boot.Stable.{Agrees}
use convira_sandbox.Boot.Specs.{spec, serve_all-IsStable}

abbrev pub or_false : Option Bool → Bool
or_false none = false
or_false (some b) = b

-- The verdicts that the memos of a state hold.
abbrev pub held : State → BootProbe → Bool
held s k = or_false (s.memos k).cache

module _ (verdict : BootProbe → List BootProbe → Bool) where
  held-Agrees : (s : State) → Agrees verdict (held s) s
  held-Agrees s k b h = ground arith

  fresh-IsSettled : IsSettled verdict fresh
  unfolding runs
  fresh-IsSettled k = (refl, refl)

  -- A verdict that holds is that of a run of its probe.
  abbrev pub IsSeen : BootProbe → Bool → Type 0
  IsSeen k b = (b ≡ false) ⊎ ((history : List BootProbe) × (verdict k history ≡ true))

  remembered-IsSeen :
      (o : Option Bool) (k : BootProbe) (log : List BootProbe)
      → IsRemembered verdict o k log
      → (runs k log ≤ 1) × IsSeen k (or_false o)
  remembered-IsSeen none k log never = (omega (arith, never), inl refl)
  remembered-IsSeen (some false) k log (once, told) = (omega (arith, once), inl refl)
  remembered-IsSeen (some true) k log (once, told) = (omega (arith, once), inr told)

  -- Whatever a process asks of its reports and probes from the start, in whatever order, there is one
  -- choice of verdicts that explains every answer, as if there were no memos; no probe runs more than
  -- once, and a control is chosen as present only if a run of its probe passed.
  pub serve_all-refines :
      (rs : List Request)
      → let (answers, s) = serve_all verdict rs fresh in
        (decided : BootProbe → Bool) × (answers ≡ map (spec decided) rs)
        × ((k : BootProbe) → (runs k s.log ≤ 1) × IsSeen k (decided k))
  serve_all-refines rs =
      let (settled, kept, answers) = serve_all-IsStable verdict rs fresh fresh-IsSettled in
      let s = (serve_all verdict rs fresh).1 in
      (
        held s,
        answers (held s) (held-Agrees s),
        λ k. remembered-IsSeen (s.memos k).cache k s.log (settled k).1,
      )
