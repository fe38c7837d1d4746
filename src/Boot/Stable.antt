-- ===== src/Boot/Stable.antt =====
-- Actions whose answers are explained by the verdicts of any later state.
use convira_sandbox.Base.{Bool, some, List, ◌≡◌, refl, sym, ap, ◌∙◌}
use convira_sandbox.Boot.Memos.{BootProbe, State, Boot, ◌>>=◌, return, ask}
use convira_sandbox.Boot.Settled.{IsSettled, IsKept, ask-IsAsked}

module _ (verdict : BootProbe → List BootProbe → Bool) where
  -- A choice of verdicts that the memos do not contradict.
  abbrev pub Agrees : (BootProbe → Bool) → State → Type 0
  Agrees decided s = (k : BootProbe) (b : Bool) → (s.memos k).cache ≡ some b → decided k ≡ b

  -- From a settled state the action leads to a settled one that keeps all verdicts, and its answer
  -- is what the verdicts of any later state make of it.
  abbrev pub IsStable : {A : Type 0} → Boot A → ((BootProbe → Bool) → A) → Type 0
  IsStable act spec =
      (s : State)
      → IsSettled verdict s
      → IsSettled verdict (act s).1
        × IsKept verdict s (act s).1
        × ((decided : BootProbe → Bool) → Agrees decided (act s).1 → (act s).0 ≡ spec decided)

  pub ask-IsStable : (k : BootProbe) → IsStable (ask verdict k) (λ decided. decided k)
  ask-IsStable k s settled =
      let (settled', kept, there) = ask-IsAsked verdict s k settled in
      (settled', kept, λ decided agrees. sym (agrees k (ask verdict k s).0 there))

  pub return-IsStable : {A : Type 0} (a : A) → IsStable (return a) (λ decided. a)
  return-IsStable a s settled = (settled, (λ k b h. h), λ decided agrees. refl)

  pub bind-IsStable :
      {A B : Type 0} (act : Boot A) (next : A → Boot B) (spec : (BootProbe → Bool) → A)
      (next_spec : (BootProbe → Bool) → A → B)
      → IsStable act spec
      → ((a : A) → IsStable (next a) (λ decided. next_spec decided a))
      → IsStable (act >>= next) (λ decided. next_spec decided (spec decided))
  unfolding ◌>>=◌
  bind-IsStable act next spec next_spec first then_next s settled =
      let (settled', kept, answers) = first s settled in
      let (settled'', kept', answers') = then_next (act s).0 (act s).1 settled' in
      (
        settled'',
        (λ k b h. kept' k b (kept k b h)),
        λ decided agrees.
            answers' decided agrees
            ∙ ap (next_spec decided) (answers decided (λ k b h. agrees k b (kept' k b h))),
      )
