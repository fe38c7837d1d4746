-- ===== src/Boot/Settled.antt =====
-- What a question to a boot probe may do to settled memos.
use convira_sandbox.Base.{
  ℕ, zero, suc, ◌+◌, Bool, true, false, Option, none, some, List, [], ◌∷◌, ◌≡◌, refl, sym, ap,
  subst, inl, inr, arith, Bool-cases, Option-cases, if◌then◌else◌, ==_iff, ==_refl,
}
use convira_sandbox.ProbeCache.{Cache, probe}
use convira_sandbox.Boot.Memos.{
  BootProbe, handshake, job_kill_tree, job_memory, job_pids, job_cpu_time, app_container_filesystem,
  app_container_network, app_container_spawn_caging, disk_watchdog, rss_watchdog, descendant_kill,
  memory_hard_cap, rlimit_support, number_of, same_probe, State, with_memo, ask,
}

nth : List BootProbe → ℕ → Option BootProbe
nth [] n = none
nth (k ∷ ks) zero = some k
nth (k ∷ ks) (suc n) = nth ks n

abbrev probes_in_order : List BootProbe
probes_in_order =
    handshake ∷ job_kill_tree ∷ job_memory ∷ job_pids ∷ job_cpu_time ∷ app_container_filesystem
    ∷ app_container_network ∷ app_container_spawn_caging ∷ disk_watchdog ∷ rss_watchdog
    ∷ descendant_kill ∷ memory_hard_cap ∷ rlimit_support ∷ []

nth-number_of : (k : BootProbe) → nth probes_in_order (number_of k) ≡ some k
unfolding nth
nth-number_of handshake = refl
nth-number_of job_kill_tree = refl
nth-number_of job_memory = refl
nth-number_of job_pids = refl
nth-number_of job_cpu_time = refl
nth-number_of app_container_filesystem = refl
nth-number_of app_container_network = refl
nth-number_of app_container_spawn_caging = refl
nth-number_of disk_watchdog = refl
nth-number_of rss_watchdog = refl
nth-number_of descendant_kill = refl
nth-number_of memory_hard_cap = refl
nth-number_of rlimit_support = refl

same_probe_sound : (j k : BootProbe) → same_probe j k ≡ true → j ≡ k
same_probe_sound j k h =
    cc (nth-number_of j, nth-number_of k, (==_iff (number_of j) (number_of k)).0 h)

-- How often a probe has run.
unfoldable pub runs : BootProbe → List BootProbe → ℕ
runs k [] = 0
runs k (j ∷ log) = (if same_probe k j then 1 else 0) + runs k log

module _ (verdict : BootProbe → List BootProbe → Bool) where
  -- A memo without a verdict belongs to a probe that has not run; any other holds the verdict of the
  -- one run of its probe.
  abbrev pub IsRemembered : Option Bool → BootProbe → List BootProbe → Type 0
  IsRemembered none k log = runs k log ≡ 0
  IsRemembered (some b) k log =
      (runs k log ≡ 1) × ((history : List BootProbe) × (verdict k history ≡ b))

  abbrev pub IsMemo : Cache Bool → BootProbe → List BootProbe → Type 0
  IsMemo memo k log = (memo.override ≡ none) × IsRemembered memo.cache k log

  abbrev pub IsSettled : State → Type 0
  IsSettled s = (k : BootProbe) → IsMemo (s.memos k) k s.log

  -- Every verdict that was there is still there.
  abbrev pub IsKept : State → State → Type 0
  IsKept s s' =
      (k : BootProbe) (b : Bool) → (s.memos k).cache ≡ some b → (s'.memos k).cache ≡ some b

  other-IsRemembered :
      (o : Option Bool) (j k : BootProbe) (log : List BootProbe)
      → same_probe j k ≡ false
      → IsRemembered o j log
      → IsRemembered o j (k ∷ log)
  unfolding runs
  other-IsRemembered none j k log other h = ground arith
  other-IsRemembered (some b) j k log other (once, told) = (ground arith, told)

  ran-IsRemembered :
      (j k : BootProbe) (log : List BootProbe)
      → same_probe j k ≡ true
      → runs k log ≡ 0
      → IsRemembered (some (verdict k log)) j (k ∷ log)
  unfolding runs
  ran-IsRemembered j k log same never =
      let e = same_probe_sound j k same in (ground arith, (log, ap (λ x. verdict x log) e))

  ask_cached :
      (s : State) (k : BootProbe) (b : Bool)
      → (s.memos k).override ≡ none
      → (s.memos k).cache ≡ some b
      → ask verdict k s ≡ (b, record { memos = with_memo k (s.memos k) s.memos; log = s.log })
  unfolding ask probe
  ask_cached s k b free there = ground arith

  filled : State → BootProbe → State
  filled s k = record {
    memos = with_memo k (record (s.memos k) { cache = some (verdict k s.log) }) s.memos;
    log = k ∷ s.log;
  }

  ask_open :
      (s : State) (k : BootProbe)
      → (s.memos k).override ≡ none
      → (s.memos k).cache ≡ none
      → ask verdict k s ≡ (verdict k s.log, filled s k)
  unfolding ask probe filled
  ask_open s k free open_yet = ground arith

  same_memo : (s : State) (k j : BootProbe) → with_memo k (s.memos k) s.memos j ≡ s.memos j
  same_memo s k j = elim (Bool-cases (same_probe j k)) [
    | inl same ↦ ground (arith, same_probe_sound j k same)
    | inr other ↦ ground arith
  ]

  memo_here :
      (s : State) (k j : BootProbe) (c : Cache Bool)
      → same_probe j k ≡ true
      → c ≡ with_memo k c s.memos j
  memo_here s k j c same = ground arith

  memo_elsewhere :
      (s : State) (k j : BootProbe) (c : Cache Bool)
      → same_probe j k ≡ false
      → s.memos j ≡ with_memo k c s.memos j
  memo_elsewhere s k j c other = ground arith

  filled-IsSettled :
      (s : State) (k : BootProbe) → IsSettled s → (s.memos k).cache ≡ none → IsSettled (filled s k)
  unfolding filled
  filled-IsSettled s k settled open_yet j =
      let fresh_memo = record (s.memos k) { cache = some (verdict k s.log) } in
      elim (Bool-cases (same_probe j k)) [
        | inl same ↦
            let never = subst (λ o. IsRemembered o k s.log) open_yet (settled k).1 in
            subst (λ c. IsMemo c j (k ∷ s.log)) (memo_here s k j fresh_memo same)
              ((settled k).0, ran-IsRemembered j k s.log same never)
        | inr other ↦
            subst (λ c. IsMemo c j (k ∷ s.log)) (memo_elsewhere s k j fresh_memo other)
              ((settled j).0, other-IsRemembered (s.memos j).cache j k s.log other (settled j).1)
      ]

  filled-IsKept : (s : State) (k : BootProbe) → (s.memos k).cache ≡ none → IsKept s (filled s k)
  unfolding filled
  filled-IsKept s k open_yet j b h = elim (Bool-cases (same_probe j k)) [
    | inl same ↦ let e = same_probe_sound j k same in absurd (cc (e, open_yet, h))
    | inr other ↦ ground arith
  ]

  filled_memo : (s : State) (k : BootProbe) → ((filled s k).memos k).cache ≡ some (verdict k s.log)
  unfolding filled
  filled_memo s k = ground (arith, ==_refl (number_of k))

  -- A question answers the verdict that its memo holds from then on.
  abbrev pub IsAsked : State → BootProbe → Bool × State → Type 0
  IsAsked s k (b, s') = IsSettled s' × IsKept s s' × ((s'.memos k).cache ≡ some b)

  ask_cached-IsAsked :
      (s : State) (k : BootProbe) (b : Bool)
      → IsSettled s
      → (s.memos k).cache ≡ some b
      → IsAsked s k (b, record { memos = with_memo k (s.memos k) s.memos; log = s.log })
  ask_cached-IsAsked s k b settled there = (
    λ j. subst (λ c. IsMemo c j s.log) (sym (same_memo s k j)) (settled j),
    λ j a h. cc (same_memo s k j, h),
    cc (same_memo s k k, there),
  )

  pub ask-IsAsked : (s : State) (k : BootProbe) → IsSettled s → IsAsked s k (ask verdict k s)
  ask-IsAsked s k settled = elim (Option-cases (s.memos k).cache) [
    | inl open_yet ↦
        subst (IsAsked s k) (sym (ask_open s k (settled k).0 open_yet))
          (filled-IsSettled s k settled open_yet, filled-IsKept s k open_yet, filled_memo s k)
    | inr (b, there) ↦
        subst (IsAsked s k) (sym (ask_cached s k b (settled k).0 there))
          (ask_cached-IsAsked s k b settled there)
  ]
