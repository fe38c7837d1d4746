-- ===== src/BuildLock/Exclusive.antt =====
-- The build lock excludes, as long as no process is taken for dead.
use convira_sandbox.Base.{
  ℕ, Bool, true, false, ◌≡◌, refl, sym, ap, ◌∙◌, ◌&&◌, ◌==◌, ==_iff, arith, Bool-cases, inl, inr,
}
use convira_sandbox.BuildLock.{
  Phase, claimed, working, removing, left, Lock, free, unowned, owned, Builds, move, Sight,
  is_orphan, Step, claim, write_owner, lose_owner, finish, judge, remove, time_out, kill, Reach,
  here, next, at_start,
}

-- Between `mkdir` and the `finally` block.
abbrev pub is_inside : Phase → Bool
is_inside claimed = true
is_inside working = true
is_inside _ = false

abbrev is_removing : Phase → Bool
is_removing removing = true
is_removing _ = false

-- A free lock has nobody inside, two processes inside are one, and nobody removes a lock.
record IsExclusive (s : Builds) : Type 0 where
  empty : (p : ℕ) → s.lock ≡ free → is_inside (s.phase p) ≡ false
  single : (p q : ℕ) → is_inside (s.phase p) ≡ true → is_inside (s.phase q) ≡ true → p ≡ q
  calm : (p : ℕ) → is_removing (s.phase p) ≡ false

-- No process is taken for dead, and no lock for an orphan of old age.
abbrev pub IsTrusting : Sight → Type 0
IsTrusting sight = ((p : ℕ) → sight.is_dead p ≡ false) × (sight.is_old ≡ false)

not_orphan : (sight : Sight) (lock : Lock) → IsTrusting sight → is_orphan sight lock ≡ false
not_orphan sight free h = refl
not_orphan sight unowned (alive, young) = young
not_orphan sight (owned q) (alive, young) = alive q

-- Who is inside after a move was inside before, where the moved process may only stay.
inside_before :
    (s : Builds) (p : ℕ) (new : Phase) (lock : Lock) (q : ℕ)
    → is_inside new ≡ is_inside new && is_inside (s.phase p)
    → is_inside ((move p new lock s).phase q) ≡ true
    → is_inside (s.phase q) ≡ true
inside_before s p new lock q stays h = elim (Bool-cases (q == p)) [
  | inl same ↦ let e = (==_iff q p).0 same in ground (arith, ap s.phase e)
  | inr other ↦ ground arith
]

removing_before :
    (s : Builds) (p : ℕ) (new : Phase) (lock : Lock) (q : ℕ)
    → IsExclusive s
    → is_removing new ≡ false
    → is_removing ((move p new lock s).phase q) ≡ false
removing_before s p new lock q h calm = elim (Bool-cases (q == p)) [
  | inl same ↦ ground arith
  | inr other ↦ let before = h.calm q in ground arith
]

stay-IsExclusive :
    (s : Builds) (p : ℕ) (new : Phase) (lock : Lock)
    → IsExclusive s
    → is_inside new ≡ is_inside new && is_inside (s.phase p)
    → is_removing new ≡ false
    → ((q : ℕ) → lock ≡ free → is_inside ((move p new lock s).phase q) ≡ false)
    → IsExclusive (move p new lock s)
stay-IsExclusive s p new lock h stays calm empty = record {
  empty = empty;
  single = λ q r a b.
      h.single q r (inside_before s p new lock q stays a) (inside_before s p new lock r stays b);
  calm = λ q. removing_before s p new lock q h calm;
}

-- From a free lock, whoever is inside after a claim is the claimer.
claimed_alone :
    (s : Builds) (p : ℕ) (q : ℕ)
    → s.lock ≡ free
    → IsExclusive s
    → is_inside ((move p claimed unowned s).phase q) ≡ true
    → q ≡ p
claimed_alone s p q open_yet h inside = elim (Bool-cases (q == p)) [
  | inl same ↦ (==_iff q p).0 same
  | inr other ↦ let before = h.empty q open_yet in absurd (ground arith)
]

claim-IsExclusive :
    (s : Builds) (p : ℕ) → s.lock ≡ free → IsExclusive s → IsExclusive (move p claimed unowned s)
claim-IsExclusive s p open_yet h = record {
  empty = λ q e. absurd (cc);
  single = λ q r a b. claimed_alone s p q open_yet h a ∙ sym (claimed_alone s p r open_yet h b);
  calm = λ q. removing_before s p claimed unowned q h refl;
}

-- Where the one process inside leaves, nobody is inside.
left_empty :
    (s : Builds) (p q : ℕ)
    → IsExclusive s
    → is_inside (s.phase p) ≡ true
    → is_inside ((move p left free s).phase q) ≡ false
left_empty s p q h inside = elim (Bool-cases (q == p)) [
  | inl same ↦ ground arith
  | inr other ↦ elim (Bool-cases (is_inside (s.phase q))) [
    | inl two ↦ let e = h.single q p two inside in absurd (ground (arith, (==_iff q p).1 e))
    | inr one ↦ ground arith
  ]
]

leave-IsExclusive :
    (s : Builds) (p : ℕ)
    → IsExclusive s
    → is_inside (s.phase p) ≡ true
    → IsExclusive (move p left free s)
leave-IsExclusive s p h inside =
    stay-IsExclusive s p left free h refl refl (λ q e. left_empty s p q h inside)

out_empty :
    (s : Builds) (p q : ℕ)
    → IsExclusive s
    → s.lock ≡ free
    → is_inside ((move p left s.lock s).phase q) ≡ false
out_empty s p q h e = elim (Bool-cases (q == p)) [
  | inl same ↦ ground arith
  | inr other ↦ let before = h.empty q e in ground arith
]

step-IsExclusive :
    (sight : Sight) {s t : Builds}
    → IsTrusting sight
    → Step sight s t
    → IsExclusive s
    → IsExclusive t
step-IsExclusive sight trust (claim s p here_yet open_yet) h = claim-IsExclusive s p open_yet h
step-IsExclusive sight trust (write_owner s p at held) h =
    stay-IsExclusive s p working (owned p) h (ground arith) refl (λ q e. absurd (cc))
step-IsExclusive sight trust (lose_owner s p at open_yet) h = leave-IsExclusive s p h (ground arith)
step-IsExclusive sight trust (finish s p at) h = leave-IsExclusive s p h (ground arith)
step-IsExclusive sight trust (judge s p at orphan) h =
    absurd (cc (not_orphan sight s.lock trust, orphan))
step-IsExclusive sight trust (remove s p at) h = let calm = h.calm p in absurd (ground arith)
step-IsExclusive sight trust (time_out s p at) h =
    stay-IsExclusive s p left s.lock h refl refl (λ q e. out_empty s p q h e)
step-IsExclusive sight trust (kill s p) h =
    stay-IsExclusive s p left s.lock h refl refl (λ q e. out_empty s p q h e)

reach-IsExclusive :
    (sight : Sight) {s t : Builds}
    → IsTrusting sight
    → Reach sight s t
    → IsExclusive s
    → IsExclusive t
reach-IsExclusive sight trust here h = h
reach-IsExclusive sight trust (next r step) h =
    step-IsExclusive sight trust step (reach-IsExclusive sight trust r h)

start-IsExclusive : IsExclusive at_start
start-IsExclusive = record {
  empty = λ p e. refl;
  single = λ p q a b. absurd (cc);
  calm = λ p. refl;
}

-- In whatever order the builds of one lock take their steps, two processes that are inside their task
-- are the same one, as long as no process is taken for dead and no lock for an orphan.
pub reach-excludes :
    (sight : Sight) (s : Builds) (p q : ℕ)
    → ((r : ℕ) → sight.is_dead r ≡ false)
    → sight.is_old ≡ false
    → Reach sight at_start s
    → s.phase p ≡ working
    → s.phase q ≡ working
    → p ≡ q
reach-excludes sight s p q alive young run first second =
    let h = reach-IsExclusive sight (alive, young) run start-IsExclusive in
    h.single p q (ground arith) (ground arith)
