-- ===== src/NodePath/Shrinks.antt =====
-- Climbing by `dirname` ends: it reaches its own result or makes the path shorter.
use convira_sandbox.Base.{
  ℕ, suc, ◌≤◌, ◌<◌, ◌≡◌, refl, Bool, ◌||◌, ◌⊎◌, inl, inr, arith, [], ◌∷◌, ◌==◌, if◌then◌else◌,
  length, length-append, Bool-cases,
}
use mathlib.Core.List.{reverse, reverse-cons}
use convira_sandbox.Base.Text.{Text}
use convira_sandbox.NodePath.{dirname, dirname_from, drop_name, skip_slashes}

length-reverse : (s : Text) → length (reverse s) ≡ length s
length-reverse [] = refl
length-reverse (c ∷ s) =
    rw (reverse-cons c s) (omega (arith, length-append (reverse s) (c ∷ []), length-reverse s))

length-drop_name : (s : Text) → length (drop_name s) ≤ length s
unfolding drop_name
length-drop_name [] = omega arith
length-drop_name (c ∷ s) = ground (arith, length-drop_name s)

-- After the slashes at the end a name is dropped, or nothing is left.
length-drop_skip :
    (s : Text)
    → (drop_name (skip_slashes s) ≡ []) ⊎ (suc (length (drop_name (skip_slashes s))) ≤ length s)
unfolding drop_name skip_slashes
length-drop_skip [] = inl refl
length-drop_skip (c ∷ s) = elim (Bool-cases (c == b'/')) [
  | inl slash ↦ rw (slash, skip_slashes) (longer (length-drop_skip s))
  | inr name ↦ inr (rw (name, skip_slashes) (ground (arith, length-drop_name s)))
]
  where
    longer :
        (drop_name (skip_slashes s) ≡ []) ⊎ (suc (length (drop_name (skip_slashes s))) ≤ length s)
        → (drop_name (skip_slashes s) ≡ [])
          ⊎ (suc (length (drop_name (skip_slashes s))) ≤ suc (length s))
    longer (inl e) = inl e
    longer (inr h) = inr (omega arith)

-- How far a path is from a path that is its own directory.
abbrev pub rank : Text → ℕ
rank [] = 2
rank (c ∷ []) = if c == b'/' || c == b'.' then 1 else 2
rank (c ∷ d ∷ s) = suc (suc (suc (length s)))

pub rank-le-length : (s : Text) → rank s ≤ suc (suc (length s))
rank-le-length [] = omega arith
rank-le-length (c ∷ []) = ground arith
rank-le-length (c ∷ d ∷ s) = omega arith

rank_of_pos : (s : Text) → 0 < length s → rank s ≤ suc (length s)
rank_of_pos [] h = absurd (omega arith)
rank_of_pos (c ∷ []) h = ground arith
rank_of_pos (c ∷ d ∷ s) h = omega arith

rank-dirname_from :
    (root : Bool) (r : Text)
    → (rank (dirname_from root r) ≤ 1)
      ⊎ ((2 ≤ length r) × (rank (dirname_from root r) ≤ suc (length r)))
unfolding dirname_from
rank-dirname_from root [] = inl (ground arith)
rank-dirname_from root (d ∷ []) = inl (ground arith)
rank-dirname_from root (d ∷ e ∷ r) =
    inr (omega arith, ground (arith, rank_of_pos (reverse (e ∷ r)), length-reverse (e ∷ r)))

rank-dirname_long : (c d : ℕ) (s : Text) → rank (dirname (c ∷ d ∷ s)) < rank (c ∷ d ∷ s)
unfolding dirname
rank-dirname_long c d s =
    let long = reverse (c ∷ d ∷ s) in
    elim (length-drop_skip long) [
      | inl none_left ↦ rw none_left (small (c == b'/'))
      | inr shorter ↦
          step (rank-dirname_from (c == b'/') (drop_name (skip_slashes long)))
            (omega (arith, length-reverse (c ∷ d ∷ s)))
    ]
  where
    small : (root : Bool) → rank (dirname_from root []) < rank (c ∷ d ∷ s)
    small root = ground (arith, rank-dirname_from root [])

    step :
        {n m : ℕ}
        → (n ≤ 1) ⊎ ((2 ≤ m) × (n ≤ suc m))
        → suc m ≤ suc (suc (length s))
        → n < rank (c ∷ d ∷ s)
    step (inl h) k = omega arith
    step (inr (_, h)) k = omega arith

-- `dirname` of a path is the path itself, or a path of lower rank.
pub rank-dirname : (s : Text) → (dirname s ≡ s) ⊎ (rank (dirname s) < rank s)
unfolding dirname skip_slashes drop_name dirname_from
rank-dirname [] = inr (omega arith)
rank-dirname (c ∷ []) = ground arith
rank-dirname (c ∷ d ∷ s) = inr (rank-dirname_long c d s)

pub rank-pos : (s : Text) → 0 < rank s
rank-pos [] = omega arith
rank-pos (c ∷ []) = ground arith
rank-pos (c ∷ d ∷ s) = omega arith

pub rank-dirname-le : (s : Text) → rank (dirname s) ≤ rank s
rank-dirname-le s = fit (rank-dirname s)
  where
    fit : (dirname s ≡ s) ⊎ (rank (dirname s) < rank s) → rank (dirname s) ≤ rank s
    fit (inl e) = rw e (omega arith)
    fit (inr h) = omega arith
