-- ===== src/AppContainer/Containing.antt =====
-- An independent description of which paths lie inside a granted one, and how the test of
-- win-appcontainer.ts relates to it.
use convira_sandbox.Base.{
  ℕ, Bool, true, false, ◌&&◌, ◌||◌, none, List, [], ◌∷◌, ◌++◌, ◌≡◌, refl, ◌⊎◌, inl, inr, ◌==◌,
  arith, any, find, All, Bool-cases, if◌then◌else◌,
}
use convira_sandbox.Base.Text.{Text, codes, ◌===◌, starts_with, to_lower}
use convira_sandbox.DenyLeafKind.{strip_trailing_separators}
use convira_sandbox.AppContainer.Grants.{is_path_within}

abbrev separates : ℕ → Bool
separates c = c == b'\\' || c == b'/'

add_char : ℕ → List Text → List Text
add_char c [] = (c ∷ []) ∷ []
add_char c (first ∷ others) = (c ∷ first) ∷ others

-- The components of a path, between separators of either kind.
unfoldable pub components : Text → List Text
unfolding add_char
components [] = [] ∷ []
components (c ∷ s) = let rest = components s in if separates c then [] ∷ rest else add_char c rest

unfoldable pub is_prefix : List Text → List Text → Bool
is_prefix [] ys = true
is_prefix (x ∷ xs) [] = false
is_prefix (x ∷ xs) (y ∷ ys) = x === y && is_prefix xs ys

-- A path without its case and its trailing separators.
abbrev pub folded : Text → Text
folded p = to_lower (strip_trailing_separators p)

-- The components of a grant begin those of a path that lies inside it.
unfoldable pub contains : Text → Text → Bool
contains grant p = is_prefix (components (folded grant)) (components (folded p))

-- A path that is spelled with a forward slash somewhere before its end.
abbrev pub has_slash : Text → Bool
has_slash s = any (λ c. c == b'/') s

components_lem :
    (s : Text) → (first : Text) × (others : List Text) × (components s ≡ first ∷ others)
unfolding components
components_lem [] = ([], [], refl)
components_lem (c ∷ s) =
    let (first, others, e) = components_lem s in
    elim (Bool-cases (separates c)) [
      | inl here ↦ ([], components s, rw here refl)
      | inr other ↦ (c ∷ first, others, rw other (rw e refl))
    ]

-- Where only backslashes separate, a prefix of the components is a prefix of the text.
prefix_lem :
    (w s : Text)
    → has_slash w ≡ false
    → has_slash s ≡ false
    → is_prefix (components w) (components s) ≡ true
    → (s === w || starts_with s (w ++ codes "\\")) ≡ true
unfolding components is_prefix ◌===◌ starts_with
prefix_lem [] [] h k e = refl
prefix_lem [] (c ∷ s) h k e =
    let (first, others, parts) = components_lem s in
    elim (Bool-cases (separates c)) [
      | inl here ↦ ground arith
      | inr other ↦ absurd (ground (arith, parts))
    ]
prefix_lem (d ∷ w) [] h k e =
    let (first, others, parts) = components_lem w in
    elim (Bool-cases (separates d)) [
      | inl here ↦ absurd (ground (arith, parts))
      | inr other ↦ absurd (ground (arith, parts))
    ]
prefix_lem (d ∷ w) (c ∷ s) h k e =
    let (first, others, parts) = components_lem w in
    let (head, tail, pieces) = components_lem s in
    elim (Bool-cases (separates d)) [
      | inl here ↦ elim (Bool-cases (separates c)) [
        | inl there ↦ ground (arith, prefix_lem w s (ground arith) (ground arith) (ground arith))
        | inr not_there ↦ absurd (ground (arith, pieces))
      ]
      | inr other ↦ elim (Bool-cases (separates c)) [
        | inl there ↦ absurd (ground (arith, parts))
        | inr not_there ↦
            ground
              (arith, prefix_lem w s (ground arith) (ground arith) (ground (arith, parts, pieces)))
      ]
    ]

-- The test of the code misses no path inside a grant, where neither is spelled with a forward slash.
is_path_within_lem :
    (p grant : Text)
    → is_path_within p grant ≡ false
    → ((has_slash (folded grant) || has_slash (folded p)) ≡ true) ⊎ (contains grant p ≡ false)
unfolding is_path_within contains
is_path_within_lem p grant h =
    elim (Bool-cases (has_slash (folded grant) || has_slash (folded p))) [
      | inl slash ↦ inl slash
      | inr plain ↦
          elim (Bool-cases (is_prefix (components (folded grant)) (components (folded p)))) [
            | inr outside ↦ inr outside
            | inl inside ↦ absurd (
                ground (
                  arith,
                  prefix_lem (folded grant) (folded p) (ground arith) (ground arith) inside,
                ))
          ]
    ]

-- A path is outside every grant, as far as both are spelled without forward slashes.
abbrev pub IsOutside : List Text → Text → Type 0
IsOutside granted p =
    All
      (λ grant.
        ((has_slash (folded grant) || has_slash (folded p)) ≡ true) ⊎ (contains grant p ≡ false))
      granted

pub find-IsOutside :
    (p : Text) (granted : List Text) → find (is_path_within p) granted ≡ none → IsOutside granted p
find-IsOutside p [] h = tt
find-IsOutside p (grant ∷ granted) h = elim (Bool-cases (is_path_within p grant)) [
  | inl inside ↦ absurd (ground arith)
  | inr outside ↦ (is_path_within_lem p grant outside, find-IsOutside p granted (ground arith))
]
