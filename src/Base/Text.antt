-- ===== src/Base/Text.antt =====
-- Strings as lists of code points, with the string operations of the source that walk a text.
use Prim.Native.Nat.{ℕ, ◌+◌}
use Prim.Native.Char.{code}
use Prim.Native.String.{String}
use mathlib.Core.Path.{◌≡◌, refl, ap}
use mathlib.Core.Bool.{Bool, true, false, not, ◌&&◌, ◌||◌}
use mathlib.Core.Option.{Option, none, some}
use mathlib.Core.List.{List, [], ◌∷◌, ◌++◌, map, reverse, append_assoc}
use native.Mathlib.Omega.{arith}
use convira_sandbox.Base.Tests.{leb, ◌==◌, if◌then◌else◌, ==_iff, ==_refl, ==_sym, and_true}
use convira_sandbox.Base.Lists.{all}

abbrev pub Text : Type 0
Text = List ℕ

-- The code points of a literal.
abbrev pub codes : String → Text
codes String.[] = []
codes (String.◌∷◌ c s) = code c ∷ codes s

-- `a === b` on strings.
infix 50 ◌===◌
unfoldable pub ◌===◌ : Text → Text → Bool
[] === [] = true
[] === (d ∷ t) = false
(c ∷ s) === [] = false
(c ∷ s) === (d ∷ t) = c == d && s === t

pub ===_refl : (s : Text) → (s === s) ≡ true
unfolding ◌===◌
===_refl [] = refl
===_refl (c ∷ s) = ground (arith, ==_refl c, ===_refl s)

pub ===_sym : (s t : Text) → (s === t) ≡ (t === s)
unfolding ◌===◌
===_sym [] [] = refl
===_sym [] (d ∷ t) = refl
===_sym (c ∷ s) [] = refl
===_sym (c ∷ s) (d ∷ t) = rw (===_sym s t) (ap (λ b. b && (t === s)) (==_sym c d))

pub ===_sound : (s t : Text) → (s === t) ≡ true → s ≡ t
unfolding ◌===◌
===_sound [] [] h = refl
===_sound [] (d ∷ t) h = cc
===_sound (c ∷ s) [] h = cc
===_sound (c ∷ s) (d ∷ t) h =
    let (here, later) = and_true (c == d) (s === t) h in
    cc ((==_iff c d).0 here, ===_sound s t later)

-- `s.startsWith(q)`.
unfoldable pub starts_with : Text → Text → Bool
starts_with s [] = true
starts_with [] (d ∷ q) = false
starts_with (c ∷ s) (d ∷ q) = c == d && starts_with s q

pub starts_with-append : (q r : Text) → starts_with (q ++ r) q ≡ true
unfolding starts_with
starts_with-append [] r = refl
starts_with-append (c ∷ q) r = ground (arith, ==_refl c, starts_with-append q r)

pub starts_with_rest : (s q : Text) → starts_with s q ≡ true → (r : Text) × (s ≡ q ++ r)
unfolding starts_with
starts_with_rest s [] h = (s, refl)
starts_with_rest [] (d ∷ q) h = absurd (cc)
starts_with_rest (c ∷ s) (d ∷ q) h =
    let (here, later) = and_true (c == d) (starts_with s q) h in
    let (r, e) = starts_with_rest s q later in (r, cc ((==_iff c d).0 here))

pub starts_with_trans :
    (s q r : Text) → starts_with s q ≡ true → starts_with q r ≡ true → starts_with s r ≡ true
starts_with_trans s q r h k =
    let (u, e) = starts_with_rest s q h in
    let (v, d) = starts_with_rest q r k in
    rw e (rw d (rw append_assoc (starts_with-append r (v ++ u))))

-- `list.includes(s)` and `set.has(s)`.
unfoldable pub includes : List Text → Text → Bool
includes [] s = false
includes (t ∷ ts) s = t === s || includes ts s

-- `s.endsWith(q)`.
unfoldable pub ends_with : Text → Text → Bool
ends_with s q = starts_with (reverse s) (reverse q)

-- `s.indexOf(c)` at one character, as what stands before it and after it.
unfoldable pub split_at : ℕ → Text → Option (Text × Text)
split_at d [] = none
split_at d (c ∷ s) =
    let rest = split_at d s in
    if c == d
    then some ([], s)
    else elim rest [ none ↦ none | some (before, after) ↦ some (c ∷ before, after) ]

-- `s.split(d)` at one character.
unfoldable pub split : ℕ → Text → List Text
split d [] = [] ∷ []
split d (c ∷ s) =
    let rest = split d s in
    if c == d
    then [] ∷ rest
    else elim rest [ [] ↦ (c ∷ []) ∷ [] | first ∷ others ↦ (c ∷ first) ∷ others ]

-- A text without a newline is the first line of what begins with it and a newline.
abbrev pub IsOneLine : Text → Type 0
IsOneLine p = all (λ c. not (c == b'\n')) p ≡ true

pub split-line : (l s : Text) → IsOneLine l → split b'\n' (l ++ b'\n' ∷ s) ≡ l ∷ split b'\n' s
unfolding split
split-line [] s h = refl
split-line (c ∷ l) s h = ground (arith, split-line l s)

-- `lines.join(d)` with a separator.
unfoldable pub join : Text → List Text → Text
join d [] = []
join d (t ∷ []) = t
join d (t ∷ u ∷ ts) = t ++ d ++ join d (u ∷ ts)

abbrev pub is_space : ℕ → Bool
is_space c = (leb 9 c && leb c 13) || c == 32

unfoldable pub trim_start : Text → Text
trim_start [] = []
trim_start (c ∷ s) = if is_space c then trim_start s else c ∷ s

-- `s.trim()` over ASCII white space.
unfoldable pub trim : Text → Text
unfolding trim_start
trim s = reverse (trim_start (reverse (trim_start s)))

-- `s.toLowerCase()` over ASCII.
unfoldable pub to_lower : Text → Text
to_lower s = map (λ c. if leb b'A' c && leb c b'Z' then c + 32 else c) s

-- `/^\d+$/.test(s)`.
unfoldable pub is_digits : Text → Bool
is_digits [] = false
is_digits (c ∷ s) = all (λ d. leb b'0' d && leb d b'9') (c ∷ s)

pub includes-append :
    (xs ys : List Text) (s : Text) → includes (xs ++ ys) s ≡ (includes xs s || includes ys s)
unfolding includes
includes-append [] ys s = refl
includes-append (x ∷ xs) ys s = ground (arith, includes-append xs ys s)

pub includes_same : (xs : List Text) (a b : Text) → (a === b) ≡ true → includes xs a ≡ includes xs b
includes_same xs a b h = ap (includes xs) (===_sound a b h)
