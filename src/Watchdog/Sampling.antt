-- ===== src/Watchdog/Sampling.antt =====
-- rss-watchdog.ts: what the sampler makes of rows that `ps` has printed.
use convira_sandbox.Base.{
  ℕ, zero, suc, Bool, true, false, ◌&&◌, some, List, [], ◌∷◌, ◌++◌, ◌≡◌, refl, inl, inr, ◌==◌,
  arith, all, map, filter, All, leb, not, Bool-cases, all-append, append_assoc, sym, ◌∙◌, ap, subst,
}
use mathlib.Core.List.{reverse, reverse-append, reverse-reverse}
use convira_sandbox.Base.Text.{
  Text, IsOneLine, split, split-line, trim, trim_start, is_space, is_digits, ◌===◌,
}
use convira_sandbox.Base.Decimal.{of_decimal}
use convira_sandbox.Watchdog.Rss.{split_spaces, parse_row, row_size, sample_process_group_rss_kb}
use convira_sandbox.Watchdog.Laws.{group_sizes, total_of, sample_rss_lem}

-- A row of `ps -axo pgid=,rss=`: a process group and a resident set in digits, with the spaces before
-- each of them; one space more separates them.
pub record Row : Type 0 where
  pub margin : ℕ
  pub group : Text
  pub gap : ℕ
  pub rss : Text

abbrev pub IsRow : Row → Type 0
IsRow r = (is_digits r.group ≡ true) × (is_digits r.rss ≡ true)

unfoldable pub spaces : ℕ → Text
spaces zero = []
spaces (suc n) = b' ' ∷ spaces n

abbrev columns : Row → Text
columns r = r.group ++ b' ' ∷ (spaces r.gap ++ r.rss)

abbrev pub print_row : Row → Text
print_row r = spaces r.margin ++ columns r

-- The output of `ps`: each row and a newline.
unfoldable pub print_rows : List Row → Text
print_rows [] = []
print_rows (r ∷ rs) = print_row r ++ b'\n' ∷ print_rows rs

abbrev digit : ℕ → Bool
digit c = leb b'0' c && leb c b'9'

trim_start-spaces : (n : ℕ) (s : Text) → trim_start (spaces n ++ s) ≡ trim_start s
unfolding trim_start spaces
trim_start-spaces zero s = refl
trim_start-spaces (suc n) s = trim_start-spaces n s

all-reverse : (s : Text) → all digit s ≡ true → all digit (reverse s) ≡ true
all-reverse [] h = refl
all-reverse (c ∷ s) h = ground (
  arith,
  all-reverse s (ground arith),
  reverse-append (c ∷ []) s,
  all-append digit (reverse s) (c ∷ []),
)

-- A text that begins and ends in a digit is its own trim.
trim_start-digits : (s t : Text) → is_digits s ≡ true → trim_start (s ++ t) ≡ s ++ t
unfolding trim_start is_digits
trim_start-digits [] t h = absurd (cc)
trim_start-digits (c ∷ s) t h = ground arith

is_digits_end : (s : Text) (c : ℕ) → all digit (s ++ c ∷ []) ≡ true → is_digits (s ++ c ∷ []) ≡ true
unfolding is_digits
is_digits_end [] c h = h
is_digits_end (d ∷ s) c h = h

reverse-digits : (s : Text) → is_digits s ≡ true → is_digits (reverse s) ≡ true
unfolding is_digits
reverse-digits [] h = absurd (cc)
reverse-digits (c ∷ s) h =
    let same : reverse (c ∷ s) ≡ reverse s ++ c ∷ [] = reverse-append (c ∷ []) s in
    rw same
      (is_digits_end (reverse s) c (subst (λ t. all digit t ≡ true) same (all-reverse (c ∷ s) h)))

trim_start-reverse :
    (front s : Text) → is_digits s ≡ true → trim_start (reverse (front ++ s)) ≡ reverse (front ++ s)
trim_start-reverse front s h =
    rw (reverse-append front s) (trim_start-digits (reverse s) (reverse front) (reverse-digits s h))

trim-columns : (r : Row) → IsRow r → trim (print_row r) ≡ columns r
unfolding trim trim_start
trim-columns r (group, rss) =
    let whole : columns r ≡ (r.group ++ b' ' ∷ spaces r.gap) ++ r.rss =
      sym (append_assoc r.group (b' ' ∷ spaces r.gap) r.rss) in
    let left : trim_start (print_row r) ≡ columns r =
      trim_start-spaces r.margin (columns r)
      ∙ trim_start-digits r.group (b' ' ∷ (spaces r.gap ++ r.rss)) group in
    let right : trim_start (reverse (columns r)) ≡ reverse (columns r) =
      rw whole (trim_start-reverse (r.group ++ b' ' ∷ spaces r.gap) r.rss rss) in
    ap (λ t. reverse (trim_start (reverse t))) left
    ∙ (ap reverse right ∙ reverse-reverse (columns r))

split_spaces-word : (after : Bool) (s : Text) → is_digits s ≡ true → split_spaces after s ≡ s ∷ []
unfolding split_spaces is_digits
split_spaces-word after [] h = absurd (cc)
split_spaces-word after (c ∷ []) h = ground arith
split_spaces-word after (c ∷ d ∷ s) h = ground (arith, split_spaces-word (is_space c) (d ∷ s))

split_spaces-gap :
    (n : ℕ) (s : Text) → is_digits s ≡ true → split_spaces true (spaces n ++ s) ≡ s ∷ []
unfolding split_spaces spaces
split_spaces-gap zero s h = split_spaces-word true s h
split_spaces-gap (suc n) s h = split_spaces-gap n s h

split_spaces-columns :
    (s t : Text) (words : List Text)
    → all digit s ≡ true
    → split_spaces true t ≡ words
    → split_spaces false (s ++ b' ' ∷ t) ≡ s ∷ words
unfolding split_spaces
split_spaces-columns [] t words h e = ground arith
split_spaces-columns (c ∷ s) t words h e = ground (arith, split_spaces-columns s t words)

all_digits : (s : Text) → is_digits s ≡ true → all digit s ≡ true
unfolding is_digits
all_digits [] h = refl
all_digits (c ∷ s) h = h

begins : (s t : Text) → is_digits s ≡ true → (s ++ t === []) ≡ false
unfolding is_digits ◌===◌
begins [] t h = absurd (cc)
begins (c ∷ s) t h = refl

parse_row-print_row :
    (r : Row)
    → IsRow r
    → parse_row (print_row r) ≡ some (some (of_decimal r.group), some (of_decimal r.rss))
unfolding parse_row
parse_row-print_row r (group, rss) =
    let words =
      split_spaces-columns r.group (spaces r.gap ++ r.rss) (r.rss ∷ []) (all_digits r.group group)
        (split_spaces-gap r.gap r.rss rss) in
    let there = begins r.group (b' ' ∷ (spaces r.gap ++ r.rss)) group in
    rw (trim-columns r (group, rss)) (rw there (rw words (rw group (rw rss refl))))

IsOneLine-spaces : (n : ℕ) → IsOneLine (spaces n)
unfolding spaces
IsOneLine-spaces zero = refl
IsOneLine-spaces (suc n) = IsOneLine-spaces n

IsOneLine-digits : (s : Text) → all digit s ≡ true → IsOneLine s
IsOneLine-digits [] h = refl
IsOneLine-digits (c ∷ s) h = ground (arith, IsOneLine-digits s)

no_sizes : (pgid : ℕ) → group_sizes pgid ([] ∷ []) ≡ []
unfolding row_size parse_row trim trim_start ◌===◌
no_sizes pgid = refl

IsOneLine-row : (r : Row) → IsRow r → IsOneLine (print_row r)
IsOneLine-row r (group, rss) =
    let no_newline = λ (c : ℕ). not (c == b'\n') in
    ground (
      arith,
      all-append no_newline (spaces r.margin) (columns r),
      all-append no_newline r.group (b' ' ∷ (spaces r.gap ++ r.rss)),
      all-append no_newline (spaces r.gap) r.rss,
      IsOneLine-spaces r.margin,
      IsOneLine-spaces r.gap,
      IsOneLine-digits r.group (all_digits r.group group),
      IsOneLine-digits r.rss (all_digits r.rss rss),
    )

-- The sizes of the rows of a group.
abbrev pub sizes_of : ℕ → List Row → List ℕ
sizes_of pgid rs =
    map (λ (r : Row). of_decimal r.rss) (filter (λ (r : Row). of_decimal r.group == pgid) rs)

group_sizes-print_rows :
    (pgid : ℕ) (rs : List Row)
    → All IsRow rs
    → group_sizes pgid (split b'\n' (print_rows rs)) ≡ sizes_of pgid rs
unfolding print_rows row_size split
group_sizes-print_rows pgid [] h = no_sizes pgid
group_sizes-print_rows pgid (r ∷ rs) (row, more) =
    let lines = split-line (print_row r) (print_rows rs) (IsOneLine-row r row) in
    elim (Bool-cases (of_decimal r.group == pgid)) [
      | inl same ↦ rw lines (
          rw (parse_row-print_row r row, group_sizes)
            (rw same (ap (λ n. of_decimal r.rss ∷ n) (group_sizes-print_rows pgid rs more))))
      | inr other ↦ rw lines (
          rw (parse_row-print_row r row, group_sizes)
            (rw other (group_sizes-print_rows pgid rs more)))
    ]

-- Of the rows that `ps` printed, a sample of a process group adds up the resident sets of those with
-- the group's number, however they are padded with spaces; it is nothing when there is none, so an
-- empty read never counts as zero.
pub sample-print_rows :
    (pgid : ℕ) (rs : List Row)
    → All IsRow rs
    → sample_process_group_rss_kb (some (print_rows rs)) pgid ≡ total_of (sizes_of pgid rs)
sample-print_rows pgid rs h =
    sample_rss_lem (print_rows rs) pgid ∙ ap total_of (group_sizes-print_rows pgid rs h)
