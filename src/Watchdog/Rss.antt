-- ===== src/Watchdog/Rss.antt =====
-- rss-watchdog.ts: the sampler over the output of `ps`, and the watchdog of a process group.
use convira_sandbox.Base.{
  ℕ, ◌+◌, ◌*◌, Bool, true, false, Option, none, some, List, [], ◌∷◌, ◌==◌, if◌then◌else◌,
}
use convira_sandbox.Base.Text.{Text, ◌===◌, split, trim, is_digits, is_space}
use convira_sandbox.Base.Decimal.{of_decimal}
use convira_sandbox.Watchdog.Ticking.{Watchdog, Event, started, run_events}

add_char : ℕ → List Text → List Text
add_char c [] = (c ∷ []) ∷ []
add_char c (w ∷ ws) = (c ∷ w) ∷ ws

-- `trimmed.split(/\s+/)`: a run of white space is one separator. The flag says whether the
-- character before was white space.
unfoldable pub split_spaces : Bool → Text → List Text
unfolding add_char
split_spaces after_space [] = [] ∷ []
split_spaces after_space (c ∷ s) =
    let rest = split_spaces (is_space c) s in
    if is_space c then (if after_space then rest else [] ∷ rest) else add_char c rest

-- `Number(text)`, where the text is a decimal natural number; any other text counts as NaN.
abbrev pub number : Text → Option ℕ
number text = if is_digits text then some (of_decimal text) else none

-- The process group and the resident set of one line of `ps -axo pgid=,rss=`.
row_of : List Text → Option (Option ℕ × Option ℕ)
row_of [] = none
row_of (a ∷ []) = none
row_of (a ∷ b ∷ _) = some (number a, number b)

unfoldable pub parse_row : Text → Option (Option ℕ × Option ℕ)
unfolding row_of
parse_row line =
    let trimmed = trim line in if trimmed === [] then none else row_of (split_spaces false trimmed)

-- What a row adds for the group: its size, if the group is the one asked for.
unfoldable pub row_size : ℕ → Option (Option ℕ × Option ℕ) → Option ℕ
row_size pgid (some (some group, some rss)) = if group == pgid then some rss else none
row_size pgid _ = none

-- The loop over the lines with `total` and `matched`.
unfoldable pub sum_rows : ℕ → ℕ → Bool → List Text → Option ℕ
sum_rows pgid total matched [] = if matched then some total else none
sum_rows pgid total matched (line ∷ lines) = elim (row_size pgid (parse_row line)) [
  | none ↦ sum_rows pgid total matched lines
  | some rss ↦ sum_rows pgid (total + rss) true lines
]

-- `out` is the standard output of `ps`, or nothing when the call throws.
unfoldable pub sample_process_group_rss_kb : Option Text → ℕ → Option ℕ
sample_process_group_rss_kb none pgid = none
sample_process_group_rss_kb (some out) pgid = sum_rows pgid 0 false (split b'\n' out)

abbrev pub limit_kb : ℕ → ℕ
limit_kb limit_mb = limit_mb * 1024

-- A watchdog from its start through a sequence of ticks and stops.
unfoldable pub start_rss_group_watchdog : ℕ → List Event → Watchdog
start_rss_group_watchdog limit_mb events = run_events (limit_kb limit_mb) started events
