-- ===== src/Watchdog/Laws.antt =====
-- A watchdog fires once, at the first sample over its budget, and never after a stop.
use convira_sandbox.Base.{
  ℕ, ◌+◌, ◌*◌, Bool, true, false, ◌||◌, Option, none, some, List, [], ◌∷◌, ◌++◌, ◌≡◌, refl, arith,
  ltb, if◌then◌else◌, Option-cases, inl, inr,
}
use convira_sandbox.Base.Text.{Text, split}
use convira_sandbox.Watchdog.Ticking.{
  Watchdog, Sample, threw, measured, Event, tick, stop, started, stop_watchdog, on_tick, run_events,
}
use convira_sandbox.Watchdog.Rss.{
  parse_row, row_size, sum_rows, sample_process_group_rss_kb, start_rss_group_watchdog,
}
use convira_sandbox.Watchdog.Disk.{
  Directory, unreadable, listing, Entries, nil, subdirectory, regular, other, or_zero,
  sample_directory_bytes, sum_entries, start_disk_write_watchdog,
}

abbrev pub exceeds : ℕ → Sample → Bool
exceeds limit threw = false
exceeds limit (measured none) = false
exceeds limit (measured (some value)) = ltb limit value

-- Whether a sample over the limit is taken before the first stop.
abbrev pub overruns : ℕ → List Event → Bool
overruns limit [] = false
overruns limit (stop ∷ es) = false
overruns limit (tick sample ∷ es) = exceeds limit sample || overruns limit es

run_stopped :
    (limit : ℕ) (w : Watchdog) (es : List Event) → w.stopped ≡ true → run_events limit w es ≡ w
unfolding run_events on_tick stop_watchdog
run_stopped limit w [] h = refl
run_stopped limit w (tick sample ∷ es) h = ground (arith, run_stopped limit w es h)
run_stopped limit w (stop ∷ es) h = ground (arith, run_stopped limit w es h)

run_live :
    (limit : ℕ) (es : List Event)
    → (run_events limit started es).breaches ≡ (if overruns limit es then 1 else 0)
unfolding run_events on_tick stop_watchdog started
run_live limit [] = refl
run_live limit (stop ∷ es) = ground (
  arith,
  run_stopped limit (record { stopped = true; timer_cleared = true; breaches = 0 }) es refl,
)
run_live limit (tick threw ∷ es) = run_live limit es
run_live limit (tick (measured none) ∷ es) = run_live limit es
run_live limit (tick (measured (some value)) ∷ es) = ground (
  arith,
  run_stopped limit (record { stopped = true; timer_cleared = true; breaches = 1 }) es refl,
  run_live limit es,
)

-- The memory watchdog calls `onBreach` once if a sample above the budget (in MiB, against samples in
-- KiB) is taken before the first stop, and never otherwise.
pub rss_watchdog-breaches :
    (limit_mb : ℕ) (es : List Event)
    → (start_rss_group_watchdog limit_mb es).breaches
      ≡ (if overruns (limit_mb * 1024) es then 1 else 0)
unfolding start_rss_group_watchdog
rss_watchdog-breaches limit_mb es = run_live (limit_mb * 1024) es

-- The disk watchdog calls `onBreach` once if a sample above the budget (in MiB, against samples in
-- bytes) is taken before the first stop, and never otherwise.
pub disk_watchdog-breaches :
    (limit_mb : ℕ) (es : List Event)
    → (start_disk_write_watchdog limit_mb es).breaches
      ≡ (if overruns (limit_mb * 1048576) es then 1 else 0)
unfolding start_disk_write_watchdog
disk_watchdog-breaches limit_mb es =
    let same : limit_mb * 1024 * 1024 ≡ limit_mb * 1048576 = omega arith in
    rw same (run_live (limit_mb * 1048576) es)

-- The sizes of the rows of a process group.
abbrev pub group_sizes : ℕ → List Text → List ℕ
group_sizes pgid [] = []
group_sizes pgid (line ∷ lines) = elim (row_size pgid (parse_row line)) [
  | none ↦ group_sizes pgid lines
  | some rss ↦ rss ∷ group_sizes pgid lines
]

abbrev pub sum : List ℕ → ℕ
sum [] = 0
sum (n ∷ ns) = n + sum ns

-- The sum of a list of sizes, or nothing for no size at all.
abbrev pub total_of : List ℕ → Option ℕ
total_of [] = none
total_of (n ∷ ns) = some (sum (n ∷ ns))

sum_rows_matched :
    (pgid total : ℕ) (lines : List Text)
    → sum_rows pgid total true lines ≡ some (total + sum (group_sizes pgid lines))
unfolding sum_rows
sum_rows_matched pgid total [] = ground arith
sum_rows_matched pgid total (line ∷ lines) = elim (Option-cases (row_size pgid (parse_row line))) [
  | inl e ↦ ground (arith, sum_rows_matched pgid total lines)
  | inr (rss, e) ↦ ground (arith, sum_rows_matched pgid (total + rss) lines)
]

sum_rows_lem :
    (pgid : ℕ) (lines : List Text) → sum_rows pgid 0 false lines ≡ total_of (group_sizes pgid lines)
unfolding sum_rows
sum_rows_lem pgid [] = refl
sum_rows_lem pgid (line ∷ lines) = elim (Option-cases (row_size pgid (parse_row line))) [
  | inl e ↦ ground (arith, sum_rows_lem pgid lines)
  | inr (rss, e) ↦ ground (arith, sum_rows_matched pgid rss lines)
]

-- A sample of a process group is the sum of the resident sets of the group's rows; it is nothing
-- when the group has no row, so an empty read never counts as zero.
pub sample_rss_lem :
    (out : Text) (pgid : ℕ)
    → sample_process_group_rss_kb (some out) pgid ≡ total_of (group_sizes pgid (split b'\n' out))
unfolding sample_process_group_rss_kb
sample_rss_lem out pgid = sum_rows_lem pgid (split b'\n' out)

sum-append : (xs ys : List ℕ) → sum (xs ++ ys) ≡ sum xs + sum ys
sum-append [] ys = omega arith
sum-append (x ∷ xs) ys = omega (arith, sum-append xs ys)

abbrev pub option_list : Option ℕ → List ℕ
option_list none = []
option_list (some n) = n ∷ []

-- The sizes of the readable regular files below a directory.
abbrev mutual
  pub files : Directory → List ℕ
  files unreadable = []
  files (listing entries) = entry_files entries

  pub entry_files : Entries → List ℕ
  entry_files nil = []
  entry_files (subdirectory d entries) = files d ++ entry_files entries
  entry_files (regular size entries) = option_list size ++ entry_files entries
  entry_files (other entries) = entry_files entries

mutual
  unfolding sample_directory_bytes

  sample_files : (d : Directory) → or_zero (sample_directory_bytes d) ≡ sum (files d)
  sample_files unreadable = refl
  sample_files (listing entries) = sum-entry_files entries

  sum-entry_files : (entries : Entries) → sum_entries entries ≡ sum (entry_files entries)
  sum-entry_files nil = refl
  sum-entry_files (subdirectory d entries) =
      omega
        (arith, sample_files d, sum-entry_files entries, sum-append (files d) (entry_files entries))
  sum-entry_files (regular none entries) = omega (arith, sum-entry_files entries)
  sum-entry_files (regular (some n) entries) = omega (arith, sum-entry_files entries)
  sum-entry_files (other entries) = sum-entry_files entries

-- A directory that can be listed has the size of all readable regular files below it, whatever could
-- not be read on the way.
pub sample_directory_bytes_lem :
    (entries : Entries)
    → sample_directory_bytes (listing entries) ≡ some (sum (files (listing entries)))
unfolding sample_directory_bytes
sample_directory_bytes_lem entries = rw (sum-entry_files entries)
