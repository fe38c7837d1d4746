-- ===== src/Watchdog/Disk.antt =====
-- disk-watchdog.ts: the recursive size of a directory, and the watchdog of a granted directory.
use convira_sandbox.Base.{ℕ, ◌+◌, ◌*◌, Option, none, some, List}
use convira_sandbox.Watchdog.Ticking.{Watchdog, Event, started, run_events}

-- What the walk meets below a directory. A directory or a file may have vanished, or be unreadable.
mutual
  pub data Directory : Type 0 where
    unreadable : Directory
    listing : Entries → Directory

  pub data Entries : Type 0 where
    nil : Entries
    subdirectory : Directory → Entries → Entries
    regular : Option ℕ → Entries → Entries
    other : Entries → Entries

abbrev pub or_zero : Option ℕ → ℕ
or_zero none = 0
or_zero (some n) = n

unfoldable mutual
  pub sample_directory_bytes : Directory → Option ℕ
  sample_directory_bytes unreadable = none
  sample_directory_bytes (listing entries) = some (sum_entries entries)

  pub sum_entries : Entries → ℕ
  sum_entries nil = 0
  sum_entries (subdirectory d entries) = or_zero (sample_directory_bytes d) + sum_entries entries
  sum_entries (regular size entries) = or_zero size + sum_entries entries
  sum_entries (other entries) = sum_entries entries

abbrev pub limit_bytes : ℕ → ℕ
limit_bytes limit_mb = limit_mb * 1024 * 1024

unfoldable pub start_disk_write_watchdog : ℕ → List Event → Watchdog
start_disk_write_watchdog limit_mb events = run_events (limit_bytes limit_mb) started events
