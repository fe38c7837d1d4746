-- ===== src/Watchdog/Examples.antt =====
-- The watchdogs on short runs.
use convira_sandbox.Base.{All, ◌*◌, ◌++◌, none, some, List, [], ◌∷◌, ◌≡◌, refl, if◌then◌else◌}
use convira_sandbox.Base.Text.{Text, codes, split, trim, is_digits, ◌===◌}
use convira_sandbox.Base.Decimal.{of_decimal}
use convira_sandbox.Watchdog.Ticking.{Event, tick, stop, measured, threw}
use convira_sandbox.Watchdog.Rss.{
  sample_process_group_rss_kb, start_rss_group_watchdog, sum_rows, row_size, parse_row,
  split_spaces,
}
use convira_sandbox.Watchdog.Disk.{
  listing, Entries, nil, subdirectory, regular, other, unreadable, sample_directory_bytes,
}
use convira_sandbox.Probing.{poll_until, read_file_trimmed}
use convira_sandbox.Probes.Group.{delivered, refused, Group}
use convira_sandbox.Watchdog.Probing.{
  Writing, await_marker, is_over, writer_run, writer_in, run_disk_watchdog_probe,
}
use convira_sandbox.Watchdog.Evidence.{
  disk_probe, IsWatchdogProven, run_watchdog_probe-IsWatchdogProven,
}
use convira_sandbox.Watchdog.Sampling.{Row, IsRow, print_rows, sizes_of, sample-print_rows}
use convira_sandbox.Watchdog.Laws.{overruns, rss_watchdog-breaches, total_of}

abbrev ps : Text
ps = codes "  10  200\n 11 5000\n\n 10 24  x\n bad 7\n"

sample_test : sample_process_group_rss_kb (some ps) 10 ≡ some 224
unfolding sample_process_group_rss_kb sum_rows row_size parse_row split_spaces split trim is_digits
    of_decimal ◌===◌
sample_test = refl

abbrev events : List Event
events =
    tick (measured none)
    ∷ tick threw
    ∷ tick (measured (some 1024))
    ∷ tick (measured (some 1025))
    ∷ tick (measured (some 9999))
    ∷ stop
    ∷ []

rss_watchdog-breaches_example :
    (start_rss_group_watchdog 1 events).breaches ≡ (if overruns (1 * 1024) events then 1 else 0)
rss_watchdog-breaches_example = rss_watchdog-breaches 1 events

-- Two rows of the group, with one of another between them.
abbrev rows : List Row
rows =
    record { margin = 2; group = codes "10"; gap = 1; rss = codes "200" }
    ∷ record { margin = 1; group = codes "11"; gap = 0; rss = codes "5000" }
    ∷ record { margin = 0; group = codes "10"; gap = 4; rss = codes "24" }
    ∷ []

rows-IsRow : All IsRow rows
unfolding is_digits
rows-IsRow = ((refl, refl), ((refl, refl), ((refl, refl), tt)))

sample-print_rows_example :
    sample_process_group_rss_kb (some (print_rows rows)) 10 ≡ total_of (sizes_of 10 rows)
sample-print_rows_example = sample-print_rows 10 rows rows-IsRow

rows_test : total_of (sizes_of 10 rows) ≡ some 224
unfolding of_decimal
rows_test = refl

abbrev tree : Entries
tree = regular (some 5) (
    subdirectory (listing (regular (some 7) (regular none nil)))
      (subdirectory unreadable (other nil)))

tree_test : sample_directory_bytes (listing tree) ≡ some 12
unfolding sample_directory_bytes
tree_test = refl

abbrev no_group : Group
no_group = record {
  scratch = none;
  join = λ a b. a;
  starts = λ command args. none;
  content = λ file round. none;
  ps_output = λ round. none;
  signal = λ pid round. delivered;
  group_kill = λ leader. delivered;
}

abbrev writing : Writing
writing = record {
  scratch = some (codes "C:\\t");
  host = some (record { command = codes "C:\\l.exe"; prefix_args = []; read_grants = [] });
  join = λ a b. a ++ codes "\\" ++ b;
  starts = λ command args. some 9;
  marker = λ round. some (codes "spinning\n");
  directories = listing nil ∷ listing (regular (some 5000000) nil) ∷ [];
  killed = λ pid. delivered;
  signals = delivered ∷ refused (codes "ESRCH") ∷ [];
}

run_watchdog_probe-IsWatchdogProven_example :
    IsWatchdogProven disk_probe (codes "win32") no_group writing
unfolding run_disk_watchdog_probe writer_in writer_run await_marker read_file_trimmed trim is_over
    sample_directory_bytes poll_until ◌===◌
run_watchdog_probe-IsWatchdogProven_example =
    run_watchdog_probe-IsWatchdogProven disk_probe (codes "win32") no_group writing refl
