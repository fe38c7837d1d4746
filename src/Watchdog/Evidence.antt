-- ===== src/Watchdog/Evidence.antt =====
-- The boot probes of the two watchdogs, together.
use convira_sandbox.Base.{Bool, true, ◌≡◌}
use convira_sandbox.Base.Text.{Text}
use convira_sandbox.Probes.Group.{Group}
use convira_sandbox.Watchdog.Probing.{run_rss_watchdog_probe, Writing, run_disk_watchdog_probe}
use convira_sandbox.Watchdog.ProbingLaws.{IsRssProven, run_rss_watchdog_probe-IsRssProven}
use convira_sandbox.Watchdog.WriterLaws.{IsDiskProven, run_disk_watchdog_probe-IsDiskProven}

pub data WatchdogProbe : Type 0 where
  memory_probe disk_probe : WatchdogProbe

-- The verdict of a probe on a host that its two records describe.
abbrev pub run_watchdog_probe : WatchdogProbe → Text → Group → Writing → Bool
run_watchdog_probe memory_probe platform g w = (run_rss_watchdog_probe platform g).0
run_watchdog_probe disk_probe platform g w = (run_disk_watchdog_probe platform w).0

abbrev pub IsWatchdogProven : WatchdogProbe → Text → Group → Writing → Type 0
IsWatchdogProven memory_probe platform g w = IsRssProven platform g
IsWatchdogProven disk_probe platform g w = IsDiskProven platform w

-- The probe of the memory watchdog passes only on macOS or Linux, after a group that it started had
-- recorded a descendant and been measured with a positive size, SIGKILL to the group was delivered,
-- and the descendant was gone; that of the disk watchdog passes only on Windows, after a writer had
-- announced itself, its directory was measured above four MiB, SIGKILL was delivered to the writer,
-- and a signal to it was refused.
pub run_watchdog_probe-IsWatchdogProven :
    (probe : WatchdogProbe) (platform : Text) (g : Group) (w : Writing)
    → run_watchdog_probe probe platform g w ≡ true
    → IsWatchdogProven probe platform g w
run_watchdog_probe-IsWatchdogProven memory_probe platform g w h =
    run_rss_watchdog_probe-IsRssProven platform g h
run_watchdog_probe-IsWatchdogProven disk_probe platform g w h =
    run_disk_watchdog_probe-IsDiskProven platform w h
