-- ===== src/Watchdog.antt =====
-- The two sampling watchdogs of packages/sandbox-runtime/src: rss-watchdog.ts (memory of a process
-- group) and disk-watchdog.ts (bytes of a directory). Their interval handlers have one shape. Probing
-- holds their boot probes.
pub mod Ticking
pub mod Rss
pub mod Disk
pub mod Probing
pub mod ProbingLaws
pub mod WriterLaws
pub mod Evidence
pub mod Laws
pub mod Sampling
pub mod Examples
