-- ===== src/Boot.antt =====
-- The boot probes together: the memo of each one, and the reports of packages/sandbox-runtime/src
-- that ask them (win-job-object.ts, win-appcontainer.ts and the adapters).
pub mod Memos
pub mod Reports
pub mod Settled
pub mod Stable
pub mod Specs
pub mod Refines
pub mod Evidence
mod Examples
