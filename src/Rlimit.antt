-- ===== src/Rlimit.antt =====
-- packages/sandbox-runtime/src/rlimit.ts: the limits derived from a spawn's resources, and the
-- shell script that applies them before the tool. Resource numbers are in thousandths (`Types`).
pub mod Values
pub mod Script
pub mod Probing
pub mod Laws
pub mod ProbingLaws
pub mod Examples
