-- ===== src/Landlock.antt =====
-- packages/sandbox-enforcer/src/landlock.ts and enforcer.ts.
pub mod Ruleset
pub mod Hardening
pub mod Laws
pub mod Examples
