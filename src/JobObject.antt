-- ===== src/JobObject.antt =====
-- packages/sandbox-runtime/src/win-job-object.ts: the Job Objects of Windows.
pub mod Loading
pub mod Registry
pub mod Accounts
pub mod Spawning
pub mod Balance
pub mod KillTree
pub mod KillTreeLaws
pub mod TwoLeg
pub mod TwoLegLaws
pub mod Examples
