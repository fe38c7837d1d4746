-- ===== src/AppContainer.antt =====
-- packages/sandbox-runtime/src/win-appcontainer.ts: grants, the profile ledger, the janitor, the
-- launcher and the boot probes that run it.
pub mod Grants
pub mod Prepare
pub mod Sweep
pub mod Loading
pub mod Containing
pub mod Filtering
pub mod Ledger
pub mod Recovery
pub mod Launching
pub mod Probing
pub mod Caging
pub mod ProbingLaws
pub mod FilesystemEvidence
pub mod NetworkEvidence
pub mod CagingEvidence
pub mod Evidence
pub mod Examples
