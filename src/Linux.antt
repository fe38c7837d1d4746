-- ===== src/Linux.antt =====
-- packages/sandbox-runtime/src/adapters/native-linux.ts: the bubblewrap adapter.
pub mod Mounts
pub mod Seal
pub mod Anchor
pub mod Launcher
pub mod Spawn
pub mod Capabilities
pub mod Governing
pub mod Denies
pub mod Grants
pub mod Entry
pub mod Examples
