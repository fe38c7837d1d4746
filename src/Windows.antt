-- ===== src/Windows.antt =====
-- packages/sandbox-runtime/src/adapters/native-windows.ts.
pub mod Available
pub mod Spawn
pub mod Laws
pub mod Environment
pub mod Examples
