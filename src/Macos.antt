-- ===== src/Macos.antt =====
-- packages/sandbox-runtime/src/adapters/native-macos.ts.
pub mod Escape
pub mod Profile
pub mod Legacy
pub mod Spawn
pub mod Decides
pub mod Laws
pub mod Sealed
pub mod PrivateFiles
pub mod PrivateFilesLaws
pub mod PrivateFilesCounts
pub mod Examples
