-- ===== src/Selection.antt =====
-- Choosing an adapter (packages/sandbox-runtime/src/detect.ts), and the adapter without isolation
-- (packages/sandbox-runtime/src/adapters/passthrough.ts).
pub mod Detect
pub mod Passthrough
pub mod Laws
pub mod Examples
