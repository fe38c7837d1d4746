-- ===== src/Probes.antt =====
-- probes.ts: the descendant-kill probe of macOS and Linux, and the probe of Linux's hard memory cap.
pub mod Group
pub mod MemoryCap
pub mod MemoryCapLaws
pub mod Laws
mod Examples
