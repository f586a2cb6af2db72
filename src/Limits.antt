-- ===== src/Limits.antt =====
-- Admission control, flood control and the registry of CD keys (crates/bnetcc-core/src/limits.rs).
pub mod Flood
pub mod Keys
pub mod Admission
