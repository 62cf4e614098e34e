-- ===== src/Core.antt =====
-- crates/hyperbox-core: the data that every other crate shares.
pub mod Error
pub mod Allowlist
pub mod Config
pub mod Process
pub mod Snapshot
pub mod Template
