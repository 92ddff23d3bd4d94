-- ===== src/Mutate/Guard.antt =====
-- crates/analysis-mutate/src/filesystem.rs: one source edit at a time, journalled so that a crash
-- at any point can be undone.
pub mod Edit
pub mod Disk
pub mod Recover
pub mod Restore
pub mod Phases
pub mod Safety
pub mod Recovery
pub mod Undo
pub mod Writes
pub mod Load
pub mod Apply
pub mod Refuse
pub mod Total
pub mod Cycle
pub mod Samples
