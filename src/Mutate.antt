-- ===== src/Mutate.antt =====
-- crates/analysis-mutate: the mutation-testing engine.
pub mod Model
pub mod Act
pub mod SourcePath
pub mod Guard
pub mod Summary
pub mod Executor
pub mod Lock
