-- ===== src/Mutate/Executor.antt =====
-- crates/analysis-mutate/src/executor.rs: which candidates run, and what a run makes of them.
pub mod Options
pub mod Classify
pub mod Run
pub mod Steady
pub mod Candidate
pub mod Restores
mod Samples
