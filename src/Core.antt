-- ===== src/Core.antt =====
-- crates/reporigor-core: budgets, repository paths, stable identifiers and rule rows.
pub mod RepositoryPath
pub mod SourceBudget
pub mod StableId
