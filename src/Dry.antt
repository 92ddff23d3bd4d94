-- ===== src/Dry.antt =====
-- crates/analysis-dry: duplicate detection over normalized tokens.
pub mod DisjointSet
pub mod Limits
pub mod Tokens
pub mod Regions
pub mod Locations
pub mod Identity
pub mod Fingerprint
pub mod Candidates
pub mod Select
pub mod Exact
pub mod Dice
pub mod Pairs
pub mod Functions
pub mod Shingles
pub mod CandidatePairs
pub mod Fallback
