-- ===== src/Lib.antt =====
-- RepoRigor: a library of theorems about the repository's own core.
--
-- RepoRigor analyses a repository and can change its sources: the mutation-testing engine writes
-- a mutant over a source file, runs the project's tests and puts the original back. That engine
-- (crates/analysis-mutate), the detection of duplicate code (crates/analysis-dry), and the
-- identifiers and limits that the analyses share (crates/reporigor-core) are modelled.
--
-- Core is crates/reporigor-core.
--   Core/SourceBudget: source_budget.rs, and the loop of crates/reporigor/src/lib.rs that feeds
--     the budget (`observe_mutation_source_budget`); what the file system answers is a parameter.
--   Core/RepositoryPath, Core/StableId: stable_id.rs. Texts are lists of UTF-8 bytes; SHA-256 is a
--     parameter that answers 32 bytes. Nothing is assumed about collisions.
-- Mutate is crates/analysis-mutate/src.
--   Mutate/Model: the data of model.rs and error.rs. Messages and durations are left out.
--   Mutate/Act: actions on a disk. A fault schedule says of every access whether it works, fails
--     before or after its effect, or the process dies before or after it; an exhausted schedule
--     means that everything works. Mutate/Act/Keeps has the triples for such actions.
--   Mutate/SourcePath: `relative_source_path`, `validate_mutation_root` and `is_control_path` of
--     filesystem.rs, on Unix.
--   Mutate/Guard: filesystem.rs. Disk has the files (`atomic_replace`, the journal and the pointer),
--     Edit the edit (`build_mutated_source` and the checks), Restore the guard
--     (`SourceRestoreGuard::apply_bounded`, `restore`, `drop`), Recover the recovery
--     (`recover_active_locked` and below). Phases has the four disks that an edit goes through;
--     Safety, Recovery, Undo, Writes, Load, Apply, Refuse, Total and Cycle prove that every step
--     stays among them.
--   Mutate/Lock: `ProcessLockState` and `ProcessLockGuard` of filesystem.rs, the locks inside one
--     process; a step relation has the interleavings of its threads.
--   Mutate/Executor: executor.rs from `execute_candidates` down. The command runner is a parameter
--     that reads the disk and writes none of the engine's files; cancellation is an access that
--     may fail. Options has the checks of the execution policy.
--   Mutate/Summary: `MutationSummary` and the score; the quotient is a numerator and a denominator.
-- Dry is crates/analysis-dry/src/lib.rs.
--   Dry/Limits: the configuration, its validation and the work budget. An `f64` is its bit pattern;
--     its operations are a parameter, `Floats`.
--   Dry/Fingerprint: token and window fingerprints; Power, Lanes, Rolling and Visits prove that the
--     rolling computation is the plain one.
--   Dry/Tokens: `TokenPair` and `sequences_equal`; Scan, Match, Extend and Enough say what the
--     comparing loops find and what they cost.
--   Dry/Regions: `remember_extended_region`, the regions of one diagonal.
--   Dry/Locations, Dry/Identity: `Location`, `Duplicate`, their orders, and the group identifiers.
--   Dry/Candidates: `CandidateBuilder`; Steps has the ways in which a pair is processed, Sound proves
--     that each candidate is a clone.
--   Dry/Select: the choice among the groups. Dry/Exact: `build_window_index`, `find_with_hasher`,
--     `analyze`, over the parts above.
--   Dry/Functions, Dry/Shingles, Dry/CandidatePairs, Dry/Dice, Dry/Pairs, Dry/DisjointSet: the
--     comparison of functions, from `eligible_functions` to `component_similarities`.
--   Dry/Fallback: `exact_fallback_groups`, `analyze_functions` and `analyze_with_functions`, which
--     put both parts together.
-- Prelude has the shared lemmas on lists, results, orders and byte strings.
--
-- Loops are structural recursions where the source walks a list. The `while` loops of analysis-dry
-- take fuel: `matching_before` and `matching_after` as many rounds as there are tokens to compare,
-- `wrapping_pow` as many as its exponent, `root` one more than its node (parents never grow). Each
-- is enough, and the theorems about these loops hold for the results with that fuel. Machine
-- integers keep their limits: sums saturate (`saturating_add`), wrap (`wrapping_mul`) or are checked
-- (`mutated_source_len`) as the source has it. A hash map is a list of its entries, whose order the
-- source sorts away; a B-tree map is an ascending list.
--
-- Assumed of code outside the repository, and only where a theorem names it: Base64 decodes what it
-- encoded; SHA-256 answers 64 lowercase hexadecimal digits; a source and its own mutant have
-- different digests; and the ratio of `f64` counts does not fall when the shared count grows.
--
-- Not modelled: project roots that moved or overlap between a crash and its recovery, the coding of
-- extended attributes (one opaque value here), symbolic links and the containment of a path in the
-- root, the JSON text of the state files (only its size), the steps inside one replacement of a file
-- and the temporary file that a killed process leaves behind, the state directory's permissions, the
-- lock file between processes, preflight and baseline runs; the analyses of CRAP and
-- quality, reporting, language adapters and the command line. In analysis-dry, the panics on an
-- index out of range are empty values, and display strings are left out.
mod Prelude
pub mod Core
pub mod Mutate
pub mod Dry
