-- ===== src/Mutate/Guard/Edit.antt =====
-- The edit itself: the checks on a candidate, and the bytes of the mutant.
use reporigor.Mutate.Model.{MutationError, MutationCandidate}
pub mod Laws
use reporigor.Prelude.{
  ℕ, ◌+◌, ◌-◌, ◌*◌, ◌||◌, not, ◌++◌, ltb, ◌==◌, if◌then◌else◌, u64_max, length, Text, text_eq, take,
  drop, Result, ◌>>=◌, ◌>>◌, reject_if, ok, err,
}

-- `ApplyMutationError`
pub data ApplyError : Type 0 where
  invalid : ApplyError
  fatal : MutationError → ApplyError

abbrev pub max_mutation_source_bytes : ℕ
max_mutation_source_bytes = 32 * 1024 * 1024

unfoldable pub validate_mutation_source_limit : ℕ → Result ApplyError (Unit {0})
validate_mutation_source_limit limit = reject_if (limit == 0) invalid

unfoldable pub validate_mutation_range : MutationCandidate → ℕ → Result ApplyError (Unit {0})
validate_mutation_range m source_len =
    reject_if (ltb m.end_byte m.start_byte || ltb source_len m.end_byte) invalid

-- `original[start_byte..end_byte]`, behind the range test.
abbrev pub slice : ℕ → ℕ → Text → Text
slice start end text = take (end - start) (drop start text)

unfoldable pub validate_mutation_original : MutationCandidate → Text → Result ApplyError (Unit {0})
validate_mutation_original m original =
    reject_if (not (text_eq (slice m.start_byte m.end_byte original) m.original)) invalid

unfoldable pub validate_mutation_replacement : MutationCandidate → Result ApplyError (Unit {0})
validate_mutation_replacement m = reject_if (text_eq m.original m.replacement) invalid

unfoldable pub validate_mutation_candidate : MutationCandidate → Text → Result ApplyError (Unit {0})
unfolding validate_mutation_range validate_mutation_original validate_mutation_replacement
validate_mutation_candidate m original = do
  validate_mutation_range m (length original)
  validate_mutation_original m original
  validate_mutation_replacement m

-- `checked_sub` and `checked_add` on `usize`.
unfoldable pub mutated_source_len : MutationCandidate → ℕ → Result ApplyError ℕ
mutated_source_len m original_len =
    let removed = m.end_byte - m.start_byte in
    if ltb original_len removed
    then err invalid
    else if ltb u64_max (original_len - removed + length m.replacement)
    then err invalid
    else ok (original_len - removed + length m.replacement)

unfoldable pub validate_mutated_source_size : ℕ → ℕ → Result ApplyError (Unit {0})
validate_mutated_source_size mutated_len limit = reject_if (ltb limit mutated_len) invalid

unfoldable pub build_mutated_source : MutationCandidate → Text → ℕ → Result ApplyError Text
unfolding mutated_source_len validate_mutated_source_size
build_mutated_source m original limit = do
  mutated_len ← mutated_source_len m (length original)
  validate_mutated_source_size mutated_len limit
  ok (take m.start_byte original ++ (m.replacement ++ drop m.end_byte original))
