-- ===== src/Mutate/SourcePath.antt =====
-- crates/analysis-mutate/src/filesystem.rs: which relative paths may be mutated. `components` is
-- `std::path::Path::components` on Unix, as the standard library documents it.
use reporigor.Mutate.Model.{MutationError, unsafe_path}
use reporigor.Prelude.{
  ℕ, ◌+◌, Bool, true, false, ◌&&◌, ◌||◌, not, List, [], ◌∷◌, ◌++◌, leb, ◌==◌, if◌then◌else◌, any,
  all, Text, codes, Result, ◌>>◌, reject_if, ok,
}
use reporigor.Core.RepositoryPath.{split, is_empty, is_current, is_parent, starts_with_slash}

pub data Component : Type 0 where
  root_dir cur_dir parent_dir : Component
  normal : Text → Component

-- Repeated and trailing separators vanish, and so does `.` but at the very start.
abbrev component_of : Bool → Text → List Component
component_of first piece =
    if is_empty piece
    then []
    else if is_current piece
    then (if first then cur_dir ∷ [] else [])
    else if is_parent piece
    then parent_dir ∷ []
    else normal piece ∷ []

later_components : List Text → List Component
later_components [] = []
later_components (piece ∷ pieces) = component_of false piece ++ later_components pieces

first_components : List Text → List Component
unfolding later_components
first_components [] = []
first_components (piece ∷ pieces) = component_of true piece ++ later_components pieces

unfoldable pub components : Text → List Component
unfolding first_components split
components path =
    if starts_with_slash path
    then root_dir ∷ first_components (split path)
    else first_components (split path)

abbrev is_normal : Component → Bool
is_normal (normal _) = true
is_normal _ = false

-- `component_names`: the `filter_map` of `is_control_path`.
abbrev names : List Component → List Text
names [] = []
names (normal name ∷ rest) = name ∷ names rest
names (root_dir ∷ rest) = names rest
names (cur_dir ∷ rest) = names rest
names (parent_dir ∷ rest) = names rest

abbrev to_lower : ℕ → ℕ
to_lower byte = if leb b'A' byte && leb byte b'Z' then byte + 32 else byte

unfoldable pub eq_ignore_ascii_case : Text → Text → Bool
eq_ignore_ascii_case [] [] = true
eq_ignore_ascii_case [] (y ∷ ys) = false
eq_ignore_ascii_case (x ∷ xs) [] = false
eq_ignore_ascii_case (x ∷ xs) (y ∷ ys) = to_lower x == to_lower y && eq_ignore_ascii_case xs ys

abbrev reserved_names : List Text
reserved_names = codes ".git" ∷ codes ".hg" ∷ codes ".svn" ∷ codes ".reporigor" ∷ []

abbrev is_reserved : Text → Bool
is_reserved name = any (eq_ignore_ascii_case name) reserved_names

-- `names.windows(2).any(..)`
abbrev has_state_pair : List Text → Bool
has_state_pair [] = false
has_state_pair (first ∷ []) = false
has_state_pair (first ∷ second ∷ rest) =
    (eq_ignore_ascii_case first (codes "target") && eq_ignore_ascii_case second (codes "reporigor"))
    || has_state_pair (second ∷ rest)

unfoldable pub is_control_path : Text → Bool
unfolding components eq_ignore_ascii_case
is_control_path path =
    any is_reserved (names (components path)) || has_state_pair (names (components path))

unfoldable pub validate_mutation_root : Text → Result MutationError (Unit {0})
unfolding is_control_path
validate_mutation_root root = reject_if (is_control_path root) (unsafe_path root)

unfoldable pub relative_source_path : Text → Result MutationError Text
unfolding components is_control_path
relative_source_path file = do
  reject_if (is_empty file || starts_with_slash file) (unsafe_path file)
  reject_if (not (all is_normal (components file))) (unsafe_path file)
  reject_if (is_control_path file) (unsafe_path file)
  ok file
