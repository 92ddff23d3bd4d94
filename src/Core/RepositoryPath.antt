-- ===== src/Core/RepositoryPath.antt =====
-- crates/reporigor-core/src/stable_id.rs: canonical repository-relative paths, and the test for a
-- digest. A `str` is the list of its UTF-8 bytes; every byte that is looked for is ASCII.
mod Split
pub mod Canonical
pub mod Normalize
mod Samples
unfoldable pub use Split.{split, join}
use reporigor.Prelude.{
  ℕ, Bool, true, false, ◌&&◌, ◌||◌, List, [], ◌∷◌, map, leb, ◌==◌, if◌then◌else◌, length, all, Text,
  Result, ◌>>=◌, ◌>>◌, reject_if, ok, err,
}

pub data PathError : Type 0 where
  empty_path : PathError
  not_relative : Text → PathError
  parent_traversal : Text → PathError
  no_component : PathError

-- `path.replace('\\', "/")`
abbrev to_slash : ℕ → ℕ
to_slash byte = if byte == b'\\' then b'/' else byte

abbrev pub replace_separators : Text → Text
replace_separators = map to_slash

abbrev pub starts_with_slash : Text → Bool
starts_with_slash [] = false
starts_with_slash (byte ∷ _) = byte == b'/'

-- `normalized.as_bytes().get(1) == Some(&b':')`
abbrev pub has_drive_prefix : Text → Bool
has_drive_prefix (_ ∷ byte ∷ _) = byte == b':'
has_drive_prefix _ = false

abbrev pub is_empty : Text → Bool
is_empty [] = true
is_empty (_ ∷ _) = false

-- A leading "//" is also a leading '/', so the source's second test adds nothing.
unfoldable pub validate_relative_path_prefix : Text → Text → Result PathError (Unit {0})
validate_relative_path_prefix original normalized = do
  reject_if (is_empty normalized) empty_path
  reject_if (starts_with_slash normalized || has_drive_prefix normalized) (not_relative original)
  ok tt

abbrev pub is_current : Text → Bool
is_current (byte ∷ []) = byte == b'.'
is_current _ = false

abbrev pub is_parent : Text → Bool
is_parent (first ∷ second ∷ []) = first == b'.' && second == b'.'
is_parent _ = false

-- The loop of `normalize_path_components`; the list is what `components` holds in the end.
unfoldable pub push_components : Text → List Text → Result PathError (List Text)
push_components original [] = ok []
push_components original (component ∷ rest) =
    let more = push_components original rest in
    if is_empty component || is_current component
    then more
    else if is_parent component
    then err (parent_traversal original)
    else (do components ← more; ok (component ∷ components))

abbrev pub join_components : List Text → Result PathError Text
join_components [] = err no_component
join_components (component ∷ rest) = ok (join (component ∷ rest))

unfoldable pub normalize_path_components : Text → Text → Result PathError Text
unfolding push_components split join
normalize_path_components original normalized = do
  components ← push_components original (split normalized)
  join_components components

unfoldable pub normalize_repository_path : Text → Result PathError Text
unfolding validate_relative_path_prefix normalize_path_components
normalize_repository_path path = do
  let normalized = replace_separators path
  validate_relative_path_prefix path normalized
  normalize_path_components path normalized

-- `is_lowercase_sha256`
abbrev pub is_lowercase_hex : ℕ → Bool
is_lowercase_hex byte = (leb b'0' byte && leb byte b'9') || (leb b'a' byte && leb byte b'f')

unfoldable pub is_lowercase_sha256 : Text → Bool
is_lowercase_sha256 value = length value == 64 && all is_lowercase_hex value
