-- ===== src/Core/RepositoryPath/Normalize.antt =====
-- Normalising a path: what comes out, and what happens when that is normalised again.
use reporigor.Core.RepositoryPath.Split.{split-IsUnsplit, split-join}
use reporigor.Core.RepositoryPath.Canonical.{
  IsCanonical, IsComponent, IsNotBackslash, components-IsUnsplit, join-clean,
  replace_separators_clean, join-starts, push-components, split-clean, push_components-all,
  replace_separators-clean,
}
use reporigor.Core.RepositoryPath.{
  normalize_repository_path, normalize_path_components, has_drive_prefix, replace_separators,
  is_empty, join_components, validate_relative_path_prefix, starts_with_slash, not_relative,
  push_components, split,
}
use reporigor.Prelude.{◌≡◌, true, false, List, [], ◌∷◌, arith, All, Text, >>=-eq-ok, ok, err}

of_joined :
    (cs : List Text) (out : Text)
    → All IsComponent cs
    → join_components cs ≡ ok out
    → IsCanonical out
of_joined [] out h e = cc
of_joined (c ∷ cs) out h e = record {
  first = c;
  rest = cs;
  components = h;
  joined = ground (arith, e);
}

-- The components of a canonical path are found again.
components_canonical :
    (original path : Text) → IsCanonical path → normalize_path_components original path ≡ ok path
unfolding normalize_path_components
components_canonical original path c =
    let unsplit = components-IsUnsplit (c.first ∷ c.rest) c.components in
    rw c.joined (
      rw (split-join c.first c.rest unsplit)
        (rw (push_components-all original (c.first ∷ c.rest) c.components)))

canonical_clean : (path : Text) → IsCanonical path → All IsNotBackslash path
canonical_clean path c = rw c.joined (join-clean (c.first ∷ c.rest) c.components)

canonical_starts :
    (path : Text) → IsCanonical path → (is_empty path ≡ false) × (starts_with_slash path ≡ false)
canonical_starts path c = rw c.joined (join-starts c.first c.rest c.components.0)

-- Whatever is accepted comes back as one or more plain components, joined by single separators:
-- none of them is empty, `.` or `..`, and none holds a separator of either kind.
pub normalize_repository_path-IsCanonical :
    (path out : Text) → normalize_repository_path path ≡ ok out → IsCanonical out
unfolding normalize_repository_path
normalize_repository_path-IsCanonical path out h =
    let normalized = replace_separators path in
    let (_, _, found) =
      >>=-eq-ok (validate_relative_path_prefix path normalized)
        (λ _. normalize_path_components path normalized) h in
    let (cs, pushed, joined) =
      >>=-eq-ok (push_components path (split normalized)) join_components found in
    of_joined cs out
      (push-components path (split normalized) cs (split-IsUnsplit normalized)
        (split-clean normalized (replace_separators-clean path)) pushed)
      joined

-- A canonical path without a drive prefix comes back unchanged.
pub normalize_repository_path_canonical :
    (path : Text)
    → IsCanonical path
    → has_drive_prefix path ≡ false
    → normalize_repository_path path ≡ ok path
unfolding normalize_repository_path
normalize_repository_path_canonical path c d =
    let (full, relative) = canonical_starts path c in
    rw (replace_separators_clean path (canonical_clean path c))
      (rw (full, relative, d) (components_canonical path path c))

-- Normalising is idempotent on every accepted path, unless the result has a drive prefix.
pub normalize_repository_path_twice :
    (path out : Text)
    → normalize_repository_path path ≡ ok out
    → has_drive_prefix out ≡ false
    → normalize_repository_path out ≡ ok out
normalize_repository_path_twice path out h d =
    normalize_repository_path_canonical out (normalize_repository_path-IsCanonical path out h) d

dot_slash_components :
    (original path : Text)
    → IsCanonical path
    → normalize_path_components original (b'.' ∷ b'/' ∷ path) ≡ ok path
unfolding normalize_path_components
dot_slash_components original path c = components_canonical original path c

-- The exception exists: a canonical path with a drive prefix is refused as not relative, and it is
-- what comes out for the same path with `./` in front.
pub normalize_repository_path_drive :
    (path : Text)
    → IsCanonical path
    → has_drive_prefix path ≡ true
    → (normalize_repository_path path ≡ err (not_relative path))
      × (normalize_repository_path (b'.' ∷ b'/' ∷ path) ≡ ok path)
unfolding normalize_repository_path
normalize_repository_path_drive path c d =
    let (full, relative) = canonical_starts path c in
    let clean = replace_separators_clean path (canonical_clean path c) in
    (rw clean (rw (full, relative, d)), rw clean (dot_slash_components (b'.' ∷ b'/' ∷ path) path c))
