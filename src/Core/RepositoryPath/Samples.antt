-- ===== src/Core/RepositoryPath/Samples.antt =====
-- Concrete paths.
use reporigor.Core.RepositoryPath.Normalize.{
  normalize_repository_path_canonical, normalize_repository_path-IsCanonical,
  normalize_repository_path_twice, normalize_repository_path_drive,
}
use reporigor.Core.RepositoryPath.Canonical.{IsCanonical}
use reporigor.Core.RepositoryPath.{
  normalize_repository_path, not_relative, parent_traversal, no_component, empty_path,
}
use reporigor.Prelude.{◌≡◌, refl, [], Text, codes, ok, err}

dotted : normalize_repository_path (codes "./src//lib.rs") ≡ ok (codes "src/lib.rs")
unfolding normalize_repository_path
dotted = refl

refused :
    (normalize_repository_path (codes "/src/lib.rs") ≡ err (not_relative (codes "/src/lib.rs")))
    × (normalize_repository_path (codes "src/../lib.rs")
        ≡ err (parent_traversal (codes "src/../lib.rs")))
    × (normalize_repository_path (codes "./.") ≡ err no_component)
    × (normalize_repository_path [] ≡ err empty_path)
unfolding normalize_repository_path
refused = (refl, refl, refl, refl)

abbrev drive_path : Text
drive_path = codes "C:/lib.rs"

lib-IsCanonical : IsCanonical (codes "src/lib.rs")
lib-IsCanonical =
    normalize_repository_path-IsCanonical (codes "./src//lib.rs") (codes "src/lib.rs") dotted

normalize_repository_path-IsCanonical_example : IsCanonical (codes "src/lib.rs")
normalize_repository_path-IsCanonical_example =
    normalize_repository_path-IsCanonical (codes "./src//lib.rs") (codes "src/lib.rs") dotted

normalize_repository_path_canonical_example :
    normalize_repository_path (codes "src/lib.rs") ≡ ok (codes "src/lib.rs")
normalize_repository_path_canonical_example =
    normalize_repository_path_canonical (codes "src/lib.rs") lib-IsCanonical refl

normalize_repository_path_twice_example :
    normalize_repository_path (codes "src/lib.rs") ≡ ok (codes "src/lib.rs")
normalize_repository_path_twice_example =
    normalize_repository_path_twice (codes "./src//lib.rs") (codes "src/lib.rs") dotted refl

drive-IsCanonical : IsCanonical drive_path
unfolding normalize_repository_path
drive-IsCanonical = normalize_repository_path-IsCanonical (codes "./C:/lib.rs") drive_path refl

normalize_repository_path_drive_example :
    (normalize_repository_path drive_path ≡ err (not_relative drive_path))
    × (normalize_repository_path (codes "./C:/lib.rs") ≡ ok drive_path)
normalize_repository_path_drive_example =
    normalize_repository_path_drive drive_path drive-IsCanonical refl
