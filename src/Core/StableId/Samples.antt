-- ===== src/Core/StableId/Samples.antt =====
-- Concrete identifiers, under a stand-in for the hash function.
use reporigor.Core.RepositoryPath.{is_lowercase_sha256}
use reporigor.Core.StableId.{stable_id, stable_path, hash_input}
use reporigor.Core.StableId.Identity.{
  IsDigest, stable_id-is_lowercase_sha256, Collides, stable_id_distinct,
}
use reporigor.Core.StableId.Framing.{hash_input_injective}
use reporigor.Prelude.{
  ◌%◌, ◌≡◌, refl, ◌⊎◌, true, [], ◌∷◌, ◌++◌, arith, length, Text, codes, replicate,
}

-- The length of the input, in 32 bytes.
abbrev toy_sha256 : Text → Text
toy_sha256 input = replicate 31 0 ++ (length input % 256) ∷ []

toy-IsDigest : (input : Text) → IsDigest (toy_sha256 input)
toy-IsDigest input = record { bytes = omega arith; size = refl }

stable_id-is_lowercase_sha256_example :
    is_lowercase_sha256
      (stable_id toy_sha256 (codes "dry.clone") (codes "./a.rs") (codes "f") (codes "e"))
    ≡ true
stable_id-is_lowercase_sha256_example =
    stable_id-is_lowercase_sha256 toy_sha256 toy-IsDigest (codes "dry.clone") (codes "./a.rs")
      (codes "f") (codes "e")

hash_input_injective_example :
    (codes "a" ≡ codes "a")
    × (codes "b" ≡ codes "b")
    × (codes "c" ≡ codes "c")
    × (codes "d" ≡ codes "d")
hash_input_injective_example =
    hash_input_injective (codes "a") (codes "b") (codes "c") (codes "d") (codes "a") (codes "b")
      (codes "c") (codes "d") (omega arith) (omega arith) refl

stable_id_distinct_example :
    ((codes "a" ≡ codes "a")
      × (stable_path (codes "./b") ≡ stable_path (codes "b"))
      × (codes "c" ≡ codes "c")
      × (codes "d" ≡ codes "d"))
    ⊎ Collides toy_sha256
        (hash_input (codes "a") (stable_path (codes "./b")) (codes "c") (codes "d"))
        (hash_input (codes "a") (stable_path (codes "b")) (codes "c") (codes "d"))
unfolding stable_id stable_path
stable_id_distinct_example =
    stable_id_distinct toy_sha256 toy-IsDigest (codes "a") (codes "./b") (codes "c") (codes "d")
      (codes "a") (codes "b") (codes "c") (codes "d") (omega arith) (omega arith) refl
