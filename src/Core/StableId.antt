-- ===== src/Core/StableId.antt =====
-- crates/reporigor-core/src/stable_id.rs: identifiers of structural evidence. SHA-256 is a
-- parameter: the crate `sha2` computes it.
pub mod Framing
pub mod Identity
mod Samples
use reporigor.Prelude.{
  ℕ, ◌+◌, ◌-◌, ◌/◌, ◌%◌, ◌^◌, [], ◌∷◌, ◌++◌, ltb, leb, if◌then◌else◌, u64_max, length, Text, ok,
  err,
}
use reporigor.Core.RepositoryPath.{normalize_repository_path, replace_separators}

-- `u64::to_be_bytes`
unfoldable pub to_be_bytes : ℕ → Text
to_be_bytes n =
    (n / 2 ^ 56 % 256)
    ∷ (n / 2 ^ 48 % 256)
    ∷ (n / 2 ^ 40 % 256)
    ∷ (n / 2 ^ 32 % 256)
    ∷ (n / 2 ^ 24 % 256)
    ∷ (n / 2 ^ 16 % 256)
    ∷ (n / 2 ^ 8 % 256)
    ∷ (n % 256)
    ∷ []

-- `u64::try_from(component.len()).unwrap_or(u64::MAX)`
abbrev pub length_u64 : Text → ℕ
length_u64 component = if leb (length component) u64_max then length component else u64_max

-- What the loop feeds to the hasher for one component.
unfoldable pub frame : Text → Text
frame component = to_be_bytes (length_u64 component) ++ component

unfoldable pub hash_input : Text → Text → Text → Text → Text
hash_input rule path symbol evidence =
    frame rule ++ (frame path ++ (frame symbol ++ (frame evidence ++ [])))

abbrev pub hex_digit : ℕ → ℕ
hex_digit d = if ltb d 10 then d + b'0' else d - 10 + b'a'

-- `write!(output, "{byte:02x}")` for each byte.
unfoldable pub hex : Text → Text
hex [] = []
hex (byte ∷ rest) = hex_digit (byte / 16) ∷ hex_digit (byte % 16) ∷ hex rest

-- `normalize_repository_path(path).unwrap_or_else(|_| path.replace('\\', "/"))`
unfoldable pub stable_path : Text → Text
unfolding normalize_repository_path
stable_path path = elim (normalize_repository_path path) [
  | ok normalized ↦ normalized
  | err _ ↦ replace_separators path
]

unfoldable pub stable_id : (Text → Text) → Text → Text → Text → Text → Text
stable_id sha256 rule path symbol evidence =
    hex (sha256 (hash_input rule (stable_path path) symbol evidence))
