-- ===== src/Dry/Identity.antt =====
-- crates/analysis-dry/src/lib.rs: the identity of a clone group. SHA-256 is a parameter, as in
-- Core/StableId.
pub mod Injective
mod Samples
use reporigor.Dry.Limits.{one_bits}
use Prim.Native.Nat.{Ordering}
use reporigor.Core.StableId.{stable_id}
use reporigor.Dry.Locations.{Location, Duplicate, canonical_path}
use reporigor.Prelude.Order.{cmp_list, then_with, nat_ord, sort_with}
use reporigor.Prelude.{
  ℕ, zero, suc, ◌+◌, ◌/◌, ◌%◌, Option, none, some, List, [], ◌∷◌, ◌++◌, map, ltb, if◌then◌else◌,
  length, Text, codes,
}

-- `usize::to_string`: the digits of a number, in front of what follows; as many rounds as the number
-- are more than enough.
unfoldable pub digits_onto : ℕ → ℕ → Text → Text
digits_onto zero n rest = (b'0' + n % 10) ∷ rest
digits_onto (suc rounds) n rest =
    let more = digits_onto rounds (n / 10) ((b'0' + n % 10) ∷ rest) in
    if ltb n 10 then (b'0' + n) ∷ rest else more

unfoldable pub to_string : ℕ → Text
unfolding digits_onto
to_string n = digits_onto n n []

unfoldable pub encoded_components : List Text → Text
unfolding to_string
encoded_components [] = []
encoded_components (value ∷ values) =
    to_string (length value) ++ (b':' ∷ (value ++ encoded_components values))

unfoldable pub normalized_evidence : List Text → Text
unfolding encoded_components
normalized_evidence tokens = encoded_components tokens

pub record CloneIdentity : Type 0 where
  pub path : Text
  pub symbol : Text
  pub evidence : Text

-- The derived `Ord` of `CloneIdentity`.
abbrev pub compare_identity : CloneIdentity → CloneIdentity → Ordering
compare_identity left right =
    then_with (cmp_list left.path right.path)
      (then_with (cmp_list left.symbol right.symbol) (cmp_list left.evidence right.evidence))

-- "dry.clone"
abbrev pub clone_rule_id : Text
clone_rule_id = codes "dry.clone"

abbrev pub exact_algorithm : Text
exact_algorithm = codes "normalized-token-exact-v1"

abbrev pub shingle_dice_algorithm : Text
shingle_dice_algorithm = codes "normalized-token-shingle-dice-v1"

-- `location.stable_symbol.clone().unwrap_or_else(|| "<file-region>".to_owned())`
abbrev pub region_symbol : Option Text → Text
region_symbol none = codes "<file-region>"
region_symbol (some symbol) = symbol

abbrev pub region_identity : Text → Location → CloneIdentity
region_identity evidence location = record {
  path = canonical_path location.file;
  symbol = region_symbol location.stable_symbol;
  evidence = evidence;
}

module _ (sha256 : Text → Text) where
  unfoldable pub stable_clone_group_id : List CloneIdentity → Text
  unfolding encoded_components
  stable_clone_group_id identities =
      let sorted = sort_with compare_identity identities in
      stable_id sha256 clone_rule_id
        (encoded_components (map (λ (identity : CloneIdentity). identity.path) sorted))
        (encoded_components (map (λ (identity : CloneIdentity). identity.symbol) sorted))
        (encoded_components (map (λ (identity : CloneIdentity). identity.evidence) sorted))

  unfoldable pub exact_clone_group_id : List Location → Text → Text
  unfolding stable_clone_group_id
  exact_clone_group_id locations evidence =
      stable_clone_group_id (map (region_identity evidence) locations)

unfoldable pub exact_duplicate : ℕ → List Location → Text → Duplicate
exact_duplicate token_count locations clone_group_id = record {
  token_count = token_count;
  locations = locations;
  clone_group_id = some clone_group_id;
  similarity = some one_bits;
  statement_count = none;
  algorithm = some exact_algorithm;
}
