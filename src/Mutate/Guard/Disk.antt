-- ===== src/Mutate/Guard/Disk.antt =====
-- The disk as the engine sees it: the project's source files, the recovery journal and the global
-- pointer to it. SHA-256, Base64, the JSON encoder and the clock are a record of parameters.
use reporigor.Mutate.Model.{
  MutationError, invalid_journal, io, source_too_large, state, unsupported_source_metadata,
}
use reporigor.Mutate.Act.{access, Act, gets, pure, lift}
use reporigor.Mutate.SourcePath.{relative_source_path}
use reporigor.Core.RepositoryPath.{is_lowercase_hex}
use reporigor.Mutate.Act.{◌>>=◌, ◌>>◌}
use reporigor.Prelude.{
  ℕ, ◌*◌, ◌≡◌, Bool, true, false, ◌&&◌, ◌||◌, not, Option, none, some, ltb, leb, ◌==◌,
  if◌then◌else◌, length, all, Text, text_eq, Result, reject_if,
}

-- `StoredPermissions`: a time is one number, and the list of extended attributes an opaque value.
pub record StoredPermissions : Type 0 where
  pub readonly : Bool
  pub accessed : Option ℕ
  pub extended_attributes : ℕ
  pub modified : Option ℕ
  pub unix_mode : Option ℕ

pub record SourceFile : Type 0 where
  pub bytes : Text
  pub permissions : StoredPermissions
  -- The number of hard links.
  pub links : ℕ

pub record JournalRecord : Type 0 where
  pub schema_version : ℕ
  pub file : Text
  pub original_base64 : Text
  pub original_sha256 : Text
  pub mutated_sha256 : Text
  pub max_source_bytes : ℕ
  pub original_permissions : StoredPermissions

-- The pointer's fields for the project root are left out: the root is the requested one and has
-- not moved.
pub record ActiveRunRecord : Type 0 where
  pub schema_version : ℕ
  pub file : Text
  pub original_sha256 : Text
  pub mutated_sha256 : Text

-- `sources` answers for regular files inside the root that are no symbolic links.
pub record Disk : Type 0 where
  pub sources : Text → Option SourceFile
  pub journal : Option JournalRecord
  pub pointer : Option ActiveRunRecord

pub record Platform : Type 0 where
  -- The digest in lowercase hexadecimal.
  pub sha256 : Text → Text
  pub base64_encode : Text → Text
  pub base64_decode : Text → Option Text
  -- The sizes of the pretty-printed JSON files.
  pub journal_len : JournalRecord → ℕ
  pub pointer_len : ActiveRunRecord → ℕ
  -- The project's root.
  pub root : Text
  -- The times that a new file gets.
  pub now : ℕ

-- What the crates `base64` and `sha2` document.
pub record IsLawful (p : Platform) : Type 0 where
  pub decode-encode : (bytes : Text) → p.base64_decode (p.base64_encode bytes) ≡ some bytes
  pub digest_len : (bytes : Text) → length (p.sha256 bytes) ≡ 64
  pub digest_hex : (bytes : Text) → all is_lowercase_hex (p.sha256 bytes) ≡ true

abbrev pub journal_schema_version : ℕ
journal_schema_version = 1

abbrev pub max_journal_bytes : ℕ
max_journal_bytes = 64 * 1024 * 1024

abbrev pub max_active_run_bytes : ℕ
max_active_run_bytes = 64 * 1024

abbrev pub update : (Text → Option SourceFile) → Text → SourceFile → Text → Option SourceFile
update sources path file q = if text_eq q path then some file else sources q

-- `atomic_replace`: a synchronised temporary file is renamed over the target, mode and times kept.
-- Only the rename shows in the sources, so all steps are one access; a temporary file that a killed
-- process leaves behind is not modelled.
unfoldable pub atomic_replace : Text → Text → StoredPermissions → Act Disk MutationError (Unit {0})
atomic_replace path bytes permissions = access io (λ d. record d {
  sources = update d.sources path (record { bytes = bytes; permissions = permissions; links = 1 });
})

-- `atomic_replace_for_mutation`: the same, under a fresh modification time.
unfoldable pub atomic_replace_for_mutation :
    Platform → Text → Text → StoredPermissions → Act Disk MutationError (Unit {0})
atomic_replace_for_mutation p path bytes permissions =
    atomic_replace path bytes (record permissions { accessed = some p.now; modified = some p.now })

-- `StateFile::remove`: a missing file is no error.
unfoldable pub remove_pointer : Act Disk MutationError (Unit {0})
remove_pointer = access io (λ d. record d { pointer = none })

unfoldable pub remove_journal : Act Disk MutationError (Unit {0})
remove_journal = access io (λ d. record d { journal = none })

abbrev is_some {ℓ} : {A : Type ℓ} → Option A → Bool
is_some none = false
is_some (some _) = true

-- `JournalFile::write` and `StateFile::write_new`: an existing file is never replaced.
unfoldable pub write_journal : Platform → JournalRecord → ℕ → Act Disk MutationError (Unit {0})
write_journal p record' max_bytes = do
  old ← gets (λ d. d.journal)
  lift (reject_if (is_some old) state)
  lift (reject_if (ltb max_bytes (p.journal_len record')) invalid_journal)
  access io (λ d. record d { journal = some record' })

-- `ActiveRunFile::write`
unfoldable pub write_pointer : Platform → JournalRecord → Act Disk MutationError (Unit {0})
write_pointer p journal = do
  let active : ActiveRunRecord = record {
    schema_version = journal_schema_version;
    file = journal.file;
    original_sha256 = journal.original_sha256;
    mutated_sha256 = journal.mutated_sha256;
  }
  old ← gets (λ d. d.pointer)
  lift (reject_if (is_some old) state)
  lift (reject_if (ltb max_active_run_bytes (p.pointer_len active)) invalid_journal)
  access io (λ d. record d { pointer = some active })

-- `JournalFile::read`, with the size check of `read_bounded` and the schema check of
-- `parse_journal_record`. A state file holds its record: what serde writes is what serde reads.
unfoldable pub read_journal : Platform → Act Disk MutationError (Option JournalRecord)
read_journal p = do
  access io (λ d. d)
  found ← gets (λ d. d.journal)
  elim found [
    | none ↦ pure none
    | some r ↦ do
      lift (reject_if (ltb max_journal_bytes (p.journal_len r)) invalid_journal)
      lift (reject_if (not (r.schema_version == journal_schema_version)) invalid_journal)
      pure (some r)
  ]

abbrev pub is_hex : ℕ → Bool
is_hex byte =
    (leb b'0' byte && leb byte b'9')
    || (leb b'a' byte && leb byte b'f')
    || (leb b'A' byte && leb byte b'F')

-- `checksums_valid`
abbrev pub is_checksum : Text → Bool
is_checksum value = length value == 64 && all is_hex value

abbrev is_ok {ℓ κ} : {E : Type ℓ} {A : Type κ} → Result E A → Bool
is_ok (Result.ok _) = true
is_ok (Result.err _) = false

-- `ActiveRunRecordValidator::validated`
unfoldable pub validated_pointer : ActiveRunRecord → Result MutationError (Unit {0})
validated_pointer r =
    if not (r.schema_version == journal_schema_version)
    then Result.err invalid_journal
    else reject_if
        (not (
          is_ok (relative_source_path r.file)
          && (is_checksum r.original_sha256 && is_checksum r.mutated_sha256)))
        invalid_journal

-- `ActiveRunFile::read`, with the same size check.
unfoldable pub read_pointer : Platform → Act Disk MutationError (Option ActiveRunRecord)
read_pointer p = do
  access io (λ d. d)
  found ← gets (λ d. d.pointer)
  elim found [
    | none ↦ pure none
    | some r ↦ do
      lift (reject_if (ltb max_active_run_bytes (p.pointer_len r)) invalid_journal)
      lift (validated_pointer r)
      pure (some r)
  ]

-- `read_bounded_source`: of a file that is there, with `ensure_supported_source_metadata`.
unfoldable pub read_bounded_source : Text → SourceFile → ℕ → Act Disk MutationError SourceFile
read_bounded_source path file limit = do
  access io (λ d. d)
  lift (reject_if (not (file.links == 1)) (unsupported_source_metadata path))
  lift (reject_if (ltb limit (length file.bytes)) (source_too_large path (length file.bytes) limit))
  pure file
