-- ===== src/Mutate/Guard/Phases.antt =====
-- The four disks that a guarded edit goes through, in order: nothing written, the journal written,
-- the pointer written too, and the mutant in place.
use reporigor.Mutate.Guard.Edit.{max_mutation_source_bytes}
use reporigor.Mutate.Guard.Restore.{mutation_journal_record}
use reporigor.Mutate.SourcePath.{relative_source_path, validate_mutation_root}
use reporigor.Mutate.Model.{MutationCandidate}
use reporigor.Mutate.Guard.Disk.{
  Platform, SourceFile, update, ActiveRunRecord, IsLawful, Disk, JournalRecord,
  journal_schema_version, max_journal_bytes, max_active_run_bytes,
}
use reporigor.Prelude.{
  ℕ, ◌≤◌, ◌<◌, ◌≡◌, sym, ap, fun_ext, ◌∙◌, ◌⊎◌, inl, inr, true, false, Option, none, some,
  Bool-cases, length, Text, text_eq, text_eq_iff, Result,
}

pub data Phase : Type 0 where
  clean journalled armed edited : Phase

-- One guarded edit: what the checks of `apply_bounded` establish before anything is written, and
-- that the two texts are no SHA-256 collision.
pub record Plan (p : Platform) (m : MutationCandidate) (sources : Text → Option SourceFile)
    : Type 0 where
  pub limit : ℕ
  pub source : SourceFile
  pub mutant : Text
  pub lawful : IsLawful p
  pub found : sources m.file ≡ some source
  pub single : source.links ≡ 1
  pub safe : relative_source_path m.file ≡ Result.ok m.file
  pub rooted : validate_mutation_root p.root ≡ Result.ok tt
  pub positive : 0 < limit
  pub below : limit ≤ max_mutation_source_bytes
  pub source_fits : length source.bytes ≤ limit
  pub mutant_fits : length mutant ≤ limit
  pub distinct : text_eq (p.sha256 mutant) (p.sha256 source.bytes) ≡ false

module _ {p : Platform} {m : MutationCandidate} {sources : Text → Option SourceFile}
    (plan : Plan p m sources) where
  open plan use {limit, source, mutant}

  abbrev pub journal_of : JournalRecord
  journal_of = mutation_journal_record p m source mutant limit

  abbrev pub pointer_of : ActiveRunRecord
  pointer_of = record {
    schema_version = journal_schema_version;
    file = m.file;
    original_sha256 = p.sha256 source.bytes;
    mutated_sha256 = p.sha256 mutant;
  }

  abbrev pub mutant_file : SourceFile
  mutant_file = record {
    bytes = mutant;
    permissions = record source.permissions { accessed = some p.now; modified = some p.now };
    links = 1;
  }

  -- The original file as it is put back: a new file, with its one link.
  abbrev pub original_file : SourceFile
  original_file = record { bytes = source.bytes; permissions = source.permissions; links = 1 }

  pub original_file-found : sources m.file ≡ some original_file
  original_file-found = plan.found ∙ ap (λ (n : ℕ). some (record source { links = n })) plan.single

  abbrev pub disk_at : Phase → Disk
  disk_at clean = record { sources = sources; journal = none; pointer = none }
  disk_at journalled = record { sources = sources; journal = some journal_of; pointer = none }
  disk_at armed = record { sources = sources; journal = some journal_of; pointer = some pointer_of }
  disk_at edited = record {
    sources = update sources m.file mutant_file;
    journal = some journal_of;
    pointer = some pointer_of;
  }

  -- The file that the edit is about, on each of them.
  abbrev pub file_at : Phase → SourceFile
  file_at edited = mutant_file
  file_at _ = source

  -- The state files that are there are within their limits.
  abbrev pub Fits : Phase → Type 0
  Fits clean = Unit {0}
  Fits journalled = p.journal_len journal_of ≤ max_journal_bytes
  Fits _ =
      (p.journal_len journal_of ≤ max_journal_bytes)
      × (p.pointer_len pointer_of ≤ max_active_run_bytes)

  abbrev pub At : Phase → Disk → Type 0
  At phase d = Fits phase × (d ≡ disk_at phase)

  -- One of the four, at every moment of an edit, of its undoing and of recovery.
  abbrev pub IsRecoverable : Disk → Type 0
  IsRecoverable d = (phase : Phase) × At phase d

-- Putting the original file back makes the sources what they were.
pub update-update :
    (sources : Text → Option SourceFile) (path : Text) (first last : SourceFile)
    → sources path ≡ some last
    → update (update sources path first) path last ≡ sources
update-update sources path first last e = fun_ext λ q. back q (Bool-cases (text_eq q path))
  where
    back :
        (q : Text)
        → (text_eq q path ≡ true) ⊎ (text_eq q path ≡ false)
        → update (update sources path first) path last q ≡ sources q
    back q (inl same) = rw same (sym e ∙ ap sources (sym ((text_eq_iff q path).0 same)))
    back q (inr other) = rw other
