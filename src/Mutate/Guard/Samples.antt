-- ===== src/Mutate/Guard/Samples.antt =====
-- A concrete edit, `a<b` to `a<=b`, under a stand-in for the hash function and the encoder.
use reporigor.Mutate.Guard.Undo.{guard_of, restore_and_drop-undoes}
use reporigor.Mutate.Guard.Recovery.{IsUndone, recover_active_locked-undoes}
use reporigor.Mutate.Guard.Load.{Idle, IsUndoable}
use reporigor.Mutate.Guard.Total.{quiet, recover_active_locked-succeeds}
use reporigor.Mutate.Guard.Restore.{restore_and_drop, apply_bounded}
use reporigor.Mutate.Guard.Recover.{recover_active_locked}
use reporigor.Mutate.Act.Keeps.{Keeps}
use reporigor.Mutate.SourcePath.{
  relative_source_path, validate_mutation_root, components, is_control_path, eq_ignore_ascii_case,
}
use reporigor.Core.RepositoryPath.{is_lowercase_hex}
use reporigor.Mutate.Guard.Edit.Laws.{IsEdited, build_mutated_source-IsEdited}
use reporigor.Mutate.Guard.Disk.{IsLawful, Platform, SourceFile}
use reporigor.Mutate.Guard.Phases.{Plan, IsRecoverable, At, clean, edited}
use reporigor.Mutate.Guard.Edit.{
  validate_mutation_candidate, build_mutated_source, max_mutation_source_bytes,
}
use reporigor.Mutate.Model.{c, MutationCandidate, restored}
use reporigor.Mutate.Act.{ok}
use reporigor.Mutate.Guard.Apply.{apply_bounded-IsApplied, HasNoCollision, IsApplied}
use reporigor.Prelude.{
  ℕ, ◌+◌, ◌%◌, min, ◌≡◌, refl, ap, true, false, Option, none, some, [], ◌∷◌, ◌++◌, arith,
  if◌then◌else◌, length, Text, codes, replicate, text_eq, Result,
}

-- The last digit of the length, in 64 characters.
abbrev toy_hash : Text → Text
toy_hash input = replicate 63 48 ++ (48 + length input % 10) ∷ []

abbrev pub toy_platform : Platform
toy_platform = record {
  sha256 = toy_hash;
  base64_encode = λ bytes. bytes;
  base64_decode = λ bytes. some bytes;
  journal_len = λ _. 400;
  pointer_len = λ _. 300;
  root = codes "/repo";
  now = 9;
}

last_digit : (n : ℕ) → is_lowercase_hex (48 + n % 10) ≡ true
last_digit n = ground arith

pub toy_lawful : IsLawful toy_platform
toy_lawful = record {
  decode-encode = λ bytes. refl;
  digest_len = λ bytes. refl;
  digest_hex = λ bytes. rw (last_digit (length bytes)) refl;
}

abbrev sample_file : SourceFile
sample_file = record {
  bytes = codes "a<b";
  permissions = record {
    readonly = false;
    accessed = some 4;
    extended_attributes = 0;
    modified = some 5;
    unix_mode = some 420;
  };
  links = 1;
}

abbrev pub sample_sources : Text → Option SourceFile
sample_sources q = if text_eq q (codes "src/a.c") then some sample_file else none

abbrev pub sample_candidate : MutationCandidate
sample_candidate = record {
  id = 1;
  language = c;
  file = codes "src/a.c";
  stable_symbol = codes "f";
  operator = codes "relational";
  fingerprint = codes "f0";
  line = 1;
  column = 2;
  original = codes "<";
  replacement = codes "<=";
  start_byte = 1;
  end_byte = 2;
}

edit_checked : validate_mutation_candidate sample_candidate (codes "a<b") ≡ Result.ok tt
unfolding validate_mutation_candidate text_eq
edit_checked = refl

edit_built : build_mutated_source sample_candidate (codes "a<b") 100 ≡ Result.ok (codes "a<=b")
unfolding build_mutated_source
edit_built = refl

build_mutated_source-IsEdited_example : IsEdited sample_candidate 100 (codes "a<b") (codes "a<=b")
build_mutated_source-IsEdited_example =
    build_mutated_source-IsEdited sample_candidate (codes "a<b") (codes "a<=b") 100 edit_checked
      edit_built

sample_safe : relative_source_path (codes "src/a.c") ≡ Result.ok (codes "src/a.c")
unfolding relative_source_path components is_control_path eq_ignore_ascii_case text_eq
sample_safe = refl

sample_rooted : validate_mutation_root (codes "/repo") ≡ Result.ok tt
unfolding validate_mutation_root components is_control_path eq_ignore_ascii_case
sample_rooted = refl

sample_distinct : text_eq (toy_hash (codes "a<=b")) (toy_hash (codes "a<b")) ≡ false
unfolding text_eq
sample_distinct = refl

abbrev sample_plan : Plan toy_platform sample_candidate sample_sources
sample_plan = record {
  limit = 100;
  source = sample_file;
  mutant = codes "a<=b";
  lawful = toy_lawful;
  found = unfold text_eq in refl;
  single = refl;
  safe = sample_safe;
  rooted = sample_rooted;
  positive = omega arith;
  below = omega arith;
  source_fits = omega arith;
  mutant_fits = omega arith;
  distinct = sample_distinct;
}

only_mutant :
    (mutant : Text)
    → build_mutated_source sample_candidate (codes "a<b") 100 ≡ Result.ok mutant
    → codes "a<=b" ≡ mutant
unfolding build_mutated_source
only_mutant mutant built = ground (arith, built)

only_source :
    (source : SourceFile) → sample_sources (codes "src/a.c") ≡ some source → sample_file ≡ source
unfolding text_eq
only_source source found = ground (arith, found)

pub no_collision :
    HasNoCollision toy_platform sample_candidate sample_sources (min 100 max_mutation_source_bytes)
no_collision source mutant found built differs =
    let same = only_source source found in
    let made : codes "a<=b" ≡ mutant =
      only_mutant mutant (rw (← ap (λ (f : SourceFile). f.bytes) same) at built) in
    rw (← same) (rw (← made) sample_distinct)

recover_active_locked-undoes_example :
    Keeps
      (IsRecoverable sample_plan)
      (IsRecoverable sample_plan)
      (IsUndone sample_plan)
      (recover_active_locked toy_platform)
recover_active_locked-undoes_example = recover_active_locked-undoes sample_plan

recover_active_locked-succeeds_example :
    recover_active_locked toy_platform (quiet sample_plan edited)
    ≡ (ok restored, quiet sample_plan clean)
recover_active_locked-succeeds_example =
    recover_active_locked-succeeds sample_plan edited (omega arith, omega arith)

restore_and_drop-undoes_example :
    Keeps
      (IsRecoverable sample_plan)
      (IsRecoverable sample_plan)
      (λ _. At sample_plan clean)
      (restore_and_drop toy_platform (guard_of sample_plan))
restore_and_drop-undoes_example = restore_and_drop-undoes sample_plan

apply_bounded-IsApplied_example :
    Keeps
      (Idle toy_platform sample_candidate sample_sources)
      (IsUndoable toy_platform sample_candidate sample_sources)
      (IsApplied toy_platform sample_candidate sample_sources)
      (apply_bounded toy_platform sample_candidate 100)
apply_bounded-IsApplied_example =
    apply_bounded-IsApplied toy_platform sample_candidate sample_sources toy_lawful 100 no_collision
