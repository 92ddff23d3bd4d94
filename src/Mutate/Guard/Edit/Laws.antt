-- ===== src/Mutate/Guard/Edit/Laws.antt =====
-- What an accepted edit does to the bytes.
use reporigor.Mutate.Guard.Edit.{build_mutated_source, validate_mutation_candidate, slice}
use reporigor.Mutate.Model.{MutationCandidate}
use reporigor.Prelude.{
  ℕ, ◌+◌, ◌-◌, ◌≤◌, ◌≡◌, refl, sym, ap, ◌∙◌, ◌≢◌, true, false, ◌++◌, arith, length, length-append,
  Text, text_eq, text_eq_iff, take, drop, length-take, length-drop, take-append-drop,
  append_injective, drop-drop, ok,
}

slice-split :
    (start end : ℕ) (text : Text)
    → start ≤ end
    → take start text ++ (slice start end text ++ drop end text) ≡ text
slice-split start end text h =
    let tail : slice start end text ++ drop end text ≡ drop start text =
      rw
        (← ap (λ (k : ℕ). drop k text) (tail_end start end h), ← drop-drop start (end - start) text)
        (take-append-drop (end - start) (drop start text)) in
    rw tail (take-append-drop start text)
  where
    tail_end : (start end : ℕ) → start ≤ end → start + (end - start) ≡ end
    tail_end start end h = omega arith

-- The three parts of a checked source, and what the edit makes of them.
pub record IsEdited (m : MutationCandidate) (limit : ℕ) (source out : Text) : Type 0 where
  pub before : Text
  pub after : Text
  pub offset : length before ≡ m.start_byte
  pub was : source ≡ before ++ (m.original ++ after)
  pub becomes : out ≡ before ++ (m.replacement ++ after)
  pub fits : length out ≤ limit
  pub changed : source ≢ out

checked :
    (m : MutationCandidate) (source : Text)
    → validate_mutation_candidate m source ≡ ok tt
    → (m.start_byte ≤ m.end_byte)
      × (m.end_byte ≤ length source)
      × (text_eq (slice m.start_byte m.end_byte source) m.original ≡ true)
      × (text_eq m.original m.replacement ≡ false)
unfolding validate_mutation_candidate
checked m source h = ground arith

built :
    (m : MutationCandidate) (source out : Text) (limit : ℕ)
    → build_mutated_source m source limit ≡ ok out
    → (out ≡ take m.start_byte source ++ (m.replacement ++ drop m.end_byte source))
      × (length source - (m.end_byte - m.start_byte) + length m.replacement ≤ limit)
unfolding build_mutated_source
built m source out limit h = ground arith

same_middle :
    (before first second after : Text)
    → before ++ (first ++ after) ≡ before ++ (second ++ after)
    → first ≡ second
same_middle before first second after e =
    let inner = (append_injective before before (first ++ after) (second ++ after) refl e).1 in
    let sizes : length first ≡ length second =
      omega
        (arith, ap (length {A = ℕ}) inner, length-append first after, length-append second after) in
    (append_injective first second after after sizes inner).0

-- A candidate that passed every check replaces exactly its original text, at its start offset,
-- and nothing else; the mutant differs from the source and stays within the limit.
pub build_mutated_source-IsEdited :
    (m : MutationCandidate) (source out : Text) (limit : ℕ)
    → validate_mutation_candidate m source ≡ ok tt
    → build_mutated_source m source limit ≡ ok out
    → IsEdited m limit source out
build_mutated_source-IsEdited m source out limit valid made =
    let (ordered, inside, matches, differs) = checked m source valid in
    let (e, small) = built m source out limit made in
    let middle : slice m.start_byte m.end_byte source ≡ m.original = (text_eq_iff _ _).0 matches in
    let was : source ≡ take m.start_byte source ++ (m.original ++ drop m.end_byte source) =
      sym (rw middle at (slice-split m.start_byte m.end_byte source ordered)) in
    let offset : length (take m.start_byte source) ≡ m.start_byte =
      length-take m.start_byte source (omega arith) in
    record {
      before = take m.start_byte source;
      after = drop m.end_byte source;
      offset = offset;
      was = was;
      becomes = e;
      fits = omega (
        arith,
        small,
        offset,
        length-drop m.end_byte source,
        ap (length {A = ℕ}) e,
        length-append (take m.start_byte source) (m.replacement ++ drop m.end_byte source),
        length-append m.replacement (drop m.end_byte source),
      );
      changed = λ same.
          let equal =
            same_middle (take m.start_byte source) m.original m.replacement (drop m.end_byte source)
              (sym was ∙ same ∙ e) in
          cc (differs, (text_eq_iff m.original m.replacement).1 equal);
    }
