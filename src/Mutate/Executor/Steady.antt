-- ===== src/Mutate/Executor/Steady.antt =====
-- Between the edit and its undoing, nothing changes a file.
use reporigor.Mutate.Executor.Classify.{
  classify_command_error, runtime_error_result, classify_test_outcome,
}
use reporigor.Mutate.Executor.Options.{MutationOptions}
use reporigor.Mutate.Model.{
  MutationError, MutationCandidate, cancelled, CommandOutcome, CommandSpec, command,
  exited_with_zero, MutationResult,
}
use reporigor.Mutate.Guard.Disk.{Disk}
use reporigor.Mutate.Executor.Run.{
  attempt, Host, caught, check_cancellation, run_candidate_command, classify_validation,
  execute_applied_candidate, run_test, run_command_on, run_validation, classify_test,
}
use reporigor.Mutate.Act.{◌>>=◌, Act, World, pure, lift, gets, access, Outcome}
use reporigor.Mutate.Act.Keeps.{
  Keeps, Keeps-bind, Keeps-lift, Keeps-pure, Keeps-access, Keeps-gets, Settles, Keeps-weaken,
}
use reporigor.Prelude.{
  ◌≡◌, refl, Bool, true, false, not, Option, none, some, arith, if◌then◌else◌, codes, Result,
}

-- What holds of a caught result.
abbrev pub Caught :
    {E A : Type 0} → (Disk → Type 0) → (A → Disk → Type 0) → Result E A → Disk → Type 0
Caught I Q (Result.ok a) d = Q a d
Caught I Q (Result.err e) d = I d

pub attempt-Keeps :
    {E A : Type 0} {P I : Disk → Type 0} {Q : A → Disk → Type 0} (m : Act Disk E A)
    → Keeps P I Q m
    → Keeps P I (Caught {E = E} I Q) (attempt m)
unfolding attempt
attempt-Keeps {E = E} {A = A} {I = I} {Q = Q} m k = record { at = λ w h. settle (m w) (k.at w h) }
  where
    settle :
        (r : Outcome E A × World Disk) → Settles I Q r → Settles I (Caught {E = E} I Q) (caught r)
    settle (Outcome.ok a, w) h = h
    settle (Outcome.err e, w) h = h
    settle (Outcome.crashed, w) h = h

-- An action that changes no file.
abbrev pub Steady : {A : Type 0} → (Disk → Type 0) → Act Disk MutationError A → Type 0
Steady P m = Keeps P P (λ _. P) m

module _ (h : Host) (o : MutationOptions) (P : Disk → Type 0) where
  Steady-lift : {A : Type 0} (r : Result MutationError A) → Steady P (lift r)
  Steady-lift r = Keeps-lift r (λ d k. k) (λ a d e k. k)

  Steady-attempt : (A : Type 0) (m : Act Disk MutationError A) → Steady P m → Steady P (attempt m)
  Steady-attempt A m k =
      Keeps-weaken {Q = Caught {E = MutationError} P (λ _. P)} (λ d j. j) same (attempt-Keeps m k)
    where
      same : (r : Result MutationError A) (d : Disk) → Caught P (λ _. P) r d → P d
      same (Result.ok a) d j = j
      same (Result.err e) d j = j

  Steady-check : Steady P check_cancellation
  unfolding check_cancellation
  Steady-check = Keeps-access cancelled (λ d. d) (λ d k. k) (λ d k. k) (λ d k. k)

  Steady-command :
      (spec : CommandSpec) (m : MutationCandidate) → Steady P (run_candidate_command h o spec m)
  unfolding run_candidate_command run_command_on
  Steady-command spec m = Keeps-bind {Q = λ _. P} (gets _) _ (Keeps-gets _ (λ d k. k)) (λ disk.
      Keeps-bind {Q = λ _. P} (access command (λ d. d)) _
        (Keeps-access command (λ d. d) (λ d k. k) (λ d k. k) (λ d k. k)) (λ _. Steady-lift _))

  -- The result is about the candidate that was run.
  abbrev About : MutationCandidate → Act Disk MutationError MutationResult → Type 0
  About m act = Keeps P P (λ r d. (r.mutation ≡ m) × P d) act

  About-lift :
      (m : MutationCandidate) (a : Result MutationError MutationResult)
      → ((r : MutationResult) → a ≡ Result.ok r → r.mutation ≡ m)
      → About m (lift a)
  About-lift m a same = Keeps-lift a (λ d k. k) (λ r d e k. (same r e, k))

  about-test :
      (m : MutationCandidate) (a : Result MutationError CommandOutcome) (r : MutationResult)
      → classify_test h o m a ≡ Result.ok r
      → r.mutation ≡ m
  unfolding classify_command_error classify_test_outcome
  about-test m a r e = ground arith

  about-error :
      (m : MutationCandidate) (e : MutationError) (r : MutationResult)
      → classify_command_error h.error_text m e ≡ Result.ok r
      → r.mutation ≡ m
  unfolding classify_command_error
  about-error m e r same = ground arith

  About-if :
      {x y : Act Disk MutationError MutationResult} (m : MutationCandidate) (b : Bool)
      → About m x
      → About m y
      → About m (if b then x else y)
  About-if m true kx ky = kx
  About-if m false kx ky = ky

  About-run_test : (m : MutationCandidate) → About m (run_test h o m)
  unfolding run_test
  About-run_test m =
      Keeps-bind {Q = λ _. P} check_cancellation _ Steady-check (λ _. answer o.test_command)
    where
      answer :
          (t : Option CommandSpec)
          → About m (elim t [
            | none ↦ pure (runtime_error_result m (codes "execute mode has no test command"))
            | some spec ↦ do
              answer ← attempt (run_candidate_command h o spec m)
              lift (classify_test h o m answer)
          ])
      answer none = Keeps-pure _ (λ d k. (refl, k))
      answer (some spec) =
          Keeps-bind {Q = λ _. P} (attempt (run_candidate_command h o spec m)) _
            (Steady-attempt CommandOutcome (run_candidate_command h o spec m)
              (Steady-command spec m))
            (λ a. About-lift m (classify_test h o m a) (about-test m a))

  About-classify :
      (m : MutationCandidate) (outcome : CommandOutcome)
      → About m (classify_validation h o m outcome)
  unfolding classify_validation
  About-classify m outcome = About-if m outcome.timed_out (Keeps-pure _ (λ d k. (refl, k))) (
      About-if m (not (exited_with_zero outcome.exit_code)) (Keeps-pure _ (λ d k. (refl, k)))
        (About-run_test m))

  pub About-applied : (m : MutationCandidate) → About m (execute_applied_candidate h o m)
  unfolding execute_applied_candidate run_validation
  About-applied m = from o.validation_command
    where
      judge :
          (r : Result MutationError CommandOutcome)
          → About m (elim r [
            | Result.ok outcome ↦ classify_validation h o m outcome
            | Result.err e ↦ lift (classify_command_error h.error_text m e)
          ])
      judge (Result.ok outcome) = About-classify m outcome
      judge (Result.err e) =
          About-lift m (classify_command_error h.error_text m e) (about-error m e)

      from :
          (v : Option CommandSpec)
          → About m (elim v [ some spec ↦ run_validation h o spec m | none ↦ run_test h o m ])
      from none = About-run_test m
      from (some spec) =
          Keeps-bind {Q = λ _. P} (attempt (run_candidate_command h o spec m)) _
            (Steady-attempt CommandOutcome (run_candidate_command h o spec m)
              (Steady-command spec m))
            (λ r. judge r)
