-- ===== src/Mutate/Lock/Steps.antt =====
-- Readers and writers: the steps of the threads, and the count of the guards on a path.
use reporigor.Mutate.Lock.{
  LockTable, ProcessLockGuard, acquire_guard, drop_guard, try_acquire, ProcessLockState, or_default,
  drop_entry, store,
}
use reporigor.Prelude.{
  ℕ, ◌+◌, ◌≡◌, Bool, true, false, ◌&&◌, not, Option, none, some, List, [], ◌∷◌, ◌++◌, arith,
  count_if, Text, text_eq,
}

-- The guards on a path that are held in one mode.
abbrev holds : Text → Bool → ProcessLockGuard → Bool
holds q true g = text_eq q g.path && g.exclusive
holds q false g = text_eq q g.path && not g.exclusive

abbrev pub holders : Text → Bool → List ProcessLockGuard → ℕ
holders q exclusive held = count_if (holds q exclusive) held

-- One thread acquires a guard or is refused, or drops a guard that it holds.
pub data Step : LockTable × List ProcessLockGuard → LockTable × List ProcessLockGuard → Type 0 where
  acquired :
      {t t' : LockTable} {held : List ProcessLockGuard} {g : ProcessLockGuard} (path : Text)
      (exclusive : Bool)
      → acquire_guard t path exclusive ≡ (some g, t')
      → Step (t, held) (t', g ∷ held)
  refused :
      {t t' : LockTable} {held : List ProcessLockGuard} (path : Text) (exclusive : Bool)
      → acquire_guard t path exclusive ≡ (none, t')
      → Step (t, held) (t', held)
  dropped :
      {t : LockTable} (before after : List ProcessLockGuard) (g : ProcessLockGuard)
      → Step (t, before ++ (g ∷ after)) (drop_guard t g, before ++ after)

pub data Reachable : LockTable × List ProcessLockGuard → Type 0 where
  start : Reachable ((λ _. none), [])
  then_step : {a b : LockTable × List ProcessLockGuard} → Reachable a → Step a b → Reachable b

abbrev pub one_if : Bool → ℕ
one_if true = 1
one_if false = 0

-- The entry of a path counts its guards, and a writer is alone.
pub record IsCounted (entry : Option ProcessLockState) (shared exclusive : ℕ) : Type 0 where
  pub readers : (or_default entry).readers ≡ shared
  pub writer : one_if (or_default entry).writer ≡ exclusive
  pub alone : (or_default entry).writer ≡ true → (or_default entry).readers ≡ 0

abbrev pub IsConsistent : LockTable × List ProcessLockGuard → Type 0
IsConsistent (t, held) = (q : Text) → IsCounted (t q) (holders q false held) (holders q true held)

pub holders-append :
    (q : Text) (e : Bool) (xs ys : List ProcessLockGuard)
    → holders q e (xs ++ ys) ≡ holders q e xs + holders q e ys
holders-append q e [] ys = omega arith
holders-append q e (x ∷ xs) ys = ground (arith, holders-append q e xs ys)

pub granted :
    (s s' : ProcessLockState) (e : Bool) (k n : ℕ)
    → try_acquire s e ≡ (true, s')
    → IsCounted (some s) k n
    → IsCounted (some s') (k + one_if (not e)) (n + one_if e)
unfolding try_acquire
granted s s' true k n made c = ground (arith, c.readers, c.writer, c.alone)
granted s s' false k n made c = ground (arith, c.readers, c.writer, c.alone)

pub kept : (s s' : ProcessLockState) (e : Bool) → try_acquire s e ≡ (false, s') → s ≡ s'
unfolding try_acquire
kept s s' true made = ground (arith, made)
kept s s' false made = ground (arith, made)

pub dropped_entry :
    (o : Option ProcessLockState) (e : Bool) (k n : ℕ)
    → IsCounted o (k + one_if (not e)) (n + one_if e)
    → IsCounted (drop_entry e o) k n
dropped_entry none true k n c = ground (arith, c.readers, c.writer)
dropped_entry none false k n c = ground (arith, c.readers, c.writer)
dropped_entry (some s) true k n c = ground (arith, c.readers, c.writer, c.alone)
dropped_entry (some s) false k n c = ground (arith, c.readers, c.writer, c.alone)

abbrev pub mode_count : Bool → Bool → ℕ
mode_count true exclusive = one_if exclusive
mode_count false exclusive = one_if (not exclusive)

pub holders-here :
    (q : Text) (e : Bool) (g : ProcessLockGuard) (held : List ProcessLockGuard)
    → text_eq q g.path ≡ true
    → holders q e (g ∷ held) ≡ holders q e held + mode_count e g.exclusive
holders-here q true g held same = ground (arith, same)
holders-here q false g held same = ground (arith, same)

pub holders-elsewhere :
    (q : Text) (e : Bool) (g : ProcessLockGuard) (held : List ProcessLockGuard)
    → text_eq q g.path ≡ false
    → holders q e (g ∷ held) ≡ holders q e held
holders-elsewhere q true g held other = ground (arith, other)
holders-elsewhere q false g held other = ground (arith, other)

pub recount :
    {o o' : Option ProcessLockState} {k k' n n' : ℕ}
    → or_default o ≡ or_default o'
    → k ≡ k'
    → n ≡ n'
    → IsCounted o k n
    → IsCounted o' k' n'
recount eo ek en c = record {
  readers = rw (← eo, ← ek) c.readers;
  writer = rw (← eo, ← en) c.writer;
  alone = rw (← eo) c.alone;
}

pub store-here :
    (t : LockTable) (q path : Text) (entry : Option ProcessLockState)
    → text_eq q path ≡ true
    → store t path entry q ≡ entry
store-here t q path entry same = rw same

pub store-elsewhere :
    (t : LockTable) (q path : Text) (entry : Option ProcessLockState)
    → text_eq q path ≡ false
    → store t path entry q ≡ t q
store-elsewhere t q path entry other = rw other
