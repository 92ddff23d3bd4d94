-- ===== src/Mutate/Lock/Samples.antt =====
-- One exclusive guard is acquired.
use reporigor.Mutate.Lock.{ProcessLockGuard, acquire_guard, LockTable, try_acquire, store}
use reporigor.Mutate.Lock.Exclusion.{Reachable-exclusive}
use reporigor.Mutate.Lock.Steps.{Reachable, then_step, start, acquired, holders}
use reporigor.Prelude.{◌≤◌, ◌≡◌, refl, ◌⊎◌, true, false, none, some, List, [], ◌∷◌, codes}

abbrev one_guard : List ProcessLockGuard
one_guard = record { path = codes "state"; exclusive = true } ∷ []

abbrev one_entry : LockTable
one_entry = store (λ _. none) (codes "state") (some (record { readers = 0; writer = true }))

one_writer : Reachable (one_entry, one_guard)
unfolding acquire_guard try_acquire
one_writer = then_step start (acquired (codes "state") true refl)

Reachable-exclusive_example :
    (holders (codes "state") true one_guard ≤ 1)
    × (holders (codes "state") true one_guard ≡ 0 ⊎ holders (codes "state") false one_guard ≡ 0)
Reachable-exclusive_example = Reachable-exclusive (one_entry, one_guard) (codes "state") one_writer
