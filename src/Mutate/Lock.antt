-- ===== src/Mutate/Lock.antt =====
-- crates/analysis-mutate/src/filesystem.rs: the table of locks inside one process. The table's
-- mutex makes every operation one step; the lock file between processes is not modelled.
pub mod Steps
pub mod Exclusion
mod Samples
use reporigor.Prelude.{
  ℕ, ◌+◌, ◌-◌, Bool, true, false, ◌&&◌, ◌||◌, not, Option, none, some, ltb, ◌==◌, if◌then◌else◌,
  u64_max, Text, text_eq,
}

pub record ProcessLockState : Type 0 where
  pub readers : ℕ
  pub writer : Bool

abbrev try_acquire_writer : ProcessLockState → Bool × ProcessLockState
try_acquire_writer s =
    if s.writer || not (s.readers == 0) then (false, s) else (true, record s { writer = true })

-- `checked_add` on `usize`.
abbrev try_acquire_reader : ProcessLockState → Bool × ProcessLockState
try_acquire_reader s =
    if s.writer
    then (false, s)
    else if ltb u64_max (s.readers + 1)
    then (false, s)
    else (true, record s { readers = s.readers + 1 })

unfoldable pub try_acquire : ProcessLockState → Bool → Bool × ProcessLockState
try_acquire s exclusive = if exclusive then try_acquire_writer s else try_acquire_reader s

-- `HashMap<PathBuf, ProcessLockState>`
abbrev pub LockTable : Type 0
LockTable = Text → Option ProcessLockState

abbrev pub or_default : Option ProcessLockState → ProcessLockState
or_default none = record { readers = 0; writer = false }
or_default (some s) = s

abbrev pub store : LockTable → Text → Option ProcessLockState → LockTable
store t path entry q = if text_eq q path then entry else t q

pub record ProcessLockGuard : Type 0 where
  pub path : Text
  pub exclusive : Bool

abbrev pub answer :
    LockTable → Text → Bool → Bool × ProcessLockState → Option ProcessLockGuard × LockTable
answer t path exclusive (granted, s) = (
  if granted then some (record { path = path; exclusive = exclusive }) else none,
  store t path (some s),
)

-- `ProcessLockGuard::try_acquire`
unfoldable pub acquire_guard : LockTable → Text → Bool → Option ProcessLockGuard × LockTable
acquire_guard t path exclusive =
    answer t path exclusive (try_acquire (or_default (t path)) exclusive)

-- `Drop for ProcessLockGuard`: an entry that is free again is removed.
abbrev released : Bool → ProcessLockState → ProcessLockState
released true s = record s { writer = false }
released false s = record s { readers = s.readers - 1 }

abbrev entry_of : ProcessLockState → Option ProcessLockState
entry_of s = if not s.writer && s.readers == 0 then none else some s

abbrev pub drop_entry : Bool → Option ProcessLockState → Option ProcessLockState
drop_entry exclusive none = none
drop_entry exclusive (some s) = entry_of (released exclusive s)

unfoldable pub drop_guard : LockTable → ProcessLockGuard → LockTable
drop_guard t g = store t g.path (drop_entry g.exclusive (t g.path))
