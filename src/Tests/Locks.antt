-- ===== src/Tests/Locks.antt =====
-- Witnesses for the properties of the lock manager.
use byte_db.Common.{◌≡◌, refl, true, some, [], ◌∷◌, bytes_key, pair_key, ◌↔◌}
use byte_db.HashMap.{get, insert, retain_values, entry_or}
use byte_db.Mvcc.Locks.{
  LockManager, new, acquire_round, release_all, release_state, release_all_state,
}
use byte_db.Mvcc.Locks.Table.{
  LockKey, LockMode, LockState, LockTable, is_compatible, may_hold, add_holder, remove_holder,
  grant_pending, purge,
}
use byte_db.Mvcc.Locks.Deadlock.{detect_deadlock}
use byte_db.Mvcc.Locks.Cycles.{HasCycle}
use byte_db.Mvcc.Locks.WaitGraph.{IsWaiting, detect_deadlock_iff}
use byte_db.Mvcc.Locks.Exclusion.{IsExclusive}
use byte_db.Mvcc.Locks.Reach.{Reach, start, step, acquires, holders-IsExclusive}
use byte_db.Mvcc.Locks.Outcome.{IsSettled, acquire_outcome, holders_of}
use byte_db.Mvcc.Locks.Release.{IsCleared, release_all-IsCleared}

abbrev row : LockKey
row = (116 ∷ [], 97 ∷ [])

abbrev other_row : LockKey
other_row = (116 ∷ [], 98 ∷ [])

-- transactions 1 and 2 share a lock
shared_twice : LockManager
shared_twice =
    (acquire_round (acquire_round new 1 row LockMode.shared 500 50 0).0 2 row LockMode.shared 500 50
      0).0

shared_twice-Reach : Reach shared_twice
unfolding shared_twice
shared_twice-Reach =
    step (step start (acquires new 1 row LockMode.shared 500 50 0))
      (acquires (acquire_round new 1 row LockMode.shared 500 50 0).0 2 row LockMode.shared 500 50 0)

abbrev two_sharers : LockState
two_sharers = record {
  holders =
      record { txn = 1; mode = LockMode.shared } ∷ record { txn = 2; mode = LockMode.shared } ∷ [];
  waiters = [];
}

holders-IsExclusive_example : IsExclusive two_sharers.holders
unfolding shared_twice acquire_round new entry_or get insert is_compatible may_hold add_holder
holders-IsExclusive_example = holders-IsExclusive row two_sharers shared_twice-Reach refl

-- transaction 3 asks for the lock alone, and waits
acquire_outcome_example :
    let r = acquire_round shared_twice 3 row LockMode.exclusive 500 50 0 in
    (s : LockState) × (get r.0.locks row ≡ some s)
    × IsSettled 3 LockMode.exclusive 500 50 0 (holders_of (get shared_twice.locks row)) r.1 s
acquire_outcome_example = acquire_outcome 3 row LockMode.exclusive 500 50 0 shared_twice

abbrev sharer : LockState
sharer = record { holders = record { txn = 1; mode = LockMode.shared } ∷ []; waiters = [] }

release_all-IsCleared_example : IsCleared 2 sharer
unfolding shared_twice acquire_round new entry_or get insert is_compatible may_hold add_holder
    release_all retain_values release_all_state release_state purge remove_holder grant_pending
release_all-IsCleared_example = release_all-IsCleared 2 shared_twice row sharer refl

-- transactions 1 and 2 each hold what the other one waits for
abbrev crossed : LockTable
crossed =
    (
      row,
      record {
        holders = record { txn = 1; mode = LockMode.exclusive } ∷ [];
        waiters = record { txn = 2; mode = LockMode.shared } ∷ [];
      },
    )
    ∷ (
      other_row,
      record {
        holders = record { txn = 2; mode = LockMode.exclusive } ∷ [];
        waiters = record { txn = 1; mode = LockMode.shared } ∷ [];
      },
    )
    ∷ []

detect_deadlock_iff_example : (detect_deadlock crossed 2 ≡ true) ↔ HasCycle (IsWaiting crossed) 2
detect_deadlock_iff_example = detect_deadlock_iff crossed 2
