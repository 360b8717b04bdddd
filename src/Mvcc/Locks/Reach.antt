-- ===== src/Mvcc/Locks/Reach.antt =====
-- The steps of the lock manager, and the exclusion of conflicting locks in every manager that they
-- reach.
use byte_db.Common.{
  ℕ, ◌≡◌, some, [], ◌∷◌, leb, Bool-cases, Option-cases, inl, inr, bytes_key, pair_key,
}
use byte_db.HashMap.{get, retain_values, entry_or}
use byte_db.HashMap.Laws.{Entries, Entries-insert, Entries-remove, Entries-get}
use byte_db.Mvcc.Visibility.{TxnId}
use byte_db.Mvcc.Locks.{
  set_default_timeout, set_deadlock_check_interval_ms, wait_round, LockManager, new, acquire_round,
  release, release_all, release_state, release_all_state, remove_waiter_locked, enqueue, is_waiting,
}
use byte_db.Mvcc.Locks.Table.{
  LockKey, LockMode, LockState, LockTable, is_compatible, purge, is_idle,
}
use byte_db.Mvcc.Locks.Deadlock.{detect_deadlock}
use byte_db.Mvcc.Locks.Exclusion.{
  IsExclusive, add_holder-IsExclusive, remove_holder-IsExclusive, grant_pending-IsExclusive,
}

abbrev pub IsGuarded : LockTable → Type 0
IsGuarded locks = Entries (λ k (s : LockState). IsExclusive s.holders) locks

abbrev AtKey : LockKey → LockState → Type 0
AtKey k s = IsExclusive s.holders

entry-IsGuarded :
    (locks : LockTable) (key : LockKey) (s : LockState)
    → IsExclusive s.holders
    → IsGuarded locks
    → IsGuarded (entry_or locks key s).0 × IsExclusive (entry_or locks key s).1.holders
unfolding entry_or
entry-IsGuarded locks key s k h = elim (Option-cases (get locks key)) [
  | inl e ↦ rw (e, entry_or) (Entries-insert AtKey locks key s k h, k)
  | inr (t, e) ↦ rw (e, entry_or) (h, Entries-get AtKey locks key t h e)
]

remove_waiter-IsGuarded :
    (locks : LockTable) (key : LockKey) (txn : TxnId)
    → IsGuarded locks
    → IsGuarded (remove_waiter_locked locks key txn)
unfolding remove_waiter_locked purge
remove_waiter-IsGuarded locks key txn h = elim (Option-cases (get locks key)) [
  | inl e ↦ rw (e, remove_waiter_locked) h
  | inr (t, e) ↦
      rw (e, remove_waiter_locked)
        (Entries-insert AtKey locks key _ (Entries-get AtKey locks key t h e) h)
]

enqueue-IsExclusive :
    (s : LockState) (txn : TxnId) (mode : LockMode)
    → IsExclusive s.holders
    → IsExclusive (enqueue s txn mode).holders
enqueue-IsExclusive s txn mode h = elim (Bool-cases (is_waiting s txn)) [
  | inl y ↦ rw y h
  | inr n ↦ rw n h
]

wait-IsGuarded :
    (m : LockManager) (txn : TxnId) (key : LockKey) (timeout check_interval elapsed : ℕ)
    → IsGuarded m.locks
    → IsGuarded (wait_round m txn key timeout check_interval elapsed).0.locks
unfolding wait_round
wait-IsGuarded m txn key timeout check_interval elapsed h =
    let purged = remove_waiter-IsGuarded m.locks key txn h in
    elim (Bool-cases (detect_deadlock m.locks txn)) [
      | inl y ↦ rw (y, wait_round) purged
      | inr n ↦ elim (Bool-cases (leb timeout elapsed)) [
        | inl late ↦ rw (n, wait_round) (rw late purged)
        | inr early ↦ rw (n, wait_round) (rw early h)
      ]
    ]

acquire-IsGuarded :
    (m : LockManager) (txn : TxnId) (key : LockKey) (mode : LockMode)
    (timeout check_interval elapsed : ℕ)
    → IsGuarded m.locks
    → IsGuarded (acquire_round m txn key mode timeout check_interval elapsed).0.locks
unfolding acquire_round is_compatible
acquire-IsGuarded m txn key mode timeout check_interval elapsed h =
    let entry = entry_or m.locks key (record { holders = []; waiters = [] }) in
    let kept = entry-IsGuarded m.locks key (record { holders = []; waiters = [] }) tt h in
    elim (Bool-cases (is_compatible entry.1 mode txn)) [
      | inl y ↦
          rw (y, acquire_round)
            (Entries-insert AtKey entry.0 key _ (add_holder-IsExclusive txn mode _ y kept.1) kept.0)
      | inr n ↦
          rw (n, acquire_round)
            (wait-IsGuarded _ txn key timeout check_interval elapsed (
              Entries-insert AtKey entry.0 key (enqueue entry.1 txn mode)
                (enqueue-IsExclusive entry.1 txn mode kept.1) kept.0))
    ]

release_state-IsExclusive :
    (txn : TxnId) (s : LockState)
    → IsExclusive s.holders
    → IsExclusive (release_state txn s).holders
unfolding release_state
release_state-IsExclusive txn s h =
    grant_pending-IsExclusive _ s.waiters (remove_holder-IsExclusive txn s.holders h)

release-IsGuarded :
    (m : LockManager) (txn : TxnId) (key : LockKey)
    → IsGuarded m.locks
    → IsGuarded (release m txn key).locks
unfolding release
release-IsGuarded m txn key h = elim (Option-cases (get m.locks key)) [
  | inl e ↦ rw (e, release) h
  | inr (s, e) ↦
      rw (e, release)
        (elim (Bool-cases (is_idle (release_state txn s))) [
          | inl y ↦ rw y (Entries-remove AtKey m.locks key h)
          | inr n ↦ rw n (
              Entries-insert AtKey m.locks key _
                (release_state-IsExclusive txn s (Entries-get AtKey m.locks key s h e)) h)
        ])
]

release_all-entries :
    (txn : TxnId) (locks : LockTable)
    → IsGuarded locks
    → IsGuarded (retain_values (release_all_state txn) locks)
unfolding retain_values release_all_state purge
release_all-entries txn [] h = tt
release_all-entries txn ((k, s) ∷ locks) h =
    elim (Bool-cases (is_idle (release_state txn (purge s txn)))) [
      | inl y ↦ rw (y, retain_values) (release_all-entries txn locks h.1)
      | inr n ↦
          rw (n, retain_values)
            (release_state-IsExclusive txn (purge s txn) h.0, release_all-entries txn locks h.1)
    ]

-- One call of a method that changes the manager, or one round of `acquire_with_timeout`.
pub data Step : LockManager → LockManager → Type 0 where
  acquires :
      (m : LockManager) (txn : TxnId) (key : LockKey) (mode : LockMode)
      (timeout check_interval elapsed : ℕ)
      → Step m (acquire_round m txn key mode timeout check_interval elapsed).0
  releases : (m : LockManager) (txn : TxnId) (key : LockKey) → Step m (release m txn key)
  releases_all : (m : LockManager) (txn : TxnId) → Step m (release_all m txn)
  sets_timeout : (m : LockManager) (d : ℕ) → Step m (set_default_timeout m d)
  sets_interval : (m : LockManager) (ms : ℕ) → Step m (set_deadlock_check_interval_ms m ms)

pub data Reach : LockManager → Type 0 where
  start : Reach new
  step : {a b : LockManager} → Reach a → Step a b → Reach b

Step-IsGuarded : {a b : LockManager} → Step a b → IsGuarded a.locks → IsGuarded b.locks
unfolding release_all
Step-IsGuarded (acquires m txn key mode timeout check_interval elapsed) h =
    acquire-IsGuarded m txn key mode timeout check_interval elapsed h
Step-IsGuarded (releases m txn key) h = release-IsGuarded m txn key h
Step-IsGuarded (releases_all m txn) h = release_all-entries txn m.locks h
Step-IsGuarded (sets_timeout m d) h = h
Step-IsGuarded (sets_interval m ms) h = h

Reach-IsGuarded : {m : LockManager} → Reach m → IsGuarded m.locks
unfolding new
Reach-IsGuarded start = tt
Reach-IsGuarded (step r s) = Step-IsGuarded s (Reach-IsGuarded r)

-- In every lock manager that rounds of `acquire_with_timeout` and calls of the other methods reach
-- from a new one, in any order, the holders of a lock are different transactions, and if there are
-- two of them then all hold it in shared mode.
pub holders-IsExclusive :
    {m : LockManager} (key : LockKey) (s : LockState)
    → Reach m
    → get m.locks key ≡ some s
    → IsExclusive s.holders
holders-IsExclusive {m} key s r e = Entries-get AtKey m.locks key s (Reach-IsGuarded r) e
