-- ===== src/Mvcc/Locks.antt =====
-- bytedb-core/src/mvcc/lock_manager.rs: the lock table. Every method holds the table's mutex, and
-- `acquire_with_timeout` gives it up only at the end of a round of its loop, so a call of `release`
-- or `release_all` is one step and so is one round of `acquire_with_timeout`.
pub mod Table
pub mod Deadlock
pub mod Exclusion
pub mod Reach
pub mod Outcome
pub mod Cycles
pub mod Search
pub mod WaitGraph
pub mod Release
use byte_db.Common.{
  ℕ, ◌+◌, ◌*◌, ◌-◌, ◌%◌, ◌^◌, min, Bool, true, false, Option, none, some, List, [], ◌∷◌, ◌++◌, not,
  any, leb, ltb, ◌==◌, if◌then◌else◌, retain, bytes_key, pair_key,
}
use byte_db.Error.{CoreError, Result, ok, err}
use byte_db.HashMap.{HashMap, get, insert, entry_or, remove, values, retain_values}
use byte_db.Mvcc.Visibility.{TxnId}
use byte_db.Mvcc.Locks.Table.{
  LockKey, LockMode, LockState, LockTable, Holder, WaitEntry, is_compatible, add_holder,
  remove_holder, grant_pending, purge, is_idle,
}
use byte_db.Mvcc.Locks.Deadlock.{detect_deadlock}

pub record LockMetrics : Type 0 where
  pub acquires : ℕ
  pub releases : ℕ
  pub waits : ℕ
  pub timeouts : ℕ
  pub deadlocks : ℕ
  pub total_wait_micros : ℕ

-- durations are in microseconds, the check interval in milliseconds
pub record LockManager : Type 0 where
  pub locks : LockTable
  pub metrics : LockMetrics
  pub default_timeout : ℕ
  pub deadlock_check_interval : ℕ

-- `fetch_add` on an `AtomicU64`
abbrev pub fetch_add : ℕ → ℕ → ℕ
fetch_add counter n = (counter + n) % 2 ^ 64

unfoldable pub new : LockManager
new = record {
  locks = [];
  metrics = record {
    acquires = 0;
    releases = 0;
    waits = 0;
    timeouts = 0;
    deadlocks = 0;
    total_wait_micros = 0;
  };
  default_timeout = 5000000;
  deadlock_check_interval = 50;
}

abbrev pub set_default_timeout : LockManager → ℕ → LockManager
set_default_timeout m d = record m { default_timeout = d }

abbrev pub set_deadlock_check_interval_ms : LockManager → ℕ → LockManager
set_deadlock_check_interval_ms m ms = record m { deadlock_check_interval = ms }

-- how a round of the loop of `acquire_with_timeout` ends: it returns, or it sleeps at most that long
pub data Round : Type 0 where
  granted : Round
  failed : CoreError → Round
  sleeping : ℕ → Round

-- what a round does to the counters, by its end
abbrev pub count_grant : LockMetrics → ℕ → LockMetrics
count_grant m waited = record m {
  acquires = fetch_add m.acquires 1;
  total_wait_micros =
      if ltb 0 waited then fetch_add m.total_wait_micros waited else m.total_wait_micros;
}

abbrev pub count_wait : Bool → LockMetrics → LockMetrics
count_wait true m = m
count_wait false m = record m { waits = fetch_add m.waits 1 }

abbrev pub count_timeout : LockMetrics → ℕ → LockMetrics
count_timeout m elapsed = record m {
  timeouts = fetch_add m.timeouts 1;
  total_wait_micros = fetch_add m.total_wait_micros elapsed;
}

-- `state.waiters.iter().any(|w| w.txn == txn)`
abbrev pub is_waiting : LockState → TxnId → Bool
is_waiting state txn = any (λ w. w.txn == txn) state.waiters

-- the wait that is noted, unless the transaction waits here already
abbrev pub enqueue : LockState → TxnId → LockMode → LockState
enqueue state txn mode =
    if is_waiting state txn
    then state
    else record state { waiters = state.waiters ++ record { txn = txn; mode = mode } ∷ [] }

unfoldable pub remove_waiter_locked : LockTable → LockKey → TxnId → LockTable
unfolding purge
remove_waiter_locked locks key txn = elim (get locks key) [
  | none ↦ locks
  | some state ↦ insert locks key (purge state txn)
]

-- the rest of a round, after the wait is noted: a deadlock, a timeout, or the sleep
unfoldable pub wait_round : LockManager → TxnId → LockKey → ℕ → ℕ → ℕ → LockManager × Round
unfolding remove_waiter_locked
wait_round m txn key timeout check_interval elapsed =
    if detect_deadlock m.locks txn
    then (
      record m {
        locks = remove_waiter_locked m.locks key txn;
        metrics = record m.metrics { deadlocks = fetch_add m.metrics.deadlocks 1 };
      },
      failed CoreError.deadlock,
    )
    else if leb timeout elapsed
    then (
      record m {
        locks = remove_waiter_locked m.locks key txn;
        metrics = count_timeout m.metrics elapsed;
      },
      failed (CoreError.lock_timeout txn),
    )
    else (m, sleeping (min (timeout - elapsed) check_interval))

-- one round of the loop, at the time `elapsed` since the call. `check_interval` is what the call
-- read from the manager at its start, as a duration.
unfoldable pub acquire_round :
    LockManager → TxnId → LockKey → LockMode → ℕ → ℕ → ℕ → LockManager × Round
unfolding wait_round
acquire_round m txn key mode timeout check_interval elapsed =
    let (locks, state) = entry_or m.locks key (record { holders = []; waiters = [] }) in
    if is_compatible state mode txn
    then (
      record m {
        locks = insert locks key (record state { holders = add_holder state.holders txn mode });
        metrics = count_grant m.metrics elapsed;
      },
      granted,
    )
    else wait_round
        (record m {
          locks = insert locks key (enqueue state txn mode);
          metrics = count_wait (is_waiting state txn) m.metrics;
        })
        txn key timeout check_interval elapsed

abbrev pub count_release : Bool → LockMetrics → LockMetrics
count_release true m = record m { releases = fetch_add m.releases 1 }
count_release false m = m

-- what `release` leaves of the state of its key
unfoldable pub release_state : TxnId → LockState → LockState
unfolding remove_holder grant_pending
release_state txn state = grant_pending (remove_holder state.holders txn).0 state.waiters

unfoldable pub release : LockManager → TxnId → LockKey → LockManager
unfolding release_state
release m txn key = elim (get m.locks key) [
  | none ↦ m
  | some state ↦
      let state' = release_state txn state in
      record m {
        locks = if is_idle state' then remove m.locks key else insert m.locks key state';
        metrics = count_release (remove_holder state.holders txn).1 m.metrics;
      }
]

-- what `release_all` leaves of each state, which is dropped if nothing is left in it
unfoldable pub release_all_state : TxnId → LockState → Option LockState
unfolding release_state purge
release_all_state txn state =
    let state' = release_state txn (purge state txn) in if is_idle state' then none else some state'

abbrev pub count_releases : TxnId → List LockState → LockMetrics → LockMetrics
count_releases txn [] m = m
count_releases txn (s ∷ ss) m =
    count_releases txn ss (count_release (remove_holder s.holders txn).1 m)

unfoldable pub release_all : LockManager → TxnId → LockManager
unfolding release_all_state
release_all m txn = record m {
  locks = retain_values (release_all_state txn) m.locks;
  metrics = count_releases txn (values m.locks) m.metrics;
}

-- a round of `acquire`, which takes the manager's own timeout; a millisecond has 1000 microseconds
unfoldable pub acquire : LockManager → TxnId → LockKey → LockMode → ℕ → LockManager × Round
unfolding acquire_round
acquire m txn key mode elapsed =
    acquire_round m txn key mode m.default_timeout (1000 * m.deadlock_check_interval) elapsed

unfoldable pub metrics_of : LockManager → LockMetrics
metrics_of m = m.metrics
