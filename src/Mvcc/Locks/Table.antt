-- ===== src/Mvcc/Locks/Table.antt =====
-- bytedb-core/src/mvcc/lock_manager.rs: the state of one lock, who holds it and who waits for it.
use byte_db.Common.{
  Bool, true, false, List, [], ◌∷◌, not, all, ◌==◌, ◌&&◌, if◌then◌else◌, is_empty, length, retain,
  Bytes,
}
use byte_db.HashMap.{HashMap}
use byte_db.Mvcc.Visibility.{TxnId}

pub data LockMode : Type 0 where
  shared exclusive : LockMode

-- a table's name and a key
abbrev pub LockKey : Type 0
LockKey = Bytes × Bytes

pub record Holder : Type 0 where
  pub txn : TxnId
  pub mode : LockMode

pub record WaitEntry : Type 0 where
  pub txn : TxnId
  pub mode : LockMode

pub record LockState : Type 0 where
  pub holders : List Holder
  pub waiters : List WaitEntry

abbrev pub LockTable : Type 0
LockTable = HashMap LockKey LockState

-- `h.mode == LockMode::Shared`
abbrev pub is_shared : LockMode → Bool
is_shared shared = true
is_shared exclusive = false

-- the test of `is_compatible`, which `grant_pending` repeats
unfoldable pub may_hold : List Holder → LockMode → TxnId → Bool
may_hold holders mode requesting =
    if is_empty holders
    then true
    else if all (λ h. h.txn == requesting) holders
    then true
    else elim mode [ shared ↦ all (λ h. is_shared h.mode) holders | exclusive ↦ false ]

unfoldable pub is_compatible : LockState → LockMode → TxnId → Bool
unfolding may_hold
is_compatible state mode requesting = may_hold state.holders mode requesting

-- `if mode == LockMode::Exclusive { h.mode = LockMode::Exclusive; }`
abbrev pub raise : Holder → LockMode → Holder
raise h shared = h
raise h exclusive = record h { mode = exclusive }

-- the first holder of that transaction is changed, or a new one pushed
unfoldable pub add_holder : List Holder → TxnId → LockMode → List Holder
add_holder [] txn mode = record { txn = txn; mode = mode } ∷ []
add_holder (h ∷ hs) txn mode =
    if h.txn == txn then raise h mode ∷ hs else h ∷ add_holder hs txn mode

-- the holders after it, and whether one was removed
unfoldable pub remove_holder : List Holder → TxnId → List Holder × Bool
remove_holder holders txn =
    let left = retain (λ (h : Holder). not (h.txn == txn)) holders in
    (left, not (length left == length holders))

-- `state.waiters.retain(|w| w.txn != txn)`
unfoldable pub purge : LockState → TxnId → LockState
purge state txn = record state {
  waiters = retain (λ (w : WaitEntry). not (w.txn == txn)) state.waiters;
}

-- the loop over the front of the queue
unfoldable pub grant_pending : List Holder → List WaitEntry → LockState
unfolding may_hold add_holder
grant_pending holders [] = record { holders = holders; waiters = [] }
grant_pending holders (w ∷ ws) =
    let rest = grant_pending (add_holder holders w.txn w.mode) ws in
    if may_hold holders w.mode w.txn then rest else record { holders = holders; waiters = w ∷ ws }

-- `state.holders.is_empty() && state.waiters.is_empty()`
abbrev pub is_idle : LockState → Bool
is_idle state = is_empty state.holders && is_empty state.waiters
