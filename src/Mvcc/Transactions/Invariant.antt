-- ===== src/Mvcc/Transactions/Invariant.antt =====
-- What holds of every transaction manager that the methods can reach.
use byte_db.Common.{
  ◌≤◌, ◌⊎◌, ℕ, ◌+◌, ◌^◌, ◌<◌, ◌≡◌, refl, Option, none, [], ◌∷◌, arith, All, nat_key, Option-cases,
  inl, inr,
}
use byte_db.HashMap.{HashMap, get, keys, IsDistinct}
use byte_db.HashMap.Laws.{
  Entries, Entries-insert, Entries-get, Entries-imp, get-insert, insert-IsDistinct,
}
use byte_db.Mvcc.Visibility.{TxnId, Timestamp}
use byte_db.Mvcc.Transactions.{
  started, Transaction, TransactionManager, TxnStatus, IsolationLevel, new, next,
  begin_with_timeout,
}

-- an entry of the active table, below the counters `n` and `ts`
pub record IsStarted (n ts : ℕ) (id : TxnId) (txn : Transaction) : Type 0 where
  pub same_id : txn.id ≡ id
  pub id_used : id < n
  pub ts_used : txn.start_ts < ts
  pub status : txn.status ≡ TxnStatus.active
  pub uncommitted : txn.commit_ts ≡ none
  pub older : All (λ x. x < id) txn.snapshot_active

pub record IsRecorded (n ts : ℕ) (id : TxnId) (commit_ts : Timestamp) : Type 0 where
  pub id_used : id < n
  pub ts_used : commit_ts < ts

pub record IsWell (tm : TransactionManager) : Type 0 where
  pub distinct : IsDistinct tm.active_txns
  pub started : Entries (IsStarted tm.next_txn_id tm.next_timestamp) tm.active_txns
  pub recorded : Entries (IsRecorded tm.next_txn_id tm.next_timestamp) tm.committed_txns
  pub record_distinct : IsDistinct tm.committed_txns
  -- no transaction is active and committed
  pub apart : (id : TxnId) → (get tm.active_txns id ≡ none) ⊎ (get tm.committed_txns id ≡ none)

pub new-IsWell : IsWell new
unfolding new get
new-IsWell = record {
  distinct = tt;
  started = tt;
  recorded = tt;
  record_distinct = tt;
  apart = λ id. inl refl;
}

pub IsStarted-later :
    (n m ts us : ℕ)
    → n ≤ m
    → ts ≤ us
    → (id : TxnId) (txn : Transaction) → IsStarted n ts id txn
    → IsStarted m us id txn
IsStarted-later n m ts us p q id txn h = record {
  same_id = h.same_id;
  id_used = omega (arith, h.id_used);
  ts_used = omega (arith, h.ts_used);
  status = h.status;
  uncommitted = h.uncommitted;
  older = h.older;
}

pub IsRecorded-later :
    (n m ts us : ℕ)
    → n ≤ m
    → ts ≤ us
    → (id : TxnId) (c : Timestamp) → IsRecorded n ts id c
    → IsRecorded m us id c
IsRecorded-later n m ts us p q id c h = record {
  id_used = omega (arith, h.id_used);
  ts_used = omega (arith, h.ts_used);
}

keys-below :
    (n ts : ℕ) (m : HashMap TxnId Transaction)
    → Entries (IsStarted n ts) m
    → All (λ x. x < n) (keys m)
keys-below n ts [] h = tt
keys-below n ts ((id, txn) ∷ m) h = (h.0.id_used, keys-below n ts m h.1)

-- an identifier that was never given out
unused : (tm : TransactionManager) → IsWell tm → get tm.committed_txns tm.next_txn_id ≡ none
unused tm h = elim (Option-cases (get tm.committed_txns tm.next_txn_id)) [
  | inl e ↦ e
  | inr (c, e) ↦ absurd (
      omega (
        arith,
        (Entries-get (IsRecorded _ _) tm.committed_txns tm.next_txn_id c h.recorded e).id_used,
      ))
]

pub begin-IsWell :
    (tm : TransactionManager) (now : ℕ) (isolation : IsolationLevel) (timeout : Option ℕ)
    → IsWell tm
    → tm.next_txn_id + 1 < 2 ^ 64
    → tm.next_timestamp + 1 < 2 ^ 64
    → IsWell (begin_with_timeout tm now isolation timeout).0
unfolding begin_with_timeout
begin-IsWell tm now isolation timeout h p q =
    let n = tm.next_txn_id in
    let ts = tm.next_timestamp in
    record {
      distinct = insert-IsDistinct tm.active_txns n _ h.distinct;
      started =
          Entries-insert (IsStarted (next n) (next ts)) tm.active_txns n _
            (record {
              same_id = refl;
              id_used = omega arith;
              ts_used = omega arith;
              status = refl;
              uncommitted = refl;
              older = keys-below n ts tm.active_txns h.started;
            })
            (Entries-imp (IsStarted-later n (next n) ts (next ts) (omega arith) (omega arith))
              tm.active_txns h.started);
      recorded =
          Entries-imp (IsRecorded-later n (next n) ts (next ts) (omega arith) (omega arith))
            tm.committed_txns h.recorded;
      record_distinct = h.record_distinct;
      apart = λ id. ground (
        arith,
        get-insert tm.active_txns n (started tm now isolation timeout) id,
        h.apart id,
        unused tm h,
      );
    }
