-- ===== src/Mvcc/Transactions/Queries.antt =====
-- bytedb-core/src/mvcc/transaction.rs: the methods that only look at the manager.
use byte_db.Common.{
  ℕ, Bool, false, Option, none, some, List, [], ◌∷◌, leb, if◌then◌else◌, length, nat_key,
}
use byte_db.HashMap.{get, keys, values}
use byte_db.Mvcc.Visibility.{TxnId, Timestamp}
use byte_db.Mvcc.Transactions.{TransactionManager, Transaction}

unfoldable pub deadline : TransactionManager → TxnId → Option ℕ
deadline tm txn_id = elim (get tm.active_txns txn_id) [ none ↦ none | some t ↦ t.deadline ]

-- `t.deadline.map(|d| now >= d).unwrap_or(false)`
abbrev pub is_late : ℕ → Option ℕ → Bool
is_late now none = false
is_late now (some d) = leb d now

abbrev pub late_ids : ℕ → List Transaction → List TxnId
late_ids now [] = []
late_ids now (t ∷ ts) =
    let rest = late_ids now ts in if is_late now t.deadline then t.id ∷ rest else rest

unfoldable pub timed_out_txns : TransactionManager → ℕ → List TxnId
timed_out_txns tm now = late_ids now (values tm.active_txns)

unfoldable pub get_commit_ts : TransactionManager → TxnId → Option Timestamp
get_commit_ts tm txn_id = get tm.committed_txns txn_id

unfoldable pub active_count : TransactionManager → ℕ
active_count tm = length tm.active_txns

unfoldable pub active_txn_ids : TransactionManager → List TxnId
active_txn_ids tm = keys tm.active_txns

unfoldable pub committed_count : TransactionManager → ℕ
committed_count tm = length tm.committed_txns

unfoldable pub ssi_recent_count : TransactionManager → ℕ
ssi_recent_count tm = length tm.ssi_recent

unfoldable pub ssi_active_count : TransactionManager → ℕ
ssi_active_count tm = length tm.ssi
