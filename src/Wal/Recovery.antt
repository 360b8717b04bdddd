-- ===== src/Wal/Recovery.antt =====
-- bytedb-core/src/wal/recovery.rs: what a restart takes from the log. A `HashSet` is a list without
-- repetition.
pub mod Outcome
use byte_db.Common.{
  ℕ, Bool, true, false, Option, none, some, List, [], ◌∷◌, not, leb, ◌==◌, if◌then◌else◌, contains,
  retain, reverse, Bytes,
}
use byte_db.Error.{Result, ok, err}
use byte_db.Wal.LogRecord.{LogRecord, Lsn, TxnId, txn_id}
use byte_db.Wal.LogManager.{read_all_records}

pub record RecoveryResult : Type 0 where
  pub redo_records : List (Lsn × LogRecord)
  pub undo_records : List (Lsn × LogRecord)
  pub committed_txns : List TxnId
  pub aborted_txns : List TxnId

-- the sets of `analyze_records`
pub record Analysis : Type 0 where
  pub active_txns : List TxnId
  pub committed_txns : List TxnId
  pub aborted_txns : List TxnId

abbrev pub set_insert : List TxnId → TxnId → List TxnId
set_insert xs t = if contains xs t then xs else t ∷ xs

abbrev pub set_remove : List TxnId → TxnId → List TxnId
set_remove xs t = retain (λ x. not (x == t)) xs

abbrev pub insert_all : List TxnId → List TxnId → List TxnId
insert_all xs [] = xs
insert_all xs (t ∷ ts) = insert_all (set_insert xs t) ts

-- one round of the first loop
unfoldable pub analyze : Analysis → LogRecord → Analysis
analyze a (LogRecord.begin t) = record a { active_txns = set_insert a.active_txns t }
analyze a (LogRecord.commit t) = record a {
  active_txns = set_remove a.active_txns t;
  committed_txns = set_insert a.committed_txns t;
}
analyze a (LogRecord.abort t) = record a {
  active_txns = set_remove a.active_txns t;
  aborted_txns = set_insert a.aborted_txns t;
}
analyze a (LogRecord.checkpoint ts) = record a { active_txns = insert_all [] ts }
analyze a _ = a

unfoldable pub analyze_all : Analysis → List (Lsn × LogRecord) → Analysis
unfolding analyze
analyze_all a [] = a
analyze_all a ((lsn, entry) ∷ records) = analyze_all (analyze a entry) records

-- the records that change data
abbrev pub is_change : LogRecord → Bool
is_change (LogRecord.insert t table_id page_id slot bytes) = true
is_change (LogRecord.update t table_id page_id slot old_data new_data) = true
is_change (LogRecord.delete t table_id page_id slot old_data) = true
is_change _ = false

-- the test of the second and the third loop
abbrev pub changes_for : List TxnId → Lsn × LogRecord → Bool
changes_for txns (lsn, entry) = elim (txn_id entry) [
  | none ↦ false
  | some t ↦ if contains txns t then is_change entry else false
]

unfoldable pub analyze_records : List (Lsn × LogRecord) → RecoveryResult
unfolding analyze_all txn_id
analyze_records records =
    let a =
      analyze_all (record { active_txns = []; committed_txns = []; aborted_txns = [] }) records in
    record {
      redo_records = retain (changes_for a.committed_txns) records;
      undo_records = retain (changes_for a.active_txns) (reverse records);
      committed_txns = a.committed_txns;
      aborted_txns = a.active_txns;
    }

-- `recover_inner` on the records that were read
unfoldable pub recover_records : List (Lsn × LogRecord) → Option Lsn → RecoveryResult
unfolding analyze_records
recover_records all none = analyze_records all
recover_records all (some t) = analyze_records (retain (λ x. leb x.0 t) all)

abbrev pub finish :
    Option Lsn
    → Option (Result (List (Lsn × LogRecord)) × Bytes)
    → Option (Result RecoveryResult × Bytes)
finish target none = none
finish target (some (ok all, file)) = some (ok (recover_records all target), file)
finish target (some (err e, file)) = some (err e, file)

-- `recover` and `recover_to_lsn` on the log's file; the file may be cut off by the reading
unfoldable pub recover_inner :
    (Bytes → ℕ)
    → (Bytes → Option LogRecord)
    → Bytes
    → Option Lsn
    → Option (Result RecoveryResult × Bytes)
unfolding recover_records
recover_inner hash deserialize file target = finish target (read_all_records hash deserialize file)
