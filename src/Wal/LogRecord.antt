-- ===== src/Wal/LogRecord.antt =====
-- bytedb-core/src/wal/log_record.rs: the records of the log. Their encoding is a JSON library's, so
-- it is a parameter wherever it is used.
use byte_db.Common.{ℕ, Option, none, some, List, Bytes}

abbrev pub Lsn : Type 0
Lsn = ℕ

abbrev pub TxnId : Type 0
TxnId = ℕ

pub data LogRecord : Type 0 where
  begin : (txn_id : TxnId) → LogRecord
  insert : (txn_id : TxnId) (table_id page_id slot : ℕ) (data_bytes : Bytes) → LogRecord
  update : (txn_id : TxnId) (table_id page_id slot : ℕ) (old_data new_data : Bytes) → LogRecord
  delete : (txn_id : TxnId) (table_id page_id slot : ℕ) (old_data : Bytes) → LogRecord
  commit : (txn_id : TxnId) → LogRecord
  abort : (txn_id : TxnId) → LogRecord
  checkpoint : (active_txns : List TxnId) → LogRecord

unfoldable pub txn_id : LogRecord → Option TxnId
txn_id (begin t) = some t
txn_id (insert t table_id page_id slot data_bytes) = some t
txn_id (update t table_id page_id slot old_data new_data) = some t
txn_id (delete t table_id page_id slot old_data) = some t
txn_id (commit t) = some t
txn_id (abort t) = some t
txn_id (checkpoint active_txns) = none
