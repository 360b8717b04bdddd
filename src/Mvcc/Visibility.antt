-- ===== src/Mvcc/Visibility.antt =====
-- bytedb-core/src/mvcc/visibility.rs and the visibility test of version_store.rs: which version of
-- a row a snapshot sees. `D` is the type of the stored tuple, which neither test looks at.
use byte_db.Common.{
  ℕ, Bool, true, false, Option, none, some, List, ◌&&◌, ◌||◌, not, leb, ltb, ◌==◌, holds, is_some,
  if◌then◌else◌, contains,
}

abbrev pub TxnId : Type 0
TxnId = ℕ

abbrev pub Timestamp : Type 0
Timestamp = ℕ

pub record VersionedTuple (D : Type 0) : Type 0 where
  pub tuple : D
  pub created_by : TxnId
  pub deleted_by : Option TxnId
  pub created_ts : Timestamp
  pub deleted_ts : Option Timestamp

pub record Snapshot : Type 0 where
  pub txn_id : TxnId
  pub start_ts : Timestamp
  pub active_txns : List TxnId

-- `if let Some(ts) = deleted_ts { if ts <= bound { … } }`
abbrev pub at_most : Option Timestamp → Timestamp → Bool
at_most none bound = false
at_most (some t) bound = leb t bound

-- The last test of both functions, on a version whose creation the snapshot sees: a deletion hides
-- it if it is the snapshot's own, or that of a transaction outside `active` and not later.
abbrev pub deletion_hides : Option TxnId → Option Timestamp → TxnId → Timestamp → List TxnId → Bool
deletion_hides none ts txn_id start_ts active = false
deletion_hides (some d) ts txn_id start_ts active =
    if d == txn_id then true else if contains active d then false else at_most ts start_ts

-- `if let Some(d) = deleted_by { d != txn_id && active.contains(&d) }`
abbrev pub by_other_active : Option TxnId → TxnId → List TxnId → Bool
by_other_active none txn_id active = false
by_other_active (some d) txn_id active = not (d == txn_id) && contains active d

module _ {D : Type 0} where
  -- `is_tuple_visible` of visibility.rs
  unfoldable pub is_tuple_visible : VersionedTuple D → Snapshot → Bool
  is_tuple_visible version snapshot =
      if version.created_by == snapshot.txn_id
      then not (is_some version.deleted_by) || not (holds version.deleted_by snapshot.txn_id)
      else if contains snapshot.active_txns version.created_by
      then false
      else if ltb snapshot.start_ts version.created_ts
      then false
      else not (
          deletion_hides version.deleted_by version.deleted_ts snapshot.txn_id snapshot.start_ts
            snapshot.active_txns)

  -- `is_visible` of version_store.rs, which the store uses
  unfoldable pub is_visible : VersionedTuple D → TxnId → Timestamp → List TxnId → Bool
  is_visible version txn_id snapshot_ts active_txns =
      if version.created_by == txn_id
      then not (is_some version.deleted_by) || holds version.deleted_by txn_id
      else if contains active_txns version.created_by
      then false
      else if ltb snapshot_ts version.created_ts
      then false
      else not (deletion_hides version.deleted_by version.deleted_ts txn_id snapshot_ts active_txns)

  -- `check_write_conflict` of visibility.rs
  unfoldable pub check_write_conflict : VersionedTuple D → TxnId → Snapshot → Bool
  check_write_conflict version txn_id snapshot =
      if by_other_active version.deleted_by txn_id snapshot.active_txns
      then true
      else not (version.created_by == txn_id)
        && contains snapshot.active_txns version.created_by
        && ltb snapshot.start_ts version.created_ts
