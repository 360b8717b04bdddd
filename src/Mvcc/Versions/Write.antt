-- ===== src/Mvcc/Versions/Write.antt =====
-- The calls by which a transaction changes a version store, and a run of them.
use byte_db.Common.{List, [], ◌∷◌, Bytes}
use byte_db.Mvcc.Visibility.{Timestamp, TxnId}
use byte_db.Mvcc.Versions.{VersionStore, insert, delete, try_delete, try_update}
use byte_db.Mvcc.Versions.View.{IsSharded}
use byte_db.Mvcc.Versions.Sharded.{
  insert-IsSharded, delete-IsSharded, try_delete-IsSharded, try_update-IsSharded,
}

-- one call of the method of that name, with its arguments but the transaction's id
pub data Write (D : Type 0) : Type 0 where
  inserting : Bytes → D → Timestamp → Write D
  deleting : Bytes → Timestamp → Write D
  try_deleting : Bytes → Timestamp → Timestamp → List TxnId → Write D
  try_updating : Bytes → D → Timestamp → Timestamp → List TxnId → Write D

module _ {D : Type 0} where
  unfoldable pub write : TxnId → Write D → VersionStore D → VersionStore D
  write txn_id (inserting key tuple ts) s = insert s key tuple txn_id ts
  write txn_id (deleting key ts) s = (delete s key txn_id ts).0
  write txn_id (try_deleting key ts snapshot_ts active) s =
      (try_delete s key txn_id ts snapshot_ts active).1
  write txn_id (try_updating key tuple ts snapshot_ts active) s =
      (try_update s key tuple txn_id ts snapshot_ts active).1

  unfoldable pub write_all : TxnId → List (Write D) → VersionStore D → VersionStore D
  unfolding write
  write_all txn_id [] s = s
  write_all txn_id (w ∷ ws) s = write_all txn_id ws (write txn_id w s)

  pub write-IsSharded :
      (txn_id : TxnId) (w : Write D) (s : VersionStore D)
      → IsSharded s
      → IsSharded (write txn_id w s)
  unfolding write
  write-IsSharded t (inserting key tuple ts) s h = insert-IsSharded s key tuple t ts h
  write-IsSharded t (deleting key ts) s h = delete-IsSharded s key t ts h
  write-IsSharded t (try_deleting key ts sts active) s h =
      try_delete-IsSharded s key t ts sts active h
  write-IsSharded t (try_updating key tuple ts sts active) s h =
      try_update-IsSharded s key tuple t ts sts active h

  pub write_all-IsSharded :
      (txn_id : TxnId) (ws : List (Write D)) (s : VersionStore D)
      → IsSharded s
      → IsSharded (write_all txn_id ws s)
  unfolding write_all
  write_all-IsSharded t [] s h = h
  write_all-IsSharded t (w ∷ ws) s h =
      write_all-IsSharded t ws (write t w s) (write-IsSharded t w s h)
