-- ===== src/Mvcc/Transactions/Snapshots.antt =====
-- The snapshot that a transaction gets when it begins, and what the version store shows under it.
use byte_db.Common.{
  ==_refl, ℕ, ◌<◌, ◌≡◌, refl, ◌∙◌, false, Option, some, [], ◌∷◌, ◌==◌, not, contains, arith,
  nat_key,
}
use byte_db.Error.{ok}
use byte_db.HashMap.{HashMap, get, contains_key, keys}
use byte_db.HashMap.Laws.{get-insert}
use byte_db.Mvcc.Visibility.{TxnId, Timestamp, VersionedTuple, Snapshot, is_visible}
use byte_db.Mvcc.Chain.{version, mark_deleted}
use byte_db.Mvcc.Transactions.{
  TransactionManager, IsolationLevel, begin_with_timeout, started, get_snapshot, is_active,
}

contains-keys {ℓ} :
    {V : Type ℓ} (m : HashMap TxnId V) (w : TxnId) → contains (keys m) w ≡ contains_key m w
unfolding contains_key
contains-keys [] w = refl
contains-keys ((j, v) ∷ m) w = ground (arith, contains-keys m w)

module _ (tm : TransactionManager) (now : ℕ) (isolation : IsolationLevel) (timeout : Option ℕ) where
  abbrev begun : TransactionManager
  begun = (begin_with_timeout tm now isolation timeout).0

  entry_of_begin : get begun.active_txns tm.next_txn_id ≡ some (started tm now isolation timeout)
  unfolding begin_with_timeout
  entry_of_begin =
      get-insert tm.active_txns tm.next_txn_id (started tm now isolation timeout) tm.next_txn_id
      ∙ rw (==_refl tm.next_txn_id) refl

  snapshot_of_begin :
      get_snapshot begun tm.next_txn_id
      ≡ ok (record {
        txn_id = tm.next_txn_id;
        start_ts = tm.next_timestamp;
        active_txns = keys tm.active_txns;
      })
  unfolding get_snapshot started
  snapshot_of_begin = rw (entry_of_begin, get_snapshot) refl

  sees_version :
      {D : Type 0} (d : D) (w : TxnId) (ts : Timestamp)
      → (w == tm.next_txn_id) ≡ false
      → ts < tm.next_timestamp
      → is_visible (version d w ts) tm.next_txn_id tm.next_timestamp (keys tm.active_txns)
        ≡ not (is_active tm w)
  unfolding is_visible is_active
  sees_version d w ts other past = ground (arith, contains-keys tm.active_txns w)

  sees_deletion :
      {D : Type 0} (v : VersionedTuple D) (w : TxnId) (ts : Timestamp)
      → (w == tm.next_txn_id) ≡ false
      → (v.created_by == tm.next_txn_id) ≡ false
      → is_active tm v.created_by ≡ false
      → v.created_ts < tm.next_timestamp
      → ts < tm.next_timestamp
      → is_visible (mark_deleted v w ts) tm.next_txn_id tm.next_timestamp (keys tm.active_txns)
        ≡ is_active tm w
  unfolding is_visible is_active
  sees_deletion v w ts other foreign ended old past =
      ground (arith, contains-keys tm.active_txns w, contains-keys tm.active_txns v.created_by)

  -- A transaction that begins gets a snapshot in which the writes of another transaction `w`, made
  -- before, count exactly if `w` was not active: a version that `w` created is visible exactly if
  -- `w` was not active, and a version of an ended transaction that `w` deleted is visible exactly
  -- if `w` was active.
  pub begin_snapshot_exact :
      {D : Type 0} (d : D) (v : VersionedTuple D) (w : TxnId) (ts : Timestamp)
      → (w == tm.next_txn_id) ≡ false
      → (v.created_by == tm.next_txn_id) ≡ false
      → is_active tm v.created_by ≡ false
      → v.created_ts < tm.next_timestamp
      → ts < tm.next_timestamp
      → (p : Snapshot) × (get_snapshot begun tm.next_txn_id ≡ ok p)
        × (is_visible (version d w ts) p.txn_id p.start_ts p.active_txns ≡ not (is_active tm w))
        × (is_visible (mark_deleted v w ts) p.txn_id p.start_ts p.active_txns ≡ is_active tm w)
  begin_snapshot_exact d v w ts other foreign ended old past = (
    record {
      txn_id = tm.next_txn_id;
      start_ts = tm.next_timestamp;
      active_txns = keys tm.active_txns;
    },
    snapshot_of_begin,
    sees_version d w ts other past,
    sees_deletion v w ts other foreign ended old past,
  )
