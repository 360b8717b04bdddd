-- ===== src/Mvcc/Chain.antt =====
-- bytedb-core/src/mvcc/version_store.rs, the part that works on the version chain of one key. A
-- chain is a `Vec<VersionedTuple>`, oldest version first.
use byte_db.Common.{
  Bool, true, false, Option, none, some, List, [], ◌∷◌, ◌++◌, ◌&&◌, not, ltb, ◌==◌, holds, is_some,
  if◌then◌else◌, contains, find_last, last, set_last, retain, map,
}
use byte_db.Error.{CoreError, Result, ok, err}
use byte_db.Mvcc.Visibility.{TxnId, Timestamp, VersionedTuple, is_visible, by_other_active}

abbrev pub Chain : Type 0 → Type 0
Chain D = List (VersionedTuple D)

pub data ReadResult (D : Type 0) : Type 0 where
  visible : D → ReadResult D
  tombstone : ReadResult D
  no_versions : ReadResult D

module _ {D : Type 0} where
  -- the version that a write pushes
  abbrev pub version : D → TxnId → Timestamp → VersionedTuple D
  version tuple txn_id ts = record {
    tuple = tuple;
    created_by = txn_id;
    deleted_by = none;
    created_ts = ts;
    deleted_ts = none;
  }

  abbrev pub mark_deleted : VersionedTuple D → TxnId → Timestamp → VersionedTuple D
  mark_deleted v txn_id ts = record v { deleted_by = some txn_id; deleted_ts = some ts }

  -- the loop of `delete`: the newest version that is not deleted is marked
  unfoldable pub delete_newest : Chain D → TxnId → Timestamp → Chain D × Bool
  delete_newest [] txn_id ts = ([], false)
  delete_newest (v ∷ vs) txn_id ts =
      let (vs', done) = delete_newest vs txn_id ts in
      if done then (v ∷ vs', true) else elim v.deleted_by [
        | none ↦ (mark_deleted v txn_id ts ∷ vs', true)
        | some d ↦ (v ∷ vs', false)
      ]

  -- `created_by` and `deleted_ts` against the writer's snapshot
  unfoldable pub newer_than_snapshot : VersionedTuple D → TxnId → Timestamp → List TxnId → Bool
  newer_than_snapshot latest txn_id snapshot_ts active_txns =
      if not (latest.created_by == txn_id) && contains active_txns latest.created_by
      then true
      else if not (latest.created_by == txn_id) && ltb snapshot_ts latest.created_ts
      then true
      else elim latest.deleted_ts [
        | none ↦ false
        | some dts ↦ not (holds latest.deleted_by txn_id) && ltb snapshot_ts dts
      ]

  -- what `try_delete` does with the newest version: an error, leave it, or mark it
  unfoldable pub may_delete : VersionedTuple D → TxnId → Timestamp → List TxnId → Result Bool
  unfolding newer_than_snapshot
  may_delete latest txn_id snapshot_ts active_txns =
      if by_other_active latest.deleted_by txn_id active_txns
      then err CoreError.write_conflict
      else if is_some latest.deleted_by && not (holds latest.deleted_by txn_id)
      then ok false
      else if newer_than_snapshot latest txn_id snapshot_ts active_txns
      then err CoreError.write_conflict
      else ok true

  -- the body of `try_delete` on a chain
  unfoldable pub try_delete_chain :
      Chain D → TxnId → Timestamp → Timestamp → List TxnId → Result Bool × Chain D
  try_delete_chain chain txn_id ts snapshot_ts active_txns = elim (last chain) [
    | none ↦ (ok false, chain)
    | some latest ↦ elim (may_delete latest txn_id snapshot_ts active_txns) [
      | err e ↦ (err e, chain)
      | ok false ↦ (ok false, chain)
      | ok true ↦ (ok true, set_last chain (mark_deleted latest txn_id ts))
    ]
  ]

  -- the guards of `try_update` on the newest version
  unfoldable pub update_conflict : VersionedTuple D → TxnId → Timestamp → List TxnId → Bool
  unfolding newer_than_snapshot
  update_conflict latest txn_id snapshot_ts active_txns =
      if by_other_active latest.deleted_by txn_id active_txns
      then true
      else newer_than_snapshot latest txn_id snapshot_ts active_txns

  -- the body of `try_update` on a chain
  unfoldable pub try_update_chain :
      Chain D → D → TxnId → Timestamp → Timestamp → List TxnId → Result (Unit {0}) × Chain D
  try_update_chain chain tuple txn_id ts snapshot_ts active_txns = elim (last chain) [
    | none ↦ (ok tt, chain ++ version tuple txn_id ts ∷ [])
    | some latest ↦
        if update_conflict latest txn_id snapshot_ts active_txns
        then (err CoreError.write_conflict, chain)
        else (ok tt, chain ++ version tuple txn_id ts ∷ [])
  ]

  -- the newest visible version, as `get_visible` and the scans look for it
  unfoldable pub newest_visible : Chain D → TxnId → Timestamp → List TxnId → Option D
  unfolding is_visible find_last
  newest_visible chain txn_id snapshot_ts active_txns =
      elim (find_last (λ v. is_visible v txn_id snapshot_ts active_txns) chain) [
        | none ↦ none
        | some v ↦ some v.tuple
      ]

  -- the versions that `gc_with_aborted` keeps
  unfoldable pub keeps_version : Timestamp → List TxnId → VersionedTuple D → Bool
  keeps_version oldest_active_ts aborted_txns v =
      if contains aborted_txns v.created_by then false else elim v.deleted_ts [
        | none ↦ true
        | some deleted_ts ↦ not (ltb deleted_ts oldest_active_ts)
      ]

  -- a chain that is left empty is dropped with its key
  abbrev pub non_empty : Chain D → Option (Chain D)
  non_empty [] = none
  non_empty (v ∷ vs) = some (v ∷ vs)

  -- the first loop of `rollback_txn`
  unfoldable pub clear_deletion : TxnId → VersionedTuple D → VersionedTuple D
  clear_deletion txn_id v =
      if holds v.deleted_by txn_id then record v { deleted_by = none; deleted_ts = none } else v

  -- both loops of `rollback_txn` on one chain
  unfoldable pub undo : TxnId → Chain D → Chain D
  unfolding clear_deletion
  undo txn_id chain = retain (λ v. not (v.created_by == txn_id)) (map (clear_deletion txn_id) chain)
