-- ===== src/Mvcc/Versions/Sharded.antt =====
-- Every method keeps the sixty-four shards, each a map that has every key once.
use byte_db.Common.{
  refl, replicate, inr, inl, Option-cases, ◌∙◌, ◌≡◌, Bool, true, false, List, [], All-set,
  All-get_or, All-map, All-replicate, Bytes, bytes_key, length-set, length-map, length-replicate,
}
use byte_db.Error.{Result, ok, err}
use byte_db.HashMap.{get, IsDistinct, insert as map_insert, entry_or}
use byte_db.HashMap.Laws.{insert-IsDistinct, entry_or-IsDistinct, retain_values-IsDistinct}
use byte_db.Mvcc.Visibility.{Timestamp, TxnId}
use byte_db.Mvcc.Chain.{Chain}
use byte_db.Mvcc.Versions.{
  VersionStore, Shard, shard_index, shard_for, put_shard, count_key, new, insert, delete,
  try_delete, try_update, settle, gc_with_aborted, rollback_txn,
}
use byte_db.Mvcc.Versions.View.{chain_at, IsSharded}

module _ {D : Type 0} where
  abbrev IsMap : Shard D → Type 0
  IsMap m = IsDistinct m

  pub shard_for-IsDistinct :
      (s : VersionStore D) (k : Bytes) → IsSharded s → IsDistinct (shard_for s k)
  unfolding shard_for
  shard_for-IsDistinct s k h = All-get_or IsMap s.shards (shard_index k) [] tt h.distinct

  put_shard-IsSharded :
      (s : VersionStore D) (k : Bytes) (m : Shard D)
      → IsSharded s
      → IsDistinct m
      → IsSharded (put_shard s k m)
  unfolding put_shard
  put_shard-IsSharded s k m h d = record {
    width = length-set s.shards (shard_index k) m ∙ h.width;
    distinct = All-set IsMap s.shards (shard_index k) m d h.distinct;
  }

  count_key-IsSharded : (b : Bool) (s : VersionStore D) → IsSharded s → IsSharded (count_key b s)
  count_key-IsSharded true s h = record { width = h.width; distinct = h.distinct }
  count_key-IsSharded false s h = h

  settle-IsSharded :
      (r : Result (Unit {0})) (b : Bool) (s : VersionStore D)
      → IsSharded s
      → IsSharded (settle r b s).1
  settle-IsSharded (ok u) b s h = count_key-IsSharded b s h
  settle-IsSharded (err e) b s h = h

  -- a store map after a write through `entry`
  entry-IsDistinct :
      (s : VersionStore D) (k : Bytes) (c : Chain D)
      → IsSharded s
      → IsDistinct (map_insert (entry_or (shard_for s k) k []).0 k c)
  entry-IsDistinct s k c h =
      insert-IsDistinct _ k c (entry_or-IsDistinct _ k [] (shard_for-IsDistinct s k h))

  pub new-IsSharded : IsSharded (new {D = D})
  unfolding new
  new-IsSharded = record {
    width = length-replicate {A = Shard D} 64 [];
    distinct = All-replicate IsMap 64 [] tt;
  }

  pub chain_at-new : (k : Bytes) → chain_at (new {D = D}) k ≡ []
  unfolding chain_at shard_for new
  chain_at-new k =
      rw
        (All-get_or (λ (m : Shard D). m ≡ []) (replicate 64 []) (shard_index k) [] refl
          (All-replicate (λ (m : Shard D). m ≡ []) 64 [] refl))
        (unfold get in refl)

  pub insert-IsSharded :
      (s : VersionStore D) (k : Bytes) (d : D) (txn_id : TxnId) (ts : Timestamp)
      → IsSharded s
      → IsSharded (insert s k d txn_id ts)
  unfolding insert
  insert-IsSharded s k d txn_id ts h =
      count_key-IsSharded _ _ (put_shard-IsSharded s k _ h (entry-IsDistinct s k _ h))

  pub delete-IsSharded :
      (s : VersionStore D) (k : Bytes) (txn_id : TxnId) (ts : Timestamp)
      → IsSharded s
      → IsSharded (delete s k txn_id ts).0
  unfolding delete
  delete-IsSharded s k txn_id ts h = elim (Option-cases (get (shard_for s k) k)) [
    | inl e ↦ rw (e, delete) h
    | inr (c, e) ↦
        rw (e, delete)
          (put_shard-IsSharded s k _ h (insert-IsDistinct _ k _ (shard_for-IsDistinct s k h)))
  ]

  pub try_delete-IsSharded :
      (s : VersionStore D) (k : Bytes) (txn_id : TxnId) (ts snapshot_ts : Timestamp)
      (active : List TxnId)
      → IsSharded s
      → IsSharded (try_delete s k txn_id ts snapshot_ts active).1
  unfolding try_delete
  try_delete-IsSharded s k txn_id ts snapshot_ts active h =
      elim (Option-cases (get (shard_for s k) k)) [
        | inl e ↦ rw (e, try_delete) h
        | inr (c, e) ↦
            rw (e, try_delete)
              (put_shard-IsSharded s k _ h (insert-IsDistinct _ k _ (shard_for-IsDistinct s k h)))
      ]

  pub try_update-IsSharded :
      (s : VersionStore D) (k : Bytes) (d : D) (txn_id : TxnId) (ts snapshot_ts : Timestamp)
      (active : List TxnId)
      → IsSharded s
      → IsSharded (try_update s k d txn_id ts snapshot_ts active).1
  unfolding try_update
  try_update-IsSharded s k d txn_id ts snapshot_ts active h =
      settle-IsSharded _ _ _ (put_shard-IsSharded s k _ h (entry-IsDistinct s k _ h))

  pub rollback_txn-IsSharded :
      (s : VersionStore D) (txn_id : TxnId) → IsSharded s → IsSharded (rollback_txn s txn_id)
  unfolding rollback_txn
  rollback_txn-IsSharded s txn_id h = record {
    width = length-map _ s.shards ∙ h.width;
    distinct = All-map IsMap _ (λ m d. retain_values-IsDistinct _ m d) s.shards h.distinct;
  }

  pub gc_with_aborted-IsSharded :
      (s : VersionStore D) (oldest : Timestamp) (aborted : List TxnId)
      → IsSharded s
      → IsSharded (gc_with_aborted s oldest aborted).0
  unfolding gc_with_aborted
  gc_with_aborted-IsSharded s oldest aborted h = record {
    width = length-map _ s.shards ∙ h.width;
    distinct = All-map IsMap _ (λ m d. retain_values-IsDistinct _ m d) s.shards h.distinct;
  }
