-- ===== src/Mvcc/Versions/Scans.antt =====
-- bytedb-core/src/mvcc/version_store.rs: the methods that visit every key. The shards are visited
-- in order, and each in the order of its map.
use byte_db.Common.{
  sym, ◌∙◌, ◌≡◌, Option-cases, inl, inr, ℕ, ◌+◌, ◌%◌, ◌^◌, Bool, true, false, Option, none, some,
  List, [], ◌∷◌, ◌++◌, ltb, if◌then◌else◌, Bytes, bytes_key,
}
use mathlib.Core.List.{append-nil, append_assoc}
use byte_db.HashMap.{HashMap, insert, values}
use byte_db.Mvcc.Visibility.{TxnId, Timestamp, VersionedTuple}
use byte_db.Mvcc.Chain.{Chain, newest_visible}
use byte_db.Mvcc.Versions.{VersionStore, Shard}

module _ {D : Type 0} where
  -- the entries of all shards
  abbrev pub entries : List (Shard D) → Shard D
  entries [] = []
  entries (m ∷ ms) = m ++ entries ms

  unfoldable pub visible_rows : Shard D → TxnId → Timestamp → List TxnId → List (Bytes × D)
  unfolding newest_visible
  visible_rows [] txn_id snapshot_ts active_txns = []
  visible_rows ((key, chain) ∷ m) txn_id snapshot_ts active_txns =
      let rest = visible_rows m txn_id snapshot_ts active_txns in
      elim (newest_visible chain txn_id snapshot_ts active_txns) [
        | none ↦ rest
        | some tuple ↦ (key, tuple) ∷ rest
      ]

  unfoldable pub get_all_visible :
      VersionStore D → TxnId → Timestamp → List TxnId → List (Bytes × D)
  unfolding visible_rows
  get_all_visible s txn_id snapshot_ts active_txns =
      visible_rows (entries s.shards) txn_id snapshot_ts active_txns

  unfoldable pub resolve :
      HashMap Bytes (Option D) → Shard D → TxnId → Timestamp → List TxnId → HashMap Bytes (Option D)
  unfolding newest_visible
  resolve out [] txn_id snapshot_ts active_txns = out
  resolve out ((key, chain) ∷ m) txn_id snapshot_ts active_txns =
      resolve (insert out key (newest_visible chain txn_id snapshot_ts active_txns)) m txn_id
        snapshot_ts active_txns

  unfoldable pub snapshot_resolved :
      VersionStore D → TxnId → Timestamp → List TxnId → HashMap Bytes (Option D)
  unfolding resolve
  snapshot_resolved s txn_id snapshot_ts active_txns =
      resolve [] (entries s.shards) txn_id snapshot_ts active_txns

  -- the callback is a function of its own state; its answer `false` ends the visit
  unfoldable pub visit :
      {S : Type 0} → Shard D → TxnId → Timestamp → List TxnId → (S → Bytes → D → S × Bool) → S → S
  unfolding newest_visible
  visit [] txn_id snapshot_ts active_txns f state = state
  visit ((key, chain) ∷ m) txn_id snapshot_ts active_txns f state =
      elim (newest_visible chain txn_id snapshot_ts active_txns) [
        | none ↦ visit m txn_id snapshot_ts active_txns f state
        | some tuple ↦
            let (state', more) = f state key tuple in
            let rest = visit m txn_id snapshot_ts active_txns f state' in
            if more then rest else state'
      ]

  unfoldable pub for_each_visible :
      {S : Type 0}
      → VersionStore D
      → TxnId
      → Timestamp
      → List TxnId
      → (S → Bytes → D → S × Bool)
      → S
      → S
  unfolding visit
  for_each_visible s txn_id snapshot_ts active_txns f state =
      visit (entries s.shards) txn_id snapshot_ts active_txns f state

  abbrev pub is_dead : Timestamp → VersionedTuple D → Bool
  is_dead oldest_active_ts v = elim v.deleted_ts [
    | none ↦ false
    | some dts ↦ ltb dts oldest_active_ts
  ]

  unfoldable pub count_chain : Timestamp → Chain D → ℕ × ℕ → ℕ × ℕ
  count_chain oldest [] counts = counts
  count_chain oldest (v ∷ vs) (live, dead) =
      count_chain oldest vs
        (if is_dead oldest v then (live, (dead + 1) % 2 ^ 64) else ((live + 1) % 2 ^ 64, dead))

  abbrev pub count_chains : Timestamp → List (Chain D) → ℕ × ℕ → ℕ × ℕ
  count_chains oldest [] counts = counts
  count_chains oldest (c ∷ cs) counts = count_chains oldest cs (count_chain oldest c counts)

  unfoldable pub live_dead_counts : VersionStore D → Timestamp → ℕ × ℕ
  unfolding count_chain
  live_dead_counts s oldest_active_ts =
      count_chains oldest_active_ts (values (entries s.shards)) (0, 0)

  -- collecting by the callback is `get_all_visible`
  collects :
      (m : Shard D) (t : TxnId) (sts : Timestamp) (active : List TxnId) (acc : List (Bytes × D))
      → visit m t sts active (λ rows k d. (rows ++ (k, d) ∷ [], true)) acc
        ≡ acc ++ visible_rows m t sts active
  unfolding visit visible_rows
  collects [] t sts active acc = sym (append-nil acc)
  collects ((k, c) ∷ m) t sts active acc = elim (Option-cases (newest_visible c t sts active)) [
    | inl e ↦ rw (e, visit) (rw (e, visible_rows) (collects m t sts active acc))
    | inr (d, e) ↦
        rw (e, visit)
          (rw (e, visible_rows)
            (collects m t sts active (acc ++ (k, d) ∷ [])
              ∙ append_assoc acc ((k, d) ∷ []) (visible_rows m t sts active)))
  ]

  -- `for_each_visible` with a callback that collects what it is given, and never stops, collects the
  -- rows that `get_all_visible` returns, in the same order.
  pub for_each_visible_collects :
      (s : VersionStore D) (t : TxnId) (sts : Timestamp) (active : List TxnId)
      → for_each_visible s t sts active (λ rows k d. (rows ++ (k, d) ∷ [], true)) []
        ≡ get_all_visible s t sts active
  unfolding for_each_visible get_all_visible
  for_each_visible_collects s t sts active = collects (entries s.shards) t sts active []
