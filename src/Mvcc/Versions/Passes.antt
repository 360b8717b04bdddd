-- ===== src/Mvcc/Versions/Passes.antt =====
-- Rollback and garbage collection, as changes to the chain of every key.
use byte_db.Common.{
  sym, ◌≡◌, ◌∙◌, ap, refl, Option, none, some, List, [], ◌∷◌, map, get_or, get_or-map, retain,
  Bytes, bytes_key,
}
use byte_db.HashMap.{get, retain_values}
use byte_db.HashMap.Laws.{get-retain_values, bind}
use byte_db.Mvcc.Visibility.{Timestamp, TxnId}
use byte_db.Mvcc.Chain.{Chain, non_empty, undo, keeps_version}
use byte_db.Mvcc.Versions.{
  VersionStore, Shard, shard_index, shard_for, gc_with_aborted, rollback_txn, gc_chain, undo_chain,
}
use byte_db.Mvcc.Versions.View.{IsSharded, chain_at, or_empty}
use byte_db.Mvcc.Versions.Sharded.{shard_for-IsDistinct}

module _ {D : Type 0} where
  or_empty-non_empty : (c : Chain D) → or_empty (non_empty c) ≡ c
  or_empty-non_empty [] = refl
  or_empty-non_empty (v ∷ c) = refl

  -- a pass that changes each chain by `g` and drops the empty ones
  chain_at_pass :
      (g : Chain D → Chain D) (f : Chain D → Option (Chain D)) (s t : VersionStore D) (k : Bytes)
      → IsSharded s
      → t.shards ≡ map (retain_values f) s.shards
      → ((c : Chain D) → f c ≡ non_empty (g c))
      → g [] ≡ []
      → chain_at t k ≡ g (chain_at s k)
  unfolding chain_at retain_values
  chain_at_pass g f s t k h e fg g0 =
      ap (λ (xs : List (Shard D)). or_empty (get (get_or xs (shard_index k) []) k)) e
      ∙ ap (λ (m : Shard D). or_empty (get m k))
          (get_or-map (retain_values f) s.shards (shard_index k) [])
      ∙ ap or_empty (get-retain_values f (shard_for s k) k (shard_for-IsDistinct s k h))
      ∙ on_chain (get (shard_for s k) k)
    where
      on_chain : (o : Option (Chain D)) → or_empty (bind o f) ≡ g (or_empty o)
      on_chain none = sym g0
      on_chain (some c) = ap or_empty (fg c) ∙ or_empty-non_empty (g c)

  pub chain_at-rollback_txn :
      (s : VersionStore D) (txn_id : TxnId) (k : Bytes)
      → IsSharded s
      → chain_at (rollback_txn s txn_id) k ≡ undo txn_id (chain_at s k)
  unfolding rollback_txn undo_chain
  chain_at-rollback_txn s txn_id k h =
      chain_at_pass (undo txn_id) (undo_chain txn_id) s (rollback_txn s txn_id) k h refl (λ c. refl)
        refl

  pub chain_at-gc_with_aborted :
      (s : VersionStore D) (oldest : Timestamp) (aborted : List TxnId) (k : Bytes)
      → IsSharded s
      → chain_at (gc_with_aborted s oldest aborted).0 k
        ≡ retain (keeps_version oldest aborted) (chain_at s k)
  unfolding gc_with_aborted gc_chain
  chain_at-gc_with_aborted s oldest aborted k h =
      chain_at_pass (retain (keeps_version oldest aborted)) (gc_chain oldest aborted) s
        (gc_with_aborted s oldest aborted).0 k h refl (λ c. refl) refl
