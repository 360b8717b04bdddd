-- ===== src/Mvcc/Versions/View.antt =====
-- What a `VersionStore` holds at each key, and each method as a change to the chain of its key.
-- The shards are an implementation detail: no other key is touched, whatever the hash.
use byte_db.HashMap.Laws.{get-insert-entry_or, get-insert}
use byte_db.Error.{Result, ok, err}
use byte_db.Mvcc.Versions.{settle}
use byte_db.Mvcc.Visibility.{Timestamp, TxnId}
use byte_db.Common.{
  last, ◌++◌, ◌∷◌, ◌∙◌, ap, refl, true, false, inr, inl, Option-cases, List, Bool, ◌<◌, ◌≡◌, Option,
  none, some, [], arith, ◌==◌, if◌then◌else◌, length, All, Bytes, bytes_key, bytes_eq, bytes_eq_iff,
  get_or-set,
}
use byte_db.Common.Bits.{bit_and_sixty_three}
use byte_db.HashMap.{get, IsDistinct, entry_or}
use byte_db.Mvcc.Chain.{version, try_update_chain, try_delete_chain, delete_newest, Chain}
use byte_db.Mvcc.Versions.{
  try_update, try_delete, VersionStore, Shard, fnv, shard_index, shard_for, put_shard, count_key,
  insert, delete,
}

pub shard_index_bound : (key : Bytes) → shard_index key < 64
unfolding shard_index
shard_index_bound key = omega (arith, bit_and_sixty_three (fnv 0xcbf29ce484222325 key))

module _ {D : Type 0} where
  -- the sixty-four shards are there, each a map with every key once
  pub record IsSharded (s : VersionStore D) : Type 0 where
    pub width : length s.shards ≡ 64
    pub distinct : All (λ (m : Shard D). IsDistinct m) s.shards

  abbrev pub or_empty : Option (Chain D) → Chain D
  or_empty none = []
  or_empty (some c) = c

  -- the chain of a key, empty where there is none
  unfoldable pub chain_at : VersionStore D → Bytes → Chain D
  unfolding shard_for
  chain_at s key = or_empty (get (shard_for s key) key)

  shard_for-put_shard :
      (s : VersionStore D) (k j : Bytes) (m : Shard D)
      → IsSharded s
      → shard_for (put_shard s k m) j
        ≡ (if shard_index k == shard_index j then m else shard_for s j)
  unfolding shard_for put_shard
  shard_for-put_shard s k j m h =
      get_or-set s.shards (shard_index k) (shard_index j) m []
        (omega (arith, shard_index_bound k, h.width))

  -- a write of one chain to the shard of its key
  chain_at-put :
      (s : VersionStore D) (k j : Bytes) (m : Shard D) (c : Chain D)
      → IsSharded s
      → ((i : Bytes) → get m i ≡ (if bytes_eq k i then some c else get (shard_for s k) i))
      → chain_at (put_shard s k m) j ≡ (if bytes_eq k j then c else chain_at s j)
  unfolding chain_at
  chain_at-put s k j m c h e = ground (arith, shard_for-put_shard s k j m h, e j, bytes_eq_iff k j)

  chain_at-count_key :
      (b : Bool) (s : VersionStore D) (j : Bytes) → chain_at (count_key b s) j ≡ chain_at s j
  unfolding chain_at
  chain_at-count_key true s j = refl
  chain_at-count_key false s j = refl

  pub entry_value :
      (s : VersionStore D) (k : Bytes) → (entry_or (shard_for s k) k []).1 ≡ chain_at s k
  unfolding entry_or chain_at
  entry_value s k = ground arith

  -- `insert` appends a version to the chain of its key
  pub chain_at-insert :
      (s : VersionStore D) (k j : Bytes) (d : D) (txn_id : TxnId) (ts : Timestamp)
      → IsSharded s
      → chain_at (insert s k d txn_id ts) j
        ≡ (if bytes_eq k j then chain_at s k ++ version d txn_id ts ∷ [] else chain_at s j)
  unfolding insert
  chain_at-insert s k j d txn_id ts h =
      chain_at-count_key _ _ j
      ∙ chain_at-put s k j _ _ h (λ i. get-insert-entry_or (shard_for s k) k [] _ i)
      ∙ ap (λ (c : Chain D). if bytes_eq k j then c ++ version d txn_id ts ∷ [] else chain_at s j)
          (entry_value s k)

  chain_at-some :
      (s : VersionStore D) (k : Bytes) (c : Chain D)
      → get (shard_for s k) k ≡ some c
      → chain_at s k ≡ c
  unfolding chain_at
  chain_at-some s k c e = rw e

  -- `delete` marks the newest live version of its key
  pub chain_at-delete :
      (s : VersionStore D) (k j : Bytes) (txn_id : TxnId) (ts : Timestamp)
      → IsSharded s
      → chain_at (delete s k txn_id ts).0 j
        ≡ (if bytes_eq k j then (delete_newest (chain_at s k) txn_id ts).0 else chain_at s j)
  unfolding delete
  chain_at-delete s k j txn_id ts h = elim (Option-cases (get (shard_for s k) k)) [
    | inl e ↦ unfold chain_at delete_newest in ground (arith, bytes_eq_iff k j)
    | inr (c, e) ↦
        rw (e, delete, chain_at-some s k c e)
          (chain_at-put s k j _ _ h (λ i. get-insert (shard_for s k) k _ i))
  ]

  pub chain_at-try_delete :
      (s : VersionStore D) (k j : Bytes) (txn_id : TxnId) (ts snapshot_ts : Timestamp)
      (active : List TxnId)
      → IsSharded s
      → chain_at (try_delete s k txn_id ts snapshot_ts active).1 j ≡ (
          if bytes_eq k j
          then (try_delete_chain (chain_at s k) txn_id ts snapshot_ts active).1
          else chain_at s j)
  unfolding try_delete
  chain_at-try_delete s k j txn_id ts snapshot_ts active h =
      elim (Option-cases (get (shard_for s k) k)) [
        | inl e ↦ unfold chain_at try_delete_chain last in ground (arith, bytes_eq_iff k j)
        | inr (c, e) ↦
            rw (e, try_delete, chain_at-some s k c e)
              (chain_at-put s k j _ _ h (λ i. get-insert (shard_for s k) k _ i))
      ]

  settle_chain :
      (r : Result (Unit {0})) (b : Bool) (s : VersionStore D) (j : Bytes)
      → chain_at (settle r b s).1 j ≡ chain_at s j
  settle_chain (ok u) b s j = chain_at-count_key b s j
  settle_chain (err e) b s j = refl

  pub chain_at-try_update :
      (s : VersionStore D) (k j : Bytes) (d : D) (txn_id : TxnId) (ts snapshot_ts : Timestamp)
      (active : List TxnId)
      → IsSharded s
      → chain_at (try_update s k d txn_id ts snapshot_ts active).1 j ≡ (
          if bytes_eq k j
          then (try_update_chain (chain_at s k) d txn_id ts snapshot_ts active).1
          else chain_at s j)
  unfolding try_update
  chain_at-try_update s k j d txn_id ts snapshot_ts active h =
      settle_chain _ _ _ j
      ∙ chain_at-put s k j _ _ h (λ i. get-insert-entry_or (shard_for s k) k [] _ i)
      ∙ ap
          (λ (c : Chain D).
            if bytes_eq k j
            then (try_update_chain c d txn_id ts snapshot_ts active).1
            else chain_at s j)
          (entry_value s k)
