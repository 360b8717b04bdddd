-- ===== src/Mvcc/Versions/OwnWrites.antt =====
-- What a transaction reads of its own writes, and where the store's visibility test departs from
-- that of visibility.rs.
use byte_db.Common.{
  bytes_key, ◌≡◌, refl, ap, ◌∙◌, sym, Bool, true, false, some, List, [], ◌∷◌, ◌++◌, ◌↔◌, inl, inr,
  ◌==◌, ◌&&◌, is_some, arith, if◌then◌else◌, Bytes, bytes_eq, bytes_eq_iff, Option-cases, last,
}
use byte_db.Error.{Result, ok, err}
use byte_db.Mvcc.Visibility.{
  Timestamp, TxnId, VersionedTuple, Snapshot, is_visible, is_tuple_visible,
}
use byte_db.Mvcc.Chain.{Chain, version, newest_visible, try_delete_chain, try_update_chain}
use byte_db.Mvcc.Versions.{VersionStore, get_visible, insert, try_update, try_delete, settle}
use byte_db.HashMap.{get}
use byte_db.Mvcc.Versions.{shard_for}
use byte_db.Mvcc.Versions.View.{
  entry_value, entry_value, IsSharded, chain_at, chain_at-insert, chain_at-try_update,
}
use byte_db.Mvcc.Versions.Isolation.{get_visible-chain_at, newest_visible-push}

module _ {D : Type 0} where
  -- The two visibility tests give the same answer on a version exactly if it is not one that the
  -- snapshot's own transaction created and that has been deleted.
  pub visibility_tests_agree :
      (v : VersionedTuple D) (p : Snapshot)
      → (is_visible v p.txn_id p.start_ts p.active_txns ≡ is_tuple_visible v p)
        ↔ ((v.created_by == p.txn_id && is_some v.deleted_by) ≡ false)
  unfolding is_visible is_tuple_visible
  visibility_tests_agree v p = ground arith

  is_visible-own :
      (d : D) (t : TxnId) (ts sts : Timestamp) (active : List TxnId)
      → is_visible (version d t ts) t sts active ≡ true
  unfolding is_visible
  is_visible-own d t ts sts active = ground arith

  newest_visible-own :
      (c : Chain D) (d : D) (t : TxnId) (ts sts : Timestamp) (active : List TxnId)
      → newest_visible (c ++ version d t ts ∷ []) t sts active ≡ some d
  newest_visible-own c d t ts sts active =
      newest_visible-push c (version d t ts) t sts active
      ∙ rw (is_visible-own d t ts sts active) refl

  pub at_own_key :
      (c : Chain D) (k : Bytes) (x y : Chain D) → c ≡ (if bytes_eq k k then x else y) → c ≡ x
  at_own_key c k x y e = ground (arith, bytes_eq_iff k k)

  pub chain_at-insert_self :
      (s : VersionStore D) (k : Bytes) (d : D) (t : TxnId) (ts : Timestamp)
      → IsSharded s
      → chain_at (insert s k d t ts) k ≡ chain_at s k ++ version d t ts ∷ []
  chain_at-insert_self s k d t ts h = at_own_key _ k _ _ (chain_at-insert s k k d t ts h)

  -- After `insert` its transaction reads the inserted tuple at that key, whatever its snapshot is.
  -- The store must have its shards.
  pub read_own_insert :
      (s : VersionStore D) (k : Bytes) (d : D) (t : TxnId) (ts sts : Timestamp)
      (active : List TxnId)
      → IsSharded s
      → get_visible (insert s k d t ts) k t sts active ≡ some d
  read_own_insert s k d t ts sts active h =
      get_visible-chain_at (insert s k d t ts) k t sts active
      ∙ rw (chain_at-insert_self s k d t ts h) (newest_visible-own (chain_at s k) d t ts sts active)

  settle_result : (r : Result (Unit {0})) (b : Bool) (s : VersionStore D) → (settle r b s).0 ≡ r
  settle_result (ok u) b s = refl
  settle_result (err e) b s = refl

  pub try_update_result :
      (s : VersionStore D) (k : Bytes) (d : D) (t : TxnId) (ts sts : Timestamp)
      (active : List TxnId)
      → (try_update s k d t ts sts active).0 ≡ (try_update_chain (chain_at s k) d t ts sts active).0
  unfolding try_update
  try_update_result s k d t ts sts active =
      settle_result _ _ _
      ∙ ap (λ (c : Chain D). (try_update_chain c d t ts sts active).0) (entry_value s k)

  pub try_delete_result :
      (s : VersionStore D) (k : Bytes) (t : TxnId) (ts sts : Timestamp) (active : List TxnId)
      → (try_delete s k t ts sts active).0 ≡ (try_delete_chain (chain_at s k) t ts sts active).0
  unfolding try_delete chain_at
  try_delete_result s k t ts sts active = elim (Option-cases (get (shard_for s k) k)) [
    | inl e ↦ rw (e, try_delete) (unfold try_delete_chain last in refl)
    | inr (c, e) ↦ rw (e, try_delete) refl
  ]

  -- a `try_update` that succeeds has pushed its version
  pub try_update_chain-ok :
      (c : Chain D) (d : D) (t : TxnId) (ts sts : Timestamp) (active : List TxnId)
      → (try_update_chain c d t ts sts active).0 ≡ ok tt
      → (try_update_chain c d t ts sts active).1 ≡ c ++ version d t ts ∷ []
  unfolding try_update_chain
  try_update_chain-ok c d t ts sts active h = ground arith

  pub chain_at-try_update_self :
      (s : VersionStore D) (k : Bytes) (d : D) (t : TxnId) (ts sts : Timestamp)
      (active : List TxnId)
      → IsSharded s
      → (try_update s k d t ts sts active).0 ≡ ok tt
      → chain_at (try_update s k d t ts sts active).1 k ≡ chain_at s k ++ version d t ts ∷ []
  chain_at-try_update_self s k d t ts sts active h e =
      at_own_key _ k _ _ (chain_at-try_update s k k d t ts sts active h)
      ∙ try_update_chain-ok (chain_at s k) d t ts sts active
          (sym (try_update_result s k d t ts sts active) ∙ e)

  -- After a `try_update` that returned `Ok` its transaction reads the new tuple at that key. The
  -- store must have its shards.
  pub read_own_update :
      (s : VersionStore D) (k : Bytes) (d : D) (t : TxnId) (ts sts : Timestamp)
      (active : List TxnId)
      → IsSharded s
      → (try_update s k d t ts sts active).0 ≡ ok tt
      → get_visible (try_update s k d t ts sts active).1 k t sts active ≡ some d
  read_own_update s k d t ts sts active h e =
      get_visible-chain_at (try_update s k d t ts sts active).1 k t sts active
      ∙ rw (chain_at-try_update_self s k d t ts sts active h e)
          (newest_visible-own (chain_at s k) d t ts sts active)
