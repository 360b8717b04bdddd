-- ===== src/Mvcc/Versions/Conflicts.antt =====
-- First updater wins: a write over a concurrent one is refused.
use byte_db.Common.{
  ◌≡◌, refl, ap, ◌∙◌, sym, true, false, List, [], ◌∷◌, ◌++◌, ◌==◌, arith, Bytes, last-append,
}
use byte_db.Error.{ok, err, CoreError}
use byte_db.Mvcc.Visibility.{Timestamp, TxnId, VersionedTuple}
use byte_db.Mvcc.Chain.{
  Chain, version, try_delete_chain, try_update_chain, may_delete, update_conflict,
}
use byte_db.Mvcc.Versions.{VersionStore, try_update, try_delete}
use byte_db.Mvcc.Versions.View.{IsSharded, chain_at, chain_at-try_delete, chain_at-try_update}
use byte_db.Mvcc.Versions.Sharded.{try_update-IsSharded}
use byte_db.Mvcc.Versions.Isolation.{IsConcurrent}
use byte_db.Mvcc.Versions.OwnWrites.{
  try_delete_result, chain_at-try_update_self, try_update_result, at_own_key,
}

module _ {D : Type 0} (t w : TxnId) (ts sts : Timestamp) (active : List TxnId) where
  update_over_concurrent :
      (d : D) (wts : Timestamp)
      → (w == t) ≡ false
      → IsConcurrent w sts active wts
      → update_conflict (version d w wts) t sts active ≡ true
  unfolding update_conflict
  update_over_concurrent d wts other c = ground arith

  delete_over_concurrent :
      (d : D) (wts : Timestamp)
      → (w == t) ≡ false
      → IsConcurrent w sts active wts
      → may_delete (version d w wts) t sts active ≡ err CoreError.write_conflict
  unfolding may_delete
  delete_over_concurrent d wts other c = ground arith

  update_chain_conflict :
      (c : Chain D) (v : VersionedTuple D) (d : D)
      → update_conflict v t sts active ≡ true
      → try_update_chain (c ++ v ∷ []) d t ts sts active
        ≡ (err CoreError.write_conflict, c ++ v ∷ [])
  unfolding try_update_chain
  update_chain_conflict c v d h = rw (last-append c v, try_update_chain) (rw h refl)

  delete_chain_conflict :
      (c : Chain D) (v : VersionedTuple D)
      → may_delete v t sts active ≡ err CoreError.write_conflict
      → try_delete_chain (c ++ v ∷ []) t ts sts active ≡ (err CoreError.write_conflict, c ++ v ∷ [])
  unfolding try_delete_chain
  delete_chain_conflict c v h = rw (last-append c v, try_delete_chain) (rw h refl)

  -- No lost update: after a `try_update` of `w` that succeeded, a `try_update` or `try_delete` of
  -- the same key by another transaction `t` whose snapshot is concurrent with it (`w` is among the
  -- active ones, or wrote later than the snapshot) returns `WriteConflict` and leaves the chain of
  -- the key as `w` left it. The store must have its shards.
  pub no_lost_update :
      (s : VersionStore D) (k : Bytes) (d e : D) (wts wsts : Timestamp) (wactive : List TxnId)
      → IsSharded s
      → (w == t) ≡ false
      → IsConcurrent w sts active wts
      → (try_update s k d w wts wsts wactive).0 ≡ ok tt
      → let s' = (try_update s k d w wts wsts wactive).1 in
        ((try_update s' k e t ts sts active).0 ≡ err CoreError.write_conflict)
        × (chain_at (try_update s' k e t ts sts active).1 k ≡ chain_at s' k)
        × ((try_delete s' k t ts sts active).0 ≡ err CoreError.write_conflict)
        × (chain_at (try_delete s' k t ts sts active).1 k ≡ chain_at s' k)
  no_lost_update s k d e wts wsts wactive h other c done =
      let s' = (try_update s k d w wts wsts wactive).1 in
      let pushed = chain_at-try_update_self s k d w wts wsts wactive h done in
      let refused =
        update_chain_conflict (chain_at s k) (version d w wts) e
          (update_over_concurrent d wts other c) in
      let kept =
        delete_chain_conflict (chain_at s k) (version d w wts)
          (delete_over_concurrent d wts other c) in
      let sharded = try_update-IsSharded s k d w wts wsts wactive h in
      (
        try_update_result s' k e t ts sts active
            ∙ ap (λ (x : Chain D). (try_update_chain x e t ts sts active).0) pushed
            ∙ ap (λ r. r.0) refused,
        at_own_key _ k _ _ (chain_at-try_update s' k k e t ts sts active sharded)
            ∙ ap (λ (x : Chain D). (try_update_chain x e t ts sts active).1) pushed
            ∙ ap (λ r. r.1) refused
            ∙ sym pushed,
        try_delete_result s' k t ts sts active
            ∙ ap (λ (x : Chain D). (try_delete_chain x t ts sts active).0) pushed
            ∙ ap (λ r. r.0) kept,
        at_own_key _ k _ _ (chain_at-try_delete s' k k t ts sts active sharded)
            ∙ ap (λ (x : Chain D). (try_delete_chain x t ts sts active).1) pushed
            ∙ ap (λ r. r.1) kept
            ∙ sym pushed,
      )
