-- ===== src/Mvcc/Versions/OwnDeletes.antt =====
-- What a transaction reads of a row that it inserted and deleted itself.
use byte_db.Common.{
  ◌≡◌, refl, ap, ◌∙◌, true, some, List, [], ◌∷◌, ◌++◌, arith, Bytes, last-append, set_last-append,
}
use byte_db.Error.{ok}
use byte_db.Mvcc.Visibility.{Timestamp, TxnId, is_visible}
use byte_db.Mvcc.Chain.{Chain, version, mark_deleted, try_delete_chain, may_delete}
use byte_db.Mvcc.Versions.{VersionStore, get_visible, insert, try_delete}
use byte_db.Mvcc.Versions.View.{IsSharded, chain_at, chain_at-try_delete}
use byte_db.Mvcc.Versions.Sharded.{insert-IsSharded}
use byte_db.Mvcc.Versions.Isolation.{get_visible-chain_at, newest_visible-push}
use byte_db.Mvcc.Versions.OwnWrites.{at_own_key, chain_at-insert_self}

module _ {D : Type 0} (d : D) (t : TxnId) (ts ts' sts : Timestamp) (active : List TxnId) where
  may_delete-own : may_delete (version d t ts) t sts active ≡ ok true
  unfolding may_delete
  may_delete-own = ground arith

  -- `try_delete` of the transaction's own newest version marks it
  pub try_delete_chain-own :
      (c : Chain D)
      → try_delete_chain (c ++ version d t ts ∷ []) t ts' sts active
        ≡ (ok true, c ++ mark_deleted (version d t ts) t ts' ∷ [])
  unfolding try_delete_chain
  try_delete_chain-own c =
      rw (last-append c (version d t ts), try_delete_chain)
        (rw (may_delete-own)
          (rw (set_last-append c (version d t ts) (mark_deleted (version d t ts) t ts')) refl))

  is_visible-own_deleted : is_visible (mark_deleted (version d t ts) t ts') t sts active ≡ true
  unfolding is_visible
  is_visible-own_deleted = ground arith

  -- A transaction that inserts a tuple and then calls `try_delete` for its key still reads it:
  -- `get_visible` returns the tuple, whatever the snapshot. The store must have its shards.
  pub own_delete_still_read :
      (s : VersionStore D) (k : Bytes)
      → IsSharded s
      → get_visible (try_delete (insert s k d t ts) k t ts' sts active).1 k t sts active ≡ some d
  own_delete_still_read s k h =
      get_visible-chain_at (try_delete (insert s k d t ts) k t ts' sts active).1 k t sts active
      ∙ rw deleted (
          newest_visible-push (chain_at s k) (mark_deleted (version d t ts) t ts') t sts active
          ∙ rw is_visible-own_deleted refl)
    where
      deleted :
          chain_at (try_delete (insert s k d t ts) k t ts' sts active).1 k
          ≡ chain_at s k ++ mark_deleted (version d t ts) t ts' ∷ []
      deleted =
          at_own_key _ k _ _ (
            chain_at-try_delete (insert s k d t ts) k k t ts' sts active
              (insert-IsSharded s k d t ts h))
          ∙ rw (chain_at-insert_self s k d t ts h)
              (ap (λ r. r.1) (try_delete_chain-own (chain_at s k)))
