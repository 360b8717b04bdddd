-- ===== src/Mvcc/Versions/Rollback.antt =====
-- Rolling a transaction back takes away all that it wrote and nothing else.
use byte_db.Common.{
  ◌≡◌, refl, ap, ◌∙◌, false, List, [], ◌∷◌, ◌++◌, ◌==◌, holds, is_some, All, arith, Bytes,
  All-append,
}
use byte_db.Mvcc.Visibility.{Timestamp, TxnId, VersionedTuple}
use byte_db.Mvcc.Chain.{Chain, version, mark_deleted, clear_deletion, undo}
use byte_db.Mvcc.Versions.Sharded.{new-IsSharded, chain_at-new}
use byte_db.Mvcc.Versions.{new, VersionStore, rollback_txn}
use byte_db.Mvcc.Versions.View.{IsSharded, chain_at}
use byte_db.Mvcc.Versions.Passes.{chain_at-rollback_txn}
use byte_db.Mvcc.Versions.Write.{Write, write, write_all, write-IsSharded, write_all-IsSharded}
use byte_db.Mvcc.Versions.Outcome.{IsFree, Marks, Outcome, marks, pushes, write_ts, write-Outcome}

module _ {D : Type 0} where
  -- a deletion has an author exactly if it has a time
  abbrev pub IsStamped : VersionedTuple D → Type 0
  IsStamped v = is_some v.deleted_by ≡ is_some v.deleted_ts

  -- the transaction has no part in the version
  abbrev pub IsUntouched : TxnId → VersionedTuple D → Type 0
  IsUntouched t v = ((v.created_by == t) ≡ false) × (holds v.deleted_by t ≡ false)

  -- every chain of the store has its deletions stamped
  pub record IsConsistent (s : VersionStore D) : Type 0 where
    pub sharded : IsSharded s
    pub stamped : (k : Bytes) → All IsStamped (chain_at s k)

  pub new-IsConsistent : IsConsistent (new {D = D})
  new-IsConsistent = record { sharded = new-IsSharded; stamped = λ k. rw (chain_at-new k) tt }

  undo-push :
      (t : TxnId) (c : Chain D) (d : D) (ts : Timestamp)
      → undo t (c ++ version d t ts ∷ []) ≡ undo t c
  unfolding undo
  undo-push t [] d ts = ground arith
  undo-push t (v ∷ c) d ts = ground (arith, undo-push t c d ts)

  clear-mark :
      (t : TxnId) (v : VersionedTuple D) (ts : Timestamp)
      → IsStamped v
      → IsFree t v
      → clear_deletion t (mark_deleted v t ts) ≡ clear_deletion t v
  unfolding clear_deletion
  clear-mark t v ts h k = ground arith

  undo-Marks :
      (t : TxnId) (ts : Timestamp) (c c' : Chain D)
      → All IsStamped c
      → Marks t ts c c'
      → undo t c' ≡ undo t c
  unfolding undo
  undo-Marks t ts [] [] h m = refl
  undo-Marks t ts [] (v' ∷ c') h m = absurd m
  undo-Marks t ts (v ∷ c) [] h m = absurd m
  undo-Marks t ts (v ∷ c) (v' ∷ c') h m =
      ground (arith, undo-Marks t ts c c' h.1 m.1, clear-mark t v ts h.0)

  IsStamped-Marks :
      (t : TxnId) (ts : Timestamp) (c c' : Chain D)
      → All IsStamped c
      → Marks t ts c c'
      → All IsStamped c'
  IsStamped-Marks t ts [] [] h m = tt
  IsStamped-Marks t ts [] (v' ∷ c') h m = absurd m
  IsStamped-Marks t ts (v ∷ c) [] h m = tt
  IsStamped-Marks t ts (v ∷ c) (v' ∷ c') h m = (ground arith, IsStamped-Marks t ts c c' h.1 m.1)

  undo-Outcome :
      (t : TxnId) (ts : Timestamp) (c c' : Chain D)
      → All IsStamped c
      → Outcome t ts c c'
      → undo t c' ≡ undo t c
  undo-Outcome t ts c c' h (marks m) = undo-Marks t ts c c' h m
  undo-Outcome t ts c c' h (pushes d e) = ap (undo t) e ∙ undo-push t c d ts

  IsStamped-Outcome :
      (t : TxnId) (ts : Timestamp) (c c' : Chain D)
      → All IsStamped c
      → Outcome t ts c c'
      → All IsStamped c'
  IsStamped-Outcome t ts c c' h (marks m) = IsStamped-Marks t ts c c' h m
  IsStamped-Outcome t ts c c' h (pushes d e) = rw e (All-append IsStamped c _ h (refl, tt))

  pub write-IsConsistent :
      (t : TxnId) (w : Write D) (s : VersionStore D) → IsConsistent s → IsConsistent (write t w s)
  write-IsConsistent t w s h = record {
    sharded = write-IsSharded t w s h.sharded;
    stamped = λ k.
        IsStamped-Outcome t (write_ts w) (chain_at s k) _ (h.stamped k)
          (write-Outcome t w s k h.sharded);
  }

  undo-write_all :
      (t : TxnId) (ws : List (Write D)) (s : VersionStore D) (k : Bytes)
      → IsConsistent s
      → undo t (chain_at (write_all t ws s) k) ≡ undo t (chain_at s k)
  unfolding write_all
  undo-write_all t [] s k h = refl
  undo-write_all t (w ∷ ws) s k h =
      undo-write_all t ws (write t w s) k (write-IsConsistent t w s h)
      ∙ undo-Outcome t (write_ts w) (chain_at s k) _ (h.stamped k) (write-Outcome t w s k h.sharded)

  undo-IsUntouched : (t : TxnId) (c : Chain D) → All (IsUntouched t) c → undo t c ≡ c
  unfolding undo
  undo-IsUntouched t [] h = refl
  undo-IsUntouched t (v ∷ c) h = ground (arith, undo-IsUntouched t c h.1)

  -- Whatever a transaction wrote by `insert`, `delete`, `try_delete` and `try_update`, failed calls
  -- included, `rollback_txn` gives every key the chain back that it had before, if the transaction
  -- had no part in that chain. The store must have its shards, and its deletions stamped.
  pub rollback_restores :
      (t : TxnId) (ws : List (Write D)) (s : VersionStore D) (k : Bytes)
      → IsConsistent s
      → All (IsUntouched t) (chain_at s k)
      → chain_at (rollback_txn (write_all t ws s) t) k ≡ chain_at s k
  rollback_restores t ws s k h clean =
      chain_at-rollback_txn (write_all t ws s) t k (write_all-IsSharded t ws s h.sharded)
      ∙ undo-write_all t ws s k h
      ∙ undo-IsUntouched t (chain_at s k) clean
