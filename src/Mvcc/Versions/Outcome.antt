-- ===== src/Mvcc/Versions/Outcome.antt =====
-- What one write can do to the chain of a key: mark versions as deleted that were free to be
-- deleted, or push a version. Every method of the store does one of the two, at every key.
use byte_db.Common.{
  bytes_eq_iff, ◌≡◌, refl, Bool, true, false, none, some, List, [], ◌∷◌, ◌++◌, ◌⊎◌, inl, inr, holds,
  last, set_last, arith, if◌then◌else◌, Bytes, bytes_eq, Option-cases, Bool-cases,
}
use byte_db.Error.{Result, ok, err}
use byte_db.Mvcc.Visibility.{Timestamp, TxnId, VersionedTuple}
use byte_db.Mvcc.Chain.{
  update_conflict, Chain, version, mark_deleted, delete_newest, may_delete, try_delete_chain,
  try_update_chain,
}
use byte_db.Mvcc.Versions.{VersionStore}
use byte_db.Mvcc.Versions.View.{
  IsSharded, chain_at, chain_at-insert, chain_at-delete, chain_at-try_delete, chain_at-try_update,
}
use byte_db.Mvcc.Versions.Write.{Write, inserting, deleting, try_deleting, try_updating, write}

module _ {D : Type 0} where
  -- no deletion, or one of the transaction's own
  abbrev pub IsFree : TxnId → VersionedTuple D → Type 0
  IsFree t v = (v.deleted_by ≡ none) ⊎ (holds v.deleted_by t ≡ true)

  -- `c'` is `c` with some free versions marked
  abbrev pub Marks : TxnId → Timestamp → Chain D → Chain D → Type 0
  Marks t ts [] [] = Unit
  Marks t ts [] (v' ∷ c') = ⊥
  Marks t ts (v ∷ c) [] = ⊥
  Marks t ts (v ∷ c) (v' ∷ c') =
      ((v' ≡ v) ⊎ (IsFree t v × (v' ≡ mark_deleted v t ts))) × Marks t ts c c'

  pub data Outcome (t : TxnId) (ts : Timestamp) (c c' : Chain D) : Type 0 where
    marks : Marks t ts c c' → Outcome t ts c c'
    pushes : (d : D) → c' ≡ c ++ version d t ts ∷ [] → Outcome t ts c c'

  pub Marks-refl : (t : TxnId) (ts : Timestamp) (c : Chain D) → Marks t ts c c
  Marks-refl t ts [] = tt
  Marks-refl t ts (v ∷ c) = (inl refl, Marks-refl t ts c)

  Marks-delete_newest :
      (t : TxnId) (ts : Timestamp) (c : Chain D) → Marks t ts c (delete_newest c t ts).0
  unfolding delete_newest
  Marks-delete_newest t ts [] = tt
  Marks-delete_newest t ts (v ∷ c) = ground (arith, Marks-delete_newest t ts c)

  Marks-set_last :
      (t : TxnId) (ts : Timestamp) (c : Chain D) (l : VersionedTuple D)
      → last c ≡ some l
      → IsFree t l
      → Marks t ts c (set_last c (mark_deleted l t ts))
  unfolding last set_last
  Marks-set_last t ts [] l e h = tt
  Marks-set_last t ts (v ∷ []) l e h = (inr (ground arith, ground arith), tt)
  Marks-set_last t ts (v ∷ w ∷ c) l e h = (inl refl, Marks-set_last t ts (w ∷ c) l (ground arith) h)

  -- `try_delete` marks only a version with no deletion, or its own
  may_delete-IsFree :
      (l : VersionedTuple D) (t : TxnId) (snapshot_ts : Timestamp) (active : List TxnId)
      → may_delete l t snapshot_ts active ≡ ok true
      → IsFree t l
  unfolding may_delete
  may_delete-IsFree l t snapshot_ts active h = ground arith

  Marks-try_delete_chain :
      (t : TxnId) (ts : Timestamp) (c : Chain D) (snapshot_ts : Timestamp) (active : List TxnId)
      → Marks t ts c (try_delete_chain c t ts snapshot_ts active).1
  unfolding try_delete_chain
  Marks-try_delete_chain t ts c snapshot_ts active = elim (Option-cases (last c)) [
    | inl e ↦ rw (e, try_delete_chain) (Marks-refl t ts c)
    | inr (l, e) ↦ on_decision l e (may_delete l t snapshot_ts active) refl
  ]
    where
      on_decision :
          (l : VersionedTuple D)
          → last c ≡ some l
          → (r : Result Bool) → may_delete l t snapshot_ts active ≡ r
          → Marks t ts c (try_delete_chain c t ts snapshot_ts active).1
      on_decision l e (err x) m = rw (e, m, try_delete_chain) (Marks-refl t ts c)
      on_decision l e (ok false) m = rw (e, m, try_delete_chain) (Marks-refl t ts c)
      on_decision l e (ok true) m =
          rw (e, m, try_delete_chain)
            (Marks-set_last t ts c l e (may_delete-IsFree l t snapshot_ts active m))

  -- a conflict leaves the chain, success pushes the new version
  Outcome-try_update_chain :
      (t : TxnId) (ts : Timestamp) (c : Chain D) (d : D) (snapshot_ts : Timestamp)
      (active : List TxnId)
      → Outcome t ts c (try_update_chain c d t ts snapshot_ts active).1
  unfolding try_update_chain
  Outcome-try_update_chain t ts c d snapshot_ts active = elim (Option-cases (last c)) [
    | inl e ↦ rw (e, try_update_chain) (pushes d refl)
    | inr (l, e) ↦ elim (Bool-cases (update_conflict l t snapshot_ts active)) [
      | inl b ↦ rw (e, b, try_update_chain) (marks (Marks-refl t ts c))
      | inr b ↦ rw (e, b, try_update_chain) (pushes d refl)
    ]
  ]

  abbrev pub write_ts : Write D → Timestamp
  write_ts (inserting key d ts) = ts
  write_ts (deleting key ts) = ts
  write_ts (try_deleting key ts sts active) = ts
  write_ts (try_updating key d ts sts active) = ts

  -- a store in which the chain of one key is changed by `f`
  at_key :
      (t : TxnId) (ts : Timestamp) (f : Chain D → Chain D) (s : VersionStore D) (key j : Bytes)
      (r : Chain D)
      → ((c : Chain D) → Outcome t ts c (f c))
      → r ≡ (if bytes_eq key j then f (chain_at s key) else chain_at s j)
      → Outcome t ts (chain_at s j) r
  at_key t ts f s key j r h e = elim (Bool-cases (bytes_eq key j)) [
    | inl same ↦ rw e (rw same (rw ((bytes_eq_iff key j).0 same) (h (chain_at s j))))
    | inr other ↦ rw e (rw other (marks (Marks-refl t ts (chain_at s j))))
  ]

  pub write-Outcome :
      (t : TxnId) (w : Write D) (s : VersionStore D) (j : Bytes)
      → IsSharded s
      → Outcome t (write_ts w) (chain_at s j) (chain_at (write t w s) j)
  unfolding write
  write-Outcome t (inserting key d ts) s j h =
      at_key t ts (λ c. c ++ version d t ts ∷ []) s key j _ (λ c. pushes d refl)
        (chain_at-insert s key j d t ts h)
  write-Outcome t (deleting key ts) s j h =
      at_key t ts (λ c. (delete_newest c t ts).0) s key j _
        (λ c. marks (Marks-delete_newest t ts c)) (chain_at-delete s key j t ts h)
  write-Outcome t (try_deleting key ts sts active) s j h =
      at_key t ts (λ c. (try_delete_chain c t ts sts active).1) s key j _
        (λ c. marks (Marks-try_delete_chain t ts c sts active))
        (chain_at-try_delete s key j t ts sts active h)
  write-Outcome t (try_updating key d ts sts active) s j h =
      at_key t ts (λ c. (try_update_chain c d t ts sts active).1) s key j _
        (λ c. Outcome-try_update_chain t ts c d sts active)
        (chain_at-try_update s key j d t ts sts active h)
