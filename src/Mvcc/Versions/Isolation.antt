-- ===== src/Mvcc/Versions/Isolation.antt =====
-- Snapshot isolation of reads and writes: a transaction reads what it wrote, does not read what a
-- concurrent one writes, and cannot overwrite it.
use byte_db.Common.{
  sym, find_last-append, ◌≡◌, refl, ◌∙◌, true, false, some, List, [], ◌∷◌, ◌++◌, ◌==◌, ltb, ◌||◌,
  not, holds, contains, All, arith, if◌then◌else◌, Bytes, All-append,
}
use byte_db.Mvcc.Visibility.{Timestamp, TxnId, VersionedTuple, is_visible, at_most}
use byte_db.Mvcc.Chain.{Chain, version, mark_deleted, newest_visible}
use byte_db.Mvcc.Versions.{VersionStore, get_visible}
use byte_db.Mvcc.Versions.View.{IsSharded, chain_at}
use byte_db.Mvcc.Versions.Write.{Write, write, write_all, write-IsSharded}
use byte_db.Mvcc.Versions.Outcome.{IsFree, Marks, Outcome, marks, pushes, write_ts, write-Outcome}

module _ {D : Type 0} where
  pub get_visible-chain_at :
      (s : VersionStore D) (k : Bytes) (t : TxnId) (sts : Timestamp) (active : List TxnId)
      → get_visible s k t sts active ≡ newest_visible (chain_at s k) t sts active
  unfolding get_visible chain_at newest_visible
  get_visible-chain_at s k t sts active = ground arith

  pub newest_visible-push :
      (c : Chain D) (v : VersionedTuple D) (t : TxnId) (sts : Timestamp) (active : List TxnId)
      → newest_visible (c ++ v ∷ []) t sts active
        ≡ (if is_visible v t sts active then some v.tuple else newest_visible c t sts active)
  unfolding newest_visible
  newest_visible-push c v t sts active =
      ground (arith, find_last-append (λ (x : VersionedTuple D). is_visible x t sts active) c v)

-- nothing that `w` does at the time `ts` is in a snapshot taken at `sts` beside `active`
abbrev pub IsConcurrent : TxnId → Timestamp → List TxnId → Timestamp → Type 0
IsConcurrent w sts active ts = (contains active w || ltb sts ts) ≡ true

module _ (t w : TxnId) (sts : Timestamp) (active : List TxnId) {D : Type 0} where
  -- a version of another transaction than `t`; a deletion of it by `w` is not in the snapshot
  abbrev pub IsForeign : VersionedTuple D → Type 0
  IsForeign v =
      ((v.created_by == t) ≡ false)
      × ((contains active w || not (holds v.deleted_by w) || not (at_most v.deleted_ts sts)) ≡ true)

  is_visible-mark :
      (v : VersionedTuple D) (ts : Timestamp)
      → (w == t) ≡ false
      → IsConcurrent w sts active ts
      → IsForeign v
      → IsFree w v
      → is_visible (mark_deleted v w ts) t sts active ≡ is_visible v t sts active
  unfolding is_visible
  is_visible-mark v ts other c f free = ground arith

  is_visible-version :
      (d : D) (ts : Timestamp)
      → (w == t) ≡ false
      → IsConcurrent w sts active ts
      → is_visible (version d w ts) t sts active ≡ false
  unfolding is_visible
  is_visible-version d ts other c = ground arith

  newest_visible-Marks :
      (ts : Timestamp) (c c' : Chain D)
      → (w == t) ≡ false
      → IsConcurrent w sts active ts
      → All IsForeign c
      → Marks w ts c c'
      → newest_visible c' t sts active ≡ newest_visible c t sts active
  unfolding newest_visible
  newest_visible-Marks ts [] [] other k h m = refl
  newest_visible-Marks ts [] (v' ∷ c') other k h m = absurd m
  newest_visible-Marks ts (v ∷ c) [] other k h m = absurd m
  newest_visible-Marks ts (v ∷ c) (v' ∷ c') other k h m =
      ground (arith, newest_visible-Marks ts c c' other k h.1 m.1, is_visible-mark v ts other k h.0)

  IsForeign-Marks :
      (ts : Timestamp) (c c' : Chain D)
      → IsConcurrent w sts active ts
      → All IsForeign c
      → Marks w ts c c'
      → All IsForeign c'
  IsForeign-Marks ts [] [] k h m = tt
  IsForeign-Marks ts [] (v' ∷ c') k h m = absurd m
  IsForeign-Marks ts (v ∷ c) [] k h m = tt
  IsForeign-Marks ts (v ∷ c) (v' ∷ c') k h m = (ground arith, IsForeign-Marks ts c c' k h.1 m.1)

  newest_visible-Outcome :
      (ts : Timestamp) (c c' : Chain D)
      → (w == t) ≡ false
      → IsConcurrent w sts active ts
      → All IsForeign c
      → Outcome w ts c c'
      → newest_visible c' t sts active ≡ newest_visible c t sts active
  newest_visible-Outcome ts c c' other k h (marks m) = newest_visible-Marks ts c c' other k h m
  newest_visible-Outcome ts c c' other k h (pushes d e) = rw e (
      newest_visible-push c (version d w ts) t sts active
      ∙ rw (is_visible-version d ts other k) refl)

  IsForeign-Outcome :
      (ts : Timestamp) (c c' : Chain D)
      → (w == t) ≡ false
      → IsConcurrent w sts active ts
      → All IsForeign c
      → Outcome w ts c c'
      → All IsForeign c'
  IsForeign-Outcome ts c c' other k h (marks m) = IsForeign-Marks ts c c' k h m
  IsForeign-Outcome ts c c' other k h (pushes d e) =
      rw e (All-append IsForeign c _ h (ground arith, tt))

  -- A transaction `t` that has not written a key reads the same at it before and after any
  -- writes of another transaction `w` that are concurrent with its snapshot: `w` was active when
  -- the snapshot was taken, or writes at later times. The store must have its shards.
  pub snapshot_stable :
      (ws : List (Write D)) (s : VersionStore D) (k : Bytes)
      → IsSharded s
      → (w == t) ≡ false
      → All (λ x. IsConcurrent w sts active (write_ts x)) ws
      → All IsForeign (chain_at s k)
      → get_visible (write_all w ws s) k t sts active ≡ get_visible s k t sts active
  unfolding write_all
  snapshot_stable [] s k h other cs f = refl
  snapshot_stable (x ∷ ws) s k h other cs f =
      let out = write-Outcome w x s k h in
      snapshot_stable ws (write w x s) k (write-IsSharded w x s h) other cs.1
        (IsForeign-Outcome (write_ts x) (chain_at s k) _ other cs.0 f out)
      ∙ get_visible-chain_at (write w x s) k t sts active
      ∙ newest_visible-Outcome (write_ts x) (chain_at s k) _ other cs.0 f out
      ∙ sym (get_visible-chain_at s k t sts active)
