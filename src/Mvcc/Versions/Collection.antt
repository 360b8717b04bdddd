-- ===== src/Mvcc/Versions/Collection.antt =====
-- Garbage collection of versions: when it is invisible to a snapshot, and when it is not.
use byte_db.Common.{
  ◌≡◌, refl, ◌∙◌, sym, Bool, true, false, Option, none, some, List, [], ◌∷◌, ◌≤◌, ◌<◌, ◌==◌, ◌&&◌,
  ◌||◌, not, ltb, contains, retain, All, arith, Bytes,
}
use byte_db.Mvcc.Visibility.{Timestamp, TxnId, VersionedTuple, is_visible}
use byte_db.Mvcc.Chain.{Chain, newest_visible, keeps_version}
use byte_db.Mvcc.Versions.{VersionStore, get_visible, gc, gc_with_aborted}
use byte_db.Mvcc.Versions.View.{IsSharded, chain_at}
use byte_db.Mvcc.Versions.Passes.{chain_at-gc_with_aborted}
use byte_db.Mvcc.Versions.Isolation.{get_visible-chain_at}

-- `deleted_ts < oldest`, the test by which the collector drops a version
abbrev pub deleted_before : Option Timestamp → Timestamp → Bool
deleted_before none oldest = false
deleted_before (some ts) oldest = ltb ts oldest

-- a deletion by a transaction that had ended when the snapshot was taken
abbrev pub by_ended : Option TxnId → List TxnId → Bool
by_ended none active = false
by_ended (some d) active = not (contains active d)

module _ {D : Type 0} (t : TxnId) (sts oldest : Timestamp) (active : List TxnId) where
  -- if the collector drops the version, then another transaction created it and one that had
  -- ended when the snapshot was taken deleted it
  abbrev pub IsSettled : VersionedTuple D → Type 0
  IsSettled v =
      (not (deleted_before v.deleted_ts oldest)
        || (not (v.created_by == t) && by_ended v.deleted_by active))
      ≡ true

  dropped-invisible :
      (v : VersionedTuple D)
      → oldest ≤ sts
      → IsSettled v
      → keeps_version oldest [] v ≡ false
      → is_visible v t sts active ≡ false
  unfolding keeps_version is_visible
  dropped-invisible v h s k = ground arith

  newest_visible-gc :
      (c : Chain D)
      → oldest ≤ sts
      → All IsSettled c
      → newest_visible (retain (keeps_version oldest []) c) t sts active
        ≡ newest_visible c t sts active
  unfolding newest_visible
  newest_visible-gc [] h s = refl
  newest_visible-gc (v ∷ c) h s =
      ground (arith, newest_visible-gc c h s.1, dropped-invisible v h s.0)

  -- Collection with the bound `oldest` leaves what a snapshot taken no earlier reads at a key, if
  -- each version there that was deleted before the bound is another transaction's and its deleter
  -- was not active when the snapshot was taken. The store must have its shards.
  pub gc_keeps_reads :
      (s : VersionStore D) (k : Bytes)
      → IsSharded s
      → oldest ≤ sts
      → All IsSettled (chain_at s k)
      → get_visible (gc s oldest) k t sts active ≡ get_visible s k t sts active
  unfolding gc
  gc_keeps_reads s k h le settled =
      get_visible-chain_at (gc_with_aborted s oldest []).0 k t sts active
      ∙ rw (chain_at-gc_with_aborted s oldest [] k h) (newest_visible-gc (chain_at s k) le settled)
      ∙ sym (get_visible-chain_at s k t sts active)

  -- Collection takes a row away from a snapshot that should read it: where the only version of a
  -- key was created by an ended transaction before the snapshot and deleted by one that was active
  -- when the snapshot was taken, at a time before the bound, the snapshot reads the version before
  -- the collection and nothing after it, although it was not taken before the bound. The store
  -- must have its shards.
  pub gc_drops_visible :
      (s : VersionStore D) (k : Bytes) (v : VersionedTuple D) (d : TxnId) (dts : Timestamp)
      → IsSharded s
      → chain_at s k ≡ v ∷ []
      → (v.created_by == t) ≡ false
      → contains active v.created_by ≡ false
      → v.created_ts ≤ sts
      → v.deleted_by ≡ some d
      → v.deleted_ts ≡ some dts
      → (d == t) ≡ false
      → contains active d ≡ true
      → dts < oldest
      → oldest ≤ sts
      → (get_visible s k t sts active ≡ some v.tuple)
        × (get_visible (gc s oldest) k t sts active ≡ none)
  unfolding gc newest_visible keeps_version
  gc_drops_visible s k v d dts h only other ended seen by_d at_dts d_other d_active before le = (
    get_visible-chain_at s k t sts active ∙ rw only (ground arith),
    get_visible-chain_at (gc_with_aborted s oldest []).0 k t sts active
        ∙ rw (chain_at-gc_with_aborted s oldest [] k h) (rw only (ground arith)),
  )
