-- ===== src/Mvcc/Versions/Reads.antt =====
-- The two point reads of the store agree.
use byte_db.Common.{
  ◌≡◌, Bool, true, false, Option, none, some, List, arith, is_empty, Bytes, bytes_key,
}
use byte_db.Mvcc.Visibility.{Timestamp, TxnId}
use byte_db.Mvcc.Chain.{ReadResult, newest_visible}
use byte_db.Mvcc.Versions.{VersionStore, get_visible, lookup_for_read}
use byte_db.Mvcc.Versions.View.{chain_at}

module _ {D : Type 0} where
  -- what the detailed read answers, from the plain one and whether there are versions
  abbrev pub classify : Bool → Option D → ReadResult D
  classify no_chain (some d) = ReadResult.visible d
  classify true none = ReadResult.no_versions
  classify false none = ReadResult.tombstone

  -- `lookup_for_read` answers `Visible` with a tuple exactly where `get_visible` returns that tuple,
  -- and otherwise `NoVersions` if the key has no version and `Tombstone` if it has one, whatever the
  -- snapshot.
  pub lookup_for_read_classifies :
      (s : VersionStore D) (k : Bytes) (t : TxnId) (sts : Timestamp) (active : List TxnId)
      → lookup_for_read s k t sts active
        ≡ classify (is_empty (chain_at s k)) (get_visible s k t sts active)
  unfolding lookup_for_read get_visible chain_at newest_visible
  lookup_for_read_classifies s k t sts active = ground arith
