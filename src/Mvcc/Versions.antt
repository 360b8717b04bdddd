-- ===== src/Mvcc/Versions.antt =====
-- bytedb-core/src/mvcc/version_store.rs: the store of version chains, 64 shards of a hash map.
-- A method on one key takes its shard's lock for its whole body, so one call is one step. The methods
-- that visit every shard take the locks in turn; each is one step here too, so that what other
-- threads do meanwhile in the shards that it does not hold is not covered. `D` stands for the stored
-- `Tuple`. Counters are `usize`, with their wrap-around written out.
pub mod Write
pub mod Outcome
pub mod Rollback
pub mod Isolation
pub mod Conflicts
pub mod OwnDeletes
pub mod OwnWrites
pub mod Collection
pub mod View
pub mod Sharded
pub mod Passes
pub mod Reads
pub mod Scans
use byte_db.Common.{
  ℕ, ◌+◌, ◌-◌, ◌*◌, ◌%◌, ◌^◌, bit_and, bit_xor, Bool, true, false, Option, none, some, List, [],
  ◌∷◌, ◌++◌, not, ltb, if◌then◌else◌, get_or, set, retain, map, is_empty, length, replicate, Bytes,
  bytes_key,
}
use byte_db.Error.{Result, ok, err}
use byte_db.HashMap.{
  HashMap, get, contains_key, insert as map_insert, entry_or, retain_values, values,
}
use byte_db.Mvcc.Visibility.{TxnId, Timestamp}
use byte_db.Mvcc.Chain.{
  Chain, ReadResult, version, delete_newest, try_delete_chain, try_update_chain, newest_visible,
  keeps_version, non_empty, undo,
}

abbrev pub shard_count : ℕ
shard_count = 64

abbrev pub Shard : Type 0 → Type 0
Shard D = HashMap Bytes (Chain D)

pub record VersionStore (D : Type 0) : Type 0 where
  pub shards : List (Shard D)
  pub approx_keys : ℕ

-- `fetch_add` and `fetch_sub` on an `AtomicUsize`
abbrev pub wrapping_add : ℕ → ℕ → ℕ
wrapping_add a b = (a + b) % 2 ^ 64

abbrev pub wrapping_sub : ℕ → ℕ → ℕ
wrapping_sub a b = (a + (2 ^ 64 - b % 2 ^ 64)) % 2 ^ 64

-- the FNV-1a loop of `shard_index`
unfoldable pub fnv : ℕ → Bytes → ℕ
fnv h [] = h
fnv h (b ∷ key) = fnv (bit_xor h b * 0x100000001b3 % 2 ^ 64) key

unfoldable pub shard_index : Bytes → ℕ
unfolding fnv
shard_index key = bit_and (fnv 0xcbf29ce484222325 key) (shard_count - 1)

pub record GcStats : Type 0 where
  pub versions_removed : ℕ
  pub keys_removed : ℕ

module _ {D : Type 0} where
  unfoldable pub new : VersionStore D
  new = record { shards = replicate shard_count []; approx_keys = 0 }

  unfoldable pub shard_for : VersionStore D → Bytes → Shard D
  shard_for s key = get_or s.shards (shard_index key) []

  -- what a write through the shard's lock leaves
  unfoldable pub put_shard : VersionStore D → Bytes → Shard D → VersionStore D
  put_shard s key shard = record s { shards = set s.shards (shard_index key) shard }

  -- `if was_empty { approx_keys.fetch_add(1) }`
  abbrev pub count_key : Bool → VersionStore D → VersionStore D
  count_key true s = record s { approx_keys = wrapping_add s.approx_keys 1 }
  count_key false s = s

  unfoldable pub insert : VersionStore D → Bytes → D → TxnId → Timestamp → VersionStore D
  insert s key tuple txn_id ts =
      let shard = shard_for s key in
      let was_empty = not (contains_key shard key) in
      let (shard', chain) = entry_or shard key [] in
      count_key was_empty
        (put_shard s key (map_insert shard' key (chain ++ version tuple txn_id ts ∷ [])))

  unfoldable pub delete : VersionStore D → Bytes → TxnId → Timestamp → VersionStore D × Bool
  delete s key txn_id ts =
      let shard = shard_for s key in
      elim (get shard key) [
        | none ↦ (s, false)
        | some chain ↦ (
          put_shard s key (map_insert shard key (delete_newest chain txn_id ts).0),
          (delete_newest chain txn_id ts).1,
        )
      ]

  unfoldable pub try_delete :
      VersionStore D
      → Bytes
      → TxnId
      → Timestamp
      → Timestamp
      → List TxnId
      → Result Bool × VersionStore D
  try_delete s key txn_id ts snapshot_ts active_txns =
      let shard = shard_for s key in
      elim (get shard key) [
        | none ↦ (ok false, s)
        | some chain ↦ (
          (try_delete_chain chain txn_id ts snapshot_ts active_txns).0,
          put_shard s key
              (map_insert shard key (try_delete_chain chain txn_id ts snapshot_ts active_txns).1),
        )
      ]

  unfoldable pub ensure_base : VersionStore D → Bytes → D → VersionStore D
  ensure_base s key committed =
      let shard = shard_for s key in
      let was_absent = not (contains_key shard key) in
      let (shard', chain) = entry_or shard key [] in
      if is_empty chain
      then count_key was_absent
          (put_shard s key (map_insert shard' key (chain ++ version committed 0 0 ∷ [])))
      else put_shard s key shard'

  -- the early return of `try_update`, and its last lines
  abbrev pub settle : Result (Unit {0}) → Bool → VersionStore D → Result (Unit {0}) × VersionStore D
  settle (err e) was_empty s = (err e, s)
  settle (ok u) was_empty s = (ok u, count_key was_empty s)

  -- on an error the counter is left, and the shard is as `entry` left it
  unfoldable pub try_update :
      VersionStore D
      → Bytes
      → D
      → TxnId
      → Timestamp
      → Timestamp
      → List TxnId
      → Result (Unit {0}) × VersionStore D
  try_update s key new_tuple txn_id ts snapshot_ts active_txns =
      let shard = shard_for s key in
      let was_empty_chain = not (contains_key shard key) in
      let (shard', chain) = entry_or shard key [] in
      let (result, chain') = try_update_chain chain new_tuple txn_id ts snapshot_ts active_txns in
      settle result was_empty_chain (put_shard s key (map_insert shard' key chain'))

  unfoldable pub get_visible : VersionStore D → Bytes → TxnId → Timestamp → List TxnId → Option D
  get_visible s key txn_id snapshot_ts active_txns = elim (get (shard_for s key) key) [
    | none ↦ none
    | some chain ↦ newest_visible chain txn_id snapshot_ts active_txns
  ]

  unfoldable pub lookup_for_read :
      VersionStore D → Bytes → TxnId → Timestamp → List TxnId → ReadResult D
  lookup_for_read s key txn_id snapshot_ts active_txns = elim (get (shard_for s key) key) [
    | none ↦ ReadResult.no_versions
    | some chain ↦
        if is_empty chain
        then ReadResult.no_versions
        else elim (newest_visible chain txn_id snapshot_ts active_txns) [
          | some tuple ↦ ReadResult.visible tuple
          | none ↦ ReadResult.tombstone
        ]
  ]

  -- the number of keys that a pass over the shards dropped
  abbrev pub keys_lost : List (Shard D) → List (Shard D) → ℕ
  keys_lost [] after = 0
  keys_lost (x ∷ before) [] = 0
  keys_lost (x ∷ before) (y ∷ after) = length x - length y + keys_lost before after

  abbrev pub versions_in : List (Chain D) → ℕ
  versions_in [] = 0
  versions_in (c ∷ cs) = length c + versions_in cs

  unfoldable pub total_versions : List (Shard D) → ℕ
  total_versions [] = 0
  total_versions (x ∷ xs) = versions_in (values x) + total_versions xs

  -- the closure that `gc_with_aborted` hands to `retain`
  unfoldable pub gc_chain : Timestamp → List TxnId → Chain D → Option (Chain D)
  unfolding keeps_version
  gc_chain oldest_active_ts aborted_txns chain =
      non_empty (retain (keeps_version oldest_active_ts aborted_txns) chain)

  unfoldable pub gc_with_aborted :
      VersionStore D → Timestamp → List TxnId → VersionStore D × GcStats
  gc_with_aborted s oldest_active_ts aborted_txns =
      let shards' = map (retain_values (gc_chain oldest_active_ts aborted_txns)) s.shards in
      let keys_removed = keys_lost s.shards shards' in
      (
        record { shards = shards'; approx_keys = wrapping_sub s.approx_keys keys_removed },
        record {
          versions_removed = total_versions s.shards - total_versions shards';
          keys_removed = keys_removed;
        },
      )

  unfoldable pub gc : VersionStore D → Timestamp → VersionStore D
  gc s oldest_active_ts = (gc_with_aborted s oldest_active_ts []).0

  unfoldable pub undo_chain : TxnId → Chain D → Option (Chain D)
  unfolding undo
  undo_chain txn_id chain = non_empty (undo txn_id chain)

  unfoldable pub rollback_txn : VersionStore D → TxnId → VersionStore D
  rollback_txn s txn_id =
      let shards' = map (retain_values (undo_chain txn_id)) s.shards in
      record {
        shards = shards';
        approx_keys = wrapping_sub s.approx_keys (keys_lost s.shards shards');
      }

  unfoldable pub key_count : VersionStore D → ℕ
  key_count s = s.approx_keys

  unfoldable pub is_empty_fast : VersionStore D → Bool
  is_empty_fast s = if ltb 0 s.approx_keys then false else true
