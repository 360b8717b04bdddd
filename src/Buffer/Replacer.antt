-- ===== src/Buffer/Replacer.antt =====
-- bytedb-core/src/buffer/replacer.rs. The order in which `evict` visits the frames is that of the
-- map. No other thread is assumed between the parts of a call.
pub mod Histories
pub mod Victims
use byte_db.Common.{
  ℕ, zero, suc, ◌+◌, ◌-◌, ◌%◌, Bool, true, false, not, Option, none, some, List, [], ◌∷◌, ◌++◌, ltb,
  if◌then◌else◌, length, drop, get_or, nat_key,
}
use byte_db.HashMap.{HashMap, get, insert, remove, entry_or, values}

pub record LruKReplacer : Type 0 where
  pub k : ℕ
  pub access_history : HashMap ℕ (List ℕ)
  pub current_timestamp : ℕ
  pub evictable : HashMap ℕ Bool

unfoldable pub new : ℕ → LruKReplacer
new k = record { k = k; access_history = []; current_timestamp = 0; evictable = [] }

-- `push_back`, then `pop_front` if there are too many
abbrev pub pushed : ℕ → List ℕ → ℕ → List ℕ
pushed k accesses timestamp =
    let entry = accesses ++ timestamp ∷ [] in if ltb k (length entry) then drop 1 entry else entry

unfoldable pub record_access : LruKReplacer → ℕ → LruKReplacer
record_access r frame_id =
    let timestamp = (r.current_timestamp + 1) % 18446744073709551616 in
    let entry = entry_or r.access_history frame_id [] in
    record r {
      current_timestamp = timestamp;
      access_history = insert entry.0 frame_id (pushed r.k entry.1 timestamp);
    }

unfoldable pub set_evictable : LruKReplacer → ℕ → Bool → LruKReplacer
set_evictable r frame_id evictable = record r { evictable = insert r.evictable frame_id evictable }

unfoldable pub forget_frame : LruKReplacer → ℕ → LruKReplacer
forget_frame r frame_id = record r {
  access_history = remove r.access_history frame_id;
  evictable = remove r.evictable frame_id;
}

-- the variables of the loop
pub record Search : Type 0 where
  pub victim : Option ℕ
  pub max_distance : ℕ
  pub found_less_than_k : Bool

abbrev pub no_victim : Search
no_victim = record { victim = none; max_distance = 0; found_less_than_k = false }

-- a frame with accesses
abbrev pub consider_accesses : ℕ → ℕ → ℕ → List ℕ → Search → Search
consider_accesses k now frame_id accesses s =
    let front = get_or accesses 0 0 in
    if ltb (length accesses) k
    then (if not s.found_less_than_k
        then record { victim = some frame_id; max_distance = front; found_less_than_k = true }
        else if ltb front s.max_distance
        then record s { victim = some frame_id; max_distance = front }
        else s)
    else if not s.found_less_than_k
    then (if ltb s.max_distance (now - front)
        then record s { victim = some frame_id; max_distance = now - front }
        else s)
    else s

-- one round of the loop
unfoldable pub consider : LruKReplacer → ℕ → Bool → Search → Search
consider r frame_id is_evictable s =
    if not is_evictable then s else elim (get r.access_history frame_id) [
      | some accesses ↦ consider_accesses r.k r.current_timestamp frame_id accesses s
      | none ↦ record { victim = some frame_id; max_distance = 0; found_less_than_k = true }
    ]

unfoldable pub consider_all : LruKReplacer → HashMap ℕ Bool → Search → Search
consider_all r [] s = s
consider_all r ((frame_id, is_evictable) ∷ frames) s =
    consider_all r frames (consider r frame_id is_evictable s)

unfoldable pub evict : LruKReplacer → LruKReplacer × Option ℕ
evict r = elim (consider_all r r.evictable no_victim).victim [
  | none ↦ (r, none)
  | some frame_id ↦ (forget_frame r frame_id, some frame_id)
]

abbrev count_true : List Bool → ℕ
count_true [] = 0
count_true (b ∷ bs) = (if b then 1 else 0) + count_true bs

unfoldable pub size : LruKReplacer → ℕ
size r = count_true (values r.evictable)
