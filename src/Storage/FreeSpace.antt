-- ===== src/Storage/FreeSpace.antt =====
-- bytedb-core/src/storage/fsm.rs. `record` and `forget` hold both locks throughout, so each is one
-- step.
pub mod Counts
pub mod Placed
pub mod Find
use byte_db.Common.{
  ◌-◌, ℕ, zero, suc, ◌+◌, ◌*◌, ◌/◌, ◌%◌, ◌==◌, min, Bool, true, false, Option, none, some, List, [],
  ◌∷◌, ◌++◌, leb, if◌then◌else◌, length, drop, get_or, set, last, replicate, find_last, nat_key,
  not,
}
use byte_db.HashMap.{HashMap, get, insert, remove, values}

abbrev pub num_buckets : ℕ
num_buckets = 16

pub record FreeSpaceMap : Type 0 where
  pub page_size : ℕ
  pub pages : HashMap ℕ ℕ
  pub buckets : List (List ℕ)

unfoldable pub new : ℕ → FreeSpaceMap
new page_size = record { page_size = page_size; pages = []; buckets = replicate num_buckets [] }

unfoldable pub bucket_index : ℕ → ℕ → ℕ
bucket_index page_size free_bytes =
    if page_size == 0
    then 0
    else min (free_bytes * num_buckets % 18446744073709551616 / page_size) (num_buckets - 1)

-- `iter().position(|p| *p == page_id)`
unfoldable pub position : List ℕ → ℕ → Option ℕ
position [] page_id = none
position (p ∷ ps) page_id =
    if p == page_id
    then some 0
    else elim (position ps page_id) [ none ↦ none | some i ↦ some (suc i) ]

-- `pop`, for its effect
unfoldable pub drop_last : List ℕ → List ℕ
drop_last [] = []
drop_last (p ∷ []) = []
drop_last (p ∷ q ∷ ps) = p ∷ drop_last (q ∷ ps)

-- the last element takes the place of the one at `pos`
unfoldable pub swap_remove : List ℕ → ℕ → List ℕ
unfolding last drop_last
swap_remove [] pos = []
swap_remove (p ∷ ps) zero = elim (last ps) [ none ↦ [] | some q ↦ q ∷ drop_last ps ]
swap_remove (p ∷ ps) (suc pos) = p ∷ swap_remove ps pos

unfoldable pub take_out : List ℕ → ℕ → List ℕ
unfolding position swap_remove
take_out bucket page_id = elim (position bucket page_id) [
  | none ↦ bucket
  | some pos ↦ swap_remove bucket pos
]

abbrev pub bucket_at : List (List ℕ) → ℕ → List ℕ
bucket_at buckets idx = get_or buckets idx []

unfoldable pub remove_from : List (List ℕ) → ℕ → ℕ → List (List ℕ)
unfolding take_out
remove_from buckets idx page_id = set buckets idx (take_out (bucket_at buckets idx) page_id)

unfoldable pub push_to : List (List ℕ) → ℕ → ℕ → List (List ℕ)
push_to buckets idx page_id = set buckets idx (bucket_at buckets idx ++ page_id ∷ [])

unfoldable pub move_page : List (List ℕ) → ℕ → ℕ → ℕ → List (List ℕ)
unfolding remove_from push_to
move_page buckets old_idx new_idx page_id =
    if old_idx == new_idx
    then buckets
    else push_to (remove_from buckets old_idx page_id) new_idx page_id

-- `record`
unfoldable pub record_space : FreeSpaceMap → ℕ → ℕ → FreeSpaceMap
unfolding bucket_index move_page push_to get insert
record_space m page_id free_bytes =
    let new_idx = bucket_index m.page_size free_bytes in
    record m {
      pages = insert m.pages page_id free_bytes;
      buckets = elim (get m.pages page_id) [
        | some old_free ↦ move_page m.buckets (bucket_index m.page_size old_free) new_idx page_id
        | none ↦ push_to m.buckets new_idx page_id
      ];
    }

unfoldable pub forget : FreeSpaceMap → ℕ → FreeSpaceMap
unfolding bucket_index remove_from get remove
forget m page_id = record m {
  pages = remove m.pages page_id;
  buckets = elim (get m.pages page_id) [
    | some free ↦ remove_from m.buckets (bucket_index m.page_size free) page_id
    | none ↦ m.buckets
  ];
}

unfoldable pub fits : HashMap ℕ ℕ → ℕ → ℕ → Bool
unfolding get
fits pages needed_bytes pid = elim (get pages pid) [
  | none ↦ false
  | some free ↦ leb needed_bytes free
]

-- the loop over the buckets from the first that may hold a page
unfoldable pub first_fit : HashMap ℕ ℕ → ℕ → List (List ℕ) → Option ℕ
unfolding fits find_last
first_fit pages needed_bytes [] = none
first_fit pages needed_bytes (b ∷ buckets) = elim (find_last (fits pages needed_bytes) b) [
  | some pid ↦ some pid
  | none ↦ first_fit pages needed_bytes buckets
]

unfoldable pub find_with_at_least : FreeSpaceMap → ℕ → Option ℕ
unfolding bucket_index first_fit
find_with_at_least m needed_bytes =
    first_fit m.pages needed_bytes (drop (bucket_index m.page_size needed_bytes) m.buckets)

abbrev pub page_count : FreeSpaceMap → ℕ
page_count m = length m.pages

unfoldable pub free_bytes_for : FreeSpaceMap → ℕ → Option ℕ
unfolding get
free_bytes_for m page_id = get m.pages page_id

abbrev sum_u64 : List ℕ → ℕ
sum_u64 [] = 0
sum_u64 (n ∷ ns) = (n + sum_u64 ns) % 18446744073709551616

unfoldable pub total_free_bytes : FreeSpaceMap → ℕ
total_free_bytes m = sum_u64 (values m.pages)
