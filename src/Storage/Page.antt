-- ===== src/Storage/Page.antt =====
-- bytedb-core/src/storage/page.rs: a page of 8192 bytes, with a directory of slots after its header
-- and the tuples from its end downwards. The array is a function from positions to bytes. A slice
-- beyond the array would panic; the slices are within it on the pages that the children describe.
pub mod Layout
pub mod Change
pub mod View
pub mod Alloc
pub mod Delete
pub mod Rewrite
pub mod Update
pub mod Place
pub mod Compact
pub mod Outcome
pub mod Updates
pub mod Runs
pub mod Success
use Prim.Native.Nat.{bit_and, bit_or}
use byte_db.Common.{
  ℕ, zero, suc, ◌+◌, ◌-◌, ◌*◌, ◌%◌, ◌==◌, not, Bool, true, false, Option, none, some, List, [], ◌∷◌,
  ◌++◌, leb, ltb, if◌then◌else◌, length, Bytes,
}
use byte_db.Common.LeBytes.{to_le_bytes, from_le_bytes}
use byte_db.Error.{CoreError, Result, internal, ok, err}
use byte_db.Storage.Memory.{Memory, write_at, zero_fill, slice, get16, put16}
use byte_db.Storage.Slots.{
  Page, PageType, SlotEntry, checksum, compute_checksum, decode, encode, format_version, free_end,
  free_space, free_start, get_page_id, is_dead, item_count, live_count, lsn, page_format_version,
  page_header_size, page_size, page_type, page_type_byte, page_type_from, read_slot, set_checksum,
  set_free_end, set_free_start, set_live_count, set_lsn, set_page_id, set_page_type, set_slot_count,
  slot_count, slot_entry_offset, slot_entry_size, slot_flag_dead, with_bytes, write_slot,
}

unfoldable pub new : ℕ → Page
unfolding write_at put16
new id =
    let page = set_page_id (record { id = id; bytes = λ i. 0 }) id in
    let page = with_bytes page (write_at page.bytes 5 (page_format_version ∷ [])) in
    let page = set_live_count (set_slot_count page 0) 0 in
    set_free_end (set_free_start page page_header_size) page_size

unfoldable pub get_slot : Page → ℕ → Option Bytes
unfolding read_slot slice
get_slot p slot_id =
    let entry = read_slot p slot_id in
    if leb (slot_count p) slot_id
    then none
    else if is_dead entry
    then none
    else if ltb page_size (entry.offset + entry.length)
    then none
    else some (slice p.bytes entry.offset entry.length)

-- the page after `alloc_slot` has found room
unfoldable pub add_slot : Page → Bytes → Page
unfolding write_at put16 get16 write_slot
add_slot p tuple =
    let slot_id = slot_count p in
    let tuple_off = free_end p - length tuple in
    let entry : SlotEntry = record { offset = tuple_off; length = length tuple; flags = 0 } in
    let page = with_bytes p (write_at p.bytes tuple_off tuple) in
    let page = write_slot (set_slot_count page (slot_id + 1)) slot_id entry in
    let page = set_free_start page (free_start page + slot_entry_size) in
    let page = set_free_end page tuple_off in set_live_count page (live_count page + 1)

unfoldable pub alloc_slot : Page → Bytes → Page × Result ℕ
unfolding add_slot
alloc_slot p tuple =
    if ltb 65535 (length tuple)
    then (p, err (internal "alloc_slot: tuple too large for page"))
    else if ltb (free_space p) (length tuple + slot_entry_size)
    then (p, err (internal "alloc_slot: not enough free space (caller should split)"))
    else (add_slot p tuple, ok (slot_count p))

-- the numbers are left out of the error's text
unfoldable pub delete_slot : Page → ℕ → Page × Result (Unit {0})
delete_slot p slot_id =
    let entry = read_slot p slot_id in
    if leb (slot_count p) slot_id
    then (p, err (internal "delete_slot: slot out of range"))
    else if is_dead entry
    then (p, ok tt)
    else let page =
        write_slot p slot_id (record entry { flags = bit_or entry.flags slot_flag_dead }) in
      (if ltb 0 (live_count page) then set_live_count page (live_count page - 1) else page, ok tt)

-- the live tuples of `n` slots from `id`
unfoldable pub live_from : Page → ℕ → ℕ → List (ℕ × Bytes)
unfolding read_slot slice
live_from p id zero = []
live_from p id (suc n) =
    let rest = live_from p (suc id) n in
    let e = read_slot p id in
    if is_dead e then rest else (id, slice p.bytes e.offset e.length) ∷ rest

-- the loop that puts them back, from the end of the page downwards
unfoldable pub place : Page → ℕ → List (ℕ × Bytes) → Page × ℕ
unfolding write_at read_slot write_slot
place p cursor [] = (p, cursor)
place p cursor ((id, tuple) ∷ live) =
    let start = cursor - length tuple in
    let page = with_bytes p (write_at p.bytes start tuple) in
    let e = read_slot page id in
    place (write_slot page id (record e { offset = start; length = length tuple })) start live

unfoldable pub compact : Page → Page
compact p =
    let count = slot_count p in
    let dir_end = page_header_size + count * slot_entry_size in
    let page = set_free_start p dir_end in
    if count == 0
    then set_free_end page page_size
    else let placed =
        place (with_bytes page (zero_fill page.bytes dir_end page_size)) page_size
          (live_from page 0 count) in
      set_free_end placed.0 placed.1

-- a longer tuple goes below the others
unfoldable pub relocate : Page → ℕ → Bytes → ℕ → Page
unfolding write_at put16 write_slot
relocate p slot_id tuple flags =
    let new_off = free_end p - length tuple in
    let page = set_free_end (with_bytes p (write_at p.bytes new_off tuple)) new_off in
    write_slot page slot_id (record { offset = new_off; length = length tuple; flags = flags })

unfoldable pub update_slot : Page → ℕ → Bytes → Page × Result (Unit {0})
update_slot p slot_id tuple =
    let entry = read_slot p slot_id in
    if leb (slot_count p) slot_id
    then (p, err (internal "update_slot: slot out of range"))
    else if is_dead entry
    then (p, err (internal "update_slot: slot is dead"))
    else if leb (length tuple) entry.length
    then (
      write_slot (with_bytes p (write_at p.bytes entry.offset tuple)) slot_id
          (record entry { length = length tuple }),
      ok tt,
    )
    else if ltb (free_space p) (length tuple)
    then (if ltb (free_space (compact p)) (length tuple)
        then (compact p, err (internal "update_slot: not enough room even after compact"))
        else (relocate (compact p) slot_id tuple entry.flags, ok tt))
    else (relocate p slot_id tuple entry.flags, ok tt)

-- `n` slots from `id`
unfoldable pub iter_from : Page → ℕ → ℕ → List (ℕ × Bytes)
unfolding get_slot
iter_from p id zero = []
iter_from p id (suc n) =
    let rest = iter_from p (suc id) n in
    elim (get_slot p id) [ none ↦ rest | some d ↦ (id, d) ∷ rest ]

unfoldable pub iter_live : Page → List (ℕ × Bytes)
unfolding iter_from
iter_live p = iter_from p 0 (slot_count p)

abbrev pub body : Page → Bytes
body p = slice p.bytes page_header_size (page_size - page_header_size)
