-- ===== src/Storage/Slots.antt =====
-- bytedb-core/src/storage/page.rs: the fields of a page's header and the entries of its directory, in
-- the page's bytes.
use Prim.Native.Nat.{bit_and}
use byte_db.Common.{ℕ, ◌+◌, ◌-◌, ◌*◌, ◌==◌, not, Bool, [], ◌∷◌, ◌++◌, if◌then◌else◌, Bytes}
use byte_db.Common.LeBytes.{to_le_bytes, from_le_bytes}
use byte_db.Storage.Memory.{Memory, write_at, slice, get16, put16}

abbrev pub page_size : ℕ
page_size = 8192

abbrev pub page_header_size : ℕ
page_header_size = 32

abbrev pub slot_entry_size : ℕ
slot_entry_size = 5

abbrev pub slot_flag_dead : ℕ
slot_flag_dead = 1

abbrev pub page_format_version : ℕ
page_format_version = 2

pub data PageType : Type 0 where
  free data_page b_tree_internal b_tree_leaf overflow free_list meta : PageType

-- `From<u8>` and `as u8`
unfoldable pub page_type_from : ℕ → PageType
page_type_from v =
    if v == 0
    then PageType.free
    else if v == 1
    then PageType.data_page
    else if v == 2
    then PageType.b_tree_internal
    else if v == 3
    then PageType.b_tree_leaf
    else if v == 4
    then PageType.overflow
    else if v == 5
    then PageType.free_list
    else if v == 6
    then PageType.meta
    else PageType.free

abbrev pub page_type_byte : PageType → ℕ
page_type_byte PageType.free = 0
page_type_byte PageType.data_page = 1
page_type_byte PageType.b_tree_internal = 2
page_type_byte PageType.b_tree_leaf = 3
page_type_byte PageType.overflow = 4
page_type_byte PageType.free_list = 5
page_type_byte PageType.meta = 6

pub record SlotEntry : Type 0 where
  pub offset : ℕ
  pub length : ℕ
  pub flags : ℕ

-- the entry's bytes
abbrev pub encode : SlotEntry → Bytes
encode e = to_le_bytes 2 e.offset ++ (to_le_bytes 2 e.length ++ e.flags ∷ [])

-- from the five bytes at a position
unfoldable pub decode : Memory → ℕ → SlotEntry
unfolding get16
decode d off = record { offset = get16 d off; length = get16 d (off + 2); flags = d (off + 4) }

abbrev pub is_dead : SlotEntry → Bool
is_dead e = not (bit_and e.flags slot_flag_dead == 0)

pub record Page : Type 0 where
  pub id : ℕ
  pub bytes : Memory

abbrev pub with_bytes : Page → Memory → Page
with_bytes p d = record p { bytes = d }

abbrev pub slot_count : Page → ℕ
slot_count p = get16 p.bytes 20

abbrev pub set_slot_count : Page → ℕ → Page
set_slot_count p count = with_bytes p (put16 p.bytes 20 count)

abbrev pub live_count : Page → ℕ
live_count p = get16 p.bytes 22

abbrev pub set_live_count : Page → ℕ → Page
set_live_count p count = with_bytes p (put16 p.bytes 22 count)

abbrev pub free_start : Page → ℕ
free_start p = get16 p.bytes 24

abbrev pub set_free_start : Page → ℕ → Page
set_free_start p v = with_bytes p (put16 p.bytes 24 v)

abbrev pub free_end : Page → ℕ
free_end p = get16 p.bytes 26

abbrev pub set_free_end : Page → ℕ → Page
set_free_end p v = with_bytes p (put16 p.bytes 26 v)

abbrev pub set_page_id : Page → ℕ → Page
set_page_id p id = record { id = id; bytes = write_at p.bytes 0 (to_le_bytes 4 id) }

abbrev pub get_page_id : Page → ℕ
get_page_id p = from_le_bytes (slice p.bytes 0 4)

abbrev pub page_type : Page → PageType
page_type p = page_type_from (p.bytes 4)

abbrev pub set_page_type : Page → PageType → Page
set_page_type p pt = with_bytes p (write_at p.bytes 4 (page_type_byte pt ∷ []))

abbrev pub format_version : Page → ℕ
format_version p = p.bytes 5

abbrev pub lsn : Page → ℕ
lsn p = from_le_bytes (slice p.bytes 8 8)

abbrev pub set_lsn : Page → ℕ → Page
set_lsn p lsn = with_bytes p (write_at p.bytes 8 (to_le_bytes 8 lsn))

abbrev pub checksum : Page → ℕ
checksum p = from_le_bytes (slice p.bytes 16 4)

abbrev pub set_checksum : Page → ℕ → Page
set_checksum p checksum = with_bytes p (write_at p.bytes 16 (to_le_bytes 4 checksum))

-- `hash` is the checksum library's function
abbrev pub compute_checksum : (Bytes → ℕ) → Page → ℕ
compute_checksum hash p = hash (slice p.bytes 20 (page_size - 20))

-- `saturating_sub`
abbrev pub free_space : Page → ℕ
free_space p = free_end p - free_start p

abbrev pub item_count : Page → ℕ
item_count p = live_count p

abbrev pub slot_entry_offset : ℕ → ℕ
slot_entry_offset slot_id = page_header_size + slot_id * slot_entry_size

unfoldable pub read_slot : Page → ℕ → SlotEntry
unfolding decode
read_slot p slot_id = decode p.bytes (slot_entry_offset slot_id)

unfoldable pub write_slot : Page → ℕ → SlotEntry → Page
unfolding write_at
write_slot p slot_id entry =
    with_bytes p (write_at p.bytes (slot_entry_offset slot_id) (encode entry))
