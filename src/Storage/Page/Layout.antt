-- ===== src/Storage/Page/Layout.antt =====
-- A well-formed page: the directory after the header, the tuples of the live slots above the free
-- bytes, none overlapping another, and both counters right.
use byte_db.Common.{
  ltb, Bool-cases, ℕ, zero, suc, ◌+◌, ◌-◌, ◌≡◌, ◌≢◌, ◌≤◌, ◌<◌, ◌==◌, inl, inr, refl, ap,
  if◌then◌else◌, arith,
}
use byte_db.Storage.Memory.{
  Memory, get16-write_at, put16, put16-Apart, get16, write_at, Apart, write_at-Apart,
}
use byte_db.Storage.Slots.{
  SlotEntry, Page, page_size, slot_entry_offset, encode, decode, write_slot, slot_count, live_count,
  free_start, free_end, read_slot,
}

abbrev pub sum_to : ℕ → (ℕ → ℕ) → ℕ
sum_to zero f = 0
sum_to (suc n) f = sum_to n f + f n

pub sum_to-same : (n : ℕ) (f g : ℕ → ℕ) → ((j : ℕ) → j < n → f j ≡ g j) → sum_to n f ≡ sum_to n g
sum_to-same zero f g h = refl
sum_to-same (suc n) f g h =
    omega (arith, h n (omega arith), sum_to-same n f g (λ j m. h j (omega arith)))

pub sum_to-next : (n : ℕ) (f : ℕ → ℕ) → sum_to (n + 1) f ≡ sum_to n f + f n
sum_to-next n f = let next : n + 1 ≡ suc n = omega arith in rw next refl

pub summand_le : (n k : ℕ) (f : ℕ → ℕ) → k < n → f k ≤ sum_to n f
summand_le zero k f m = absurd (omega arith)
summand_le (suc n) k f m = elim (Bool-cases (k == n)) [
  | inl y ↦ let same : k ≡ n = ground (arith, y) in rw same (omega arith)
  | inr other ↦ omega (arith, summand_le n k f (ground (arith, other, m)))
]

-- one summand changes
pub sum_to-change :
    (n k : ℕ) (f g : ℕ → ℕ)
    → k < n
    → ((j : ℕ) → j < n → j ≢ k → g j ≡ f j)
    → sum_to n g + f k ≡ sum_to n f + g k
sum_to-change zero k f g m h = absurd (omega arith)
sum_to-change (suc n) k f g m h = elim (Bool-cases (n == k)) [
  | inl y ↦
      let same : n ≡ k = ground (arith, y) in
      let rest =
        sum_to-same n g f (λ j l. h j (omega arith) (λ e. absurd (omega (arith, e, l, same)))) in
      omega (arith, rest, ap f same, ap g same)
  | inr other ↦
      let less : k < n = ground (arith, other) in
      omega (
        arith,
        h n (omega arith) (λ e. absurd (omega (arith, e))),
        sum_to-change n k f g less (λ j l. h j (omega arith)),
      )
]

abbrev pub IsLive : SlotEntry → Type 0
IsLive e = e.flags ≡ 0

abbrev pub live_length : SlotEntry → ℕ
live_length e = if e.flags == 0 then e.length else 0

abbrev pub live_one : SlotEntry → ℕ
live_one e = if e.flags == 0 then 1 else 0

pub live_le : (n : ℕ) (slot : ℕ → SlotEntry) → sum_to n (λ j. live_one (slot j)) ≤ n
live_le zero slot = omega arith
live_le (suc n) slot = ground (arith, live_le n slot)

-- the numbers of the header and the entries of the directory
pub record IsLaidOut (count fstart fend live : ℕ) (slot : ℕ → SlotEntry) : Type 0 where
  pub start_at : fstart ≡ slot_entry_offset count
  pub room : fstart ≤ fend
  pub within : fend ≤ page_size
  pub flagged : (j : ℕ) → j < count → (slot j).flags ≤ 1
  pub inside :
      (j : ℕ)
      → j < count
      → IsLive (slot j)
      → (fend ≤ (slot j).offset) × ((slot j).offset + (slot j).length ≤ page_size)
  pub apart :
      (j k : ℕ)
      → j < count
      → k < count
      → j ≢ k
      → IsLive (slot j)
      → IsLive (slot k)
      → Apart (slot j).offset (slot j).length (slot k).offset (slot k).length
  pub live_fit : sum_to count (λ j. live_length (slot j)) + fend ≤ page_size
  pub counted : sum_to count (λ j. live_one (slot j)) ≡ live

abbrev pub IsWell : Page → Type 0
IsWell p = IsLaidOut (slot_count p) (free_start p) (free_end p) (live_count p) (read_slot p)

-- an entry depends on its five bytes
pub read_slot-same :
    (p q : Page) (j : ℕ)
    → ((i : ℕ) → slot_entry_offset j ≤ i → i < slot_entry_offset j + 5 → q.bytes i ≡ p.bytes i)
    → read_slot q j ≡ read_slot p j
unfolding read_slot
read_slot-same p q j h = ground (
  arith,
  h (slot_entry_offset j) (omega arith) (omega arith),
  h (slot_entry_offset j + 1) (omega arith) (omega arith),
  h (slot_entry_offset j + 2) (omega arith) (omega arith),
  h (slot_entry_offset j + 2 + 1) (omega arith) (omega arith),
  h (slot_entry_offset j + 4) (omega arith) (omega arith),
)

decode-encode :
    (d : Memory) (off : ℕ) (e : SlotEntry)
    → e.offset < 65536
    → e.length < 65536
    → decode (write_at d off (encode e)) off ≡ e
unfolding decode write_at
decode-encode d off e low short =
    let a : off - off ≡ 0 = omega arith in
    let b : off + 1 - off ≡ 1 = omega arith in
    let c : off + 2 - off ≡ 2 = omega arith in
    let f : off + 2 + 1 - off ≡ 3 = omega arith in
    let g : off + 4 - off ≡ 4 = omega arith in
    rw (a, decode, get16) (rw (b, get16) (rw (c, get16) (rw (f, get16) (rw g (ground arith)))))

pub read_slot-write_slot :
    (p : Page) (k : ℕ) (e : SlotEntry)
    → e.offset < 65536
    → e.length < 65536
    → read_slot (write_slot p k e) k ≡ e
unfolding read_slot write_slot
read_slot-write_slot p k e low short = decode-encode p.bytes (slot_entry_offset k) e low short

pub bytes-write_slot :
    (p : Page) (k : ℕ) (e : SlotEntry) (i : ℕ)
    → Apart (slot_entry_offset k) 5 i 1
    → (write_slot p k e).bytes i ≡ p.bytes i
unfolding write_slot
bytes-write_slot p k e i h = write_at-Apart p.bytes (slot_entry_offset k) (encode e) i h

slots-Apart : (j k : ℕ) → j ≢ k → Apart (slot_entry_offset k) 5 (slot_entry_offset j) 5
slots-Apart j k h = elim (Bool-cases (ltb j k)) [
  | inl y ↦ inr (ground (arith, y))
  | inr n ↦ inl (ground (arith, n, h))
]

pub read_slot-write_slot_other :
    (p : Page) (k : ℕ) (e : SlotEntry) (j : ℕ)
    → j ≢ k
    → read_slot (write_slot p k e) j ≡ read_slot p j
read_slot-write_slot_other p k e j h = read_slot-same p (write_slot p k e) j (λ i low high.
    bytes-write_slot p k e i
      (elim (slots-Apart j k h) [ inl a ↦ inl (omega arith) | inr b ↦ inr (omega arith) ]))

-- the header is before the directory
pub header-write_slot :
    (p : Page) (k : ℕ) (e : SlotEntry) (h : ℕ)
    → h ≤ 26
    → get16 (write_slot p k e).bytes h ≡ get16 p.bytes h
unfolding write_slot
header-write_slot p k e h low =
    get16-write_at p.bytes (slot_entry_offset k) (encode e) h (inr (omega arith))

pub read_slot-put16 :
    (p : Page) (off v j : ℕ)
    → off ≤ 26
    → read_slot (record p { bytes = put16 p.bytes off v }) j ≡ read_slot p j
read_slot-put16 p off v j low =
    read_slot-same p (record p { bytes = put16 p.bytes off v }) j
      (λ i above below. put16-Apart p.bytes off v i (inl (omega arith)))

pub sum_to_mono : (n m : ℕ) (f : ℕ → ℕ) → n ≤ m → sum_to n f ≤ sum_to m f
sum_to_mono n zero f h = let none_left : n ≡ 0 = omega (arith, h) in rw none_left (omega arith)
sum_to_mono n (suc m) f h = elim (Bool-cases (n == suc m)) [
  | inl y ↦ let same : n ≡ suc m = ground (arith, y) in rw same (omega arith)
  | inr other ↦ omega (arith, sum_to_mono n m f (ground (arith, h, other)))
]
