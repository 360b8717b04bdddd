-- ===== src/Storage/Page/View.antt =====
-- What `get_slot` gives on a well-formed page.
use byte_db.Common.{
  ℕ, ◌+◌, ◌≡◌, ◌≤◌, ◌<◌, ◌==◌, not, leb, ltb, refl, sym, ap, ◌∙◌, true, false, Option, none, some,
  if◌then◌else◌, arith, Bytes, inl, inr, Bool-cases,
}
use byte_db.Common.Bits.{bit_and-one}
use byte_db.Storage.Memory.{slice, slice-same}
use byte_db.Storage.Page.{get_slot}
use byte_db.Storage.Slots.{SlotEntry, Page, slot_count, read_slot, is_dead}
use byte_db.Storage.Page.Layout.{IsWell, IsLive}

pub is_dead-flags : (e : SlotEntry) → e.flags ≤ 1 → is_dead e ≡ not (e.flags == 0)
is_dead-flags e h = ground (arith, bit_and-one e.flags)

pub get_slot-out : (p : Page) (j : ℕ) → slot_count p ≤ j → get_slot p j ≡ none
unfolding get_slot
get_slot-out p j h = let out : leb (slot_count p) j ≡ true = ground arith in rw (out, get_slot) refl

-- the tuple of an entry, if it is live
abbrev pub held : Page → SlotEntry → Option Bytes
held p e = if e.flags == 0 then some (slice p.bytes e.offset e.length) else none

pub get_slot-held :
    (p : Page) (j : ℕ) → IsWell p → j < slot_count p → get_slot p j ≡ held p (read_slot p j)
unfolding get_slot
get_slot-held p j well m =
    let within : leb (slot_count p) j ≡ false = ground arith in
    let e = read_slot p j in
    let dead = is_dead-flags e (well.flagged j m) in
    rw (within, get_slot)
      (rw (dead, get_slot)
        (elim (Bool-cases (e.flags == 0)) [
          | inl y ↦
              let alive : e.flags ≡ 0 = ground (arith, y) in
              let fits : ltb 8192 (e.offset + e.length) ≡ false =
                ground (arith, well.inside j m alive) in
              rw y (rw fits refl)
          | inr n ↦ rw n refl
        ]))

-- a slot's bytes are kept
abbrev pub SameBytes : Page → Page → SlotEntry → Type 0
SameBytes p q e =
    IsLive e → (i : ℕ) → e.offset ≤ i → i < e.offset + e.length → q.bytes i ≡ p.bytes i

held_same : (p q : Page) (e : SlotEntry) → SameBytes p q e → held q e ≡ held p e
held_same p q e bytes = elim (Bool-cases (e.flags == 0)) [
  | inl y ↦
      let alive : e.flags ≡ 0 = ground (arith, y) in
      rw y (ap some (slice-same q.bytes p.bytes e.offset e.length (bytes alive)))
  | inr n ↦ rw n refl
]

-- a slot whose entry and bytes are kept
pub get_slot-kept :
    (p q : Page) (j : ℕ)
    → IsWell p
    → IsWell q
    → j < slot_count p
    → j < slot_count q
    → read_slot q j ≡ read_slot p j
    → SameBytes p q (read_slot p j)
    → get_slot q j ≡ get_slot p j
get_slot-kept p q j wp wq mp mq same bytes =
    let e = read_slot p j in
    get_slot-held q j wq mq
    ∙ ap (held q) same
    ∙ held_same p q e bytes
    ∙ sym (get_slot-held p j wp mp)
