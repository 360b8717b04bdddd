-- ===== src/Storage/Page/Rewrite.antt =====
-- The tuple of a live slot is written anew, in its place or below the others.
use byte_db.Common.{
  ℕ, ◌+◌, ◌≡◌, ◌≢◌, ◌≤◌, ◌<◌, ◌==◌, ltb, inl, inr, sym, ap, ◌∙◌, some, Bool-cases, if◌then◌else◌,
  arith, Bytes, length,
}
use byte_db.Storage.Memory.{Apart, slice}
use byte_db.Storage.Page.{get_slot}
use byte_db.Storage.Slots.{
  SlotEntry, Page, page_size, slot_count, live_count, free_start, free_end, slot_entry_offset,
  read_slot,
}
use byte_db.Storage.Page.Layout.{IsWell, IsLive, live_one, live_length}
use byte_db.Storage.Page.Change.{change-IsLaidOut, replaced, Fits, AwayFrom, sum_replaced}
use byte_db.Storage.Page.View.{get_slot-held, get_slot-kept, get_slot-out, held}

-- the entry of the tuple `t` at `off`
abbrev pub rewritten : Bytes → ℕ → SlotEntry
rewritten t off = record { offset = off; length = length t; flags = 0 }

within_other :
    (t : Bytes) (off i : ℕ) (e : SlotEntry)
    → e.offset ≤ i
    → i < e.offset + e.length
    → AwayFrom (rewritten t off) e
    → Apart off (length t) i 1
within_other t off i e low high (inl a) = inl (omega (arith, low, a))
within_other t off i e low high (inr a) = inr (omega (arith, high, a))

module _ (p q : Page) (k : ℕ) (t : Bytes) (off fend : ℕ) where
  -- `q` is `p` with the tuple `t` of slot `k` at `off`
  pub record Rewrites : Type 0 where
    pub count : slot_count q ≡ slot_count p
    pub start : free_start q ≡ free_start p
    pub live : live_count q ≡ live_count p
    pub ended : free_end q ≡ fend
    pub entry : read_slot q k ≡ rewritten t off
    pub others : (j : ℕ) → j < slot_count p → j ≢ k → read_slot q j ≡ read_slot p j
    pub bytes :
        (i : ℕ)
        → slot_entry_offset (slot_count p) ≤ i
        → Apart off (length t) i 1
        → q.bytes i ≡ p.bytes i
    pub tuple : slice q.bytes off (length t) ≡ t

  -- there is room for it
  pub record HasRoom : Type 0 where
    pub slot_in : k < slot_count p
    pub alive : IsLive (read_slot p k)
    pub above_start : free_start p ≤ fend
    pub below_end : fend ≤ free_end p
    pub above_end : fend ≤ off
    pub in_page : off + length t ≤ page_size
    pub clear :
        (j : ℕ)
        → j < slot_count p
        → j ≢ k
        → IsLive (read_slot p j)
        → AwayFrom (rewritten t off) (read_slot p j)
    pub pays : length t + fend ≤ (read_slot p k).length + free_end p

  module _ (well : IsWell p) (w : Rewrites) (room : HasRoom) where
    pub rewrite-IsWell : IsWell q
    rewrite-IsWell =
        let m = room.slot_in in
        let lengths =
          sum_replaced live_length (slot_count p) (read_slot p) (read_slot q) k m w.others in
        let ones = sum_replaced live_one (slot_count p) (read_slot p) (read_slot q) k m w.others in
        let old_one : live_one (read_slot p k) ≡ 1 = ground (arith, room.alive) in
        let old_length : live_length (read_slot p k) ≡ (read_slot p k).length =
          ground (arith, room.alive) in
        let new_fits : Fits (slot_count p) fend (read_slot p) k (rewritten t off) = record {
          flag = omega arith;
          placed = λ a. (room.above_end, room.in_page);
          clear = λ a j l n aj. room.clear j l n aj;
        } in
        rw w.count (
          rw w.start (
            rw w.ended (
              rw w.live (
                change-IsLaidOut (slot_count p) (free_start p) (free_end p) (live_count p)
                  (read_slot p) well (free_start p) fend (live_count p) (read_slot q) k
                  (slot_count p) (replaced m) w.others (rw w.entry new_fits) well.start_at
                  room.above_start room.below_end
                  (omega
                    (arith, lengths, old_length, ap live_length w.entry, well.live_fit, room.pays))
                  (omega (arith, ones, old_one, ap live_one w.entry, well.counted))))))

    -- the slot holds the new tuple, the others what they held
    pub get_slot-rewrite : (j : ℕ) → get_slot q j ≡ (if j == k then some t else get_slot p j)
    get_slot-rewrite j = elim (Bool-cases (j == k)) [
      | inl y ↦
          let here : j ≡ k = ground (arith, y) in
          rw y (
            rw here (
              get_slot-held q k rewrite-IsWell (omega (arith, w.count, room.slot_in))
              ∙ ap (held q) w.entry
              ∙ ap some w.tuple))
      | inr n ↦ rw n (elim (Bool-cases (ltb j (slot_count p))) [
        | inl less ↦
            let l : j < slot_count p = ground (arith, less) in
            let other : j ≢ k = ground (arith, n) in
            get_slot-kept p q j well rewrite-IsWell l (omega (arith, w.count, l))
              (w.others j l other)
              (λ a i low high.
                w.bytes i (omega (arith, well.inside j l a, well.start_at, well.room))
                  (within_other t off i (read_slot p j) low high (room.clear j l other a)))
        | inr beyond ↦
            let l : slot_count p ≤ j = ground (arith, beyond) in
            get_slot-out q j (omega (arith, w.count, l)) ∙ sym (get_slot-out p j l)
      ])
    ]
