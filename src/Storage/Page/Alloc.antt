-- ===== src/Storage/Page/Alloc.antt =====
-- `alloc_slot` on a well-formed page.
use byte_db.Common.{
  some, ltb, Bool-cases, ℕ, ◌+◌, ◌-◌, ◌≡◌, ◌≤◌, ◌<◌, ◌==◌, inl, inr, refl, sym, ap, ◌∙◌, length,
  if◌then◌else◌, arith, Bytes,
}
use byte_db.Storage.Page.{get_slot, add_slot}
use byte_db.Storage.Slots.{
  free_space, SlotEntry, Page, slot_entry_offset, slot_count, live_count, free_start, free_end,
  read_slot, write_slot,
}
use byte_db.Storage.Page.Change.{change-IsLaidOut, added, Fits, sum_added}
use byte_db.Storage.Page.Layout.{
  live_le, live_one, live_length, live_one, live_length, live_le, IsWell, read_slot-same,
  read_slot-write_slot, bytes-write_slot,
}
use byte_db.Storage.Page.View.{get_slot-held, get_slot-kept, get_slot-out, held}
use byte_db.Storage.Memory.{
  Apart, get16, put16, put16-Apart, write_at, write_at-Apart, slice, slice-same, slice-write_at,
}

module _ (p : Page) (t : Bytes) (small : slot_count p < 65535)
    (fits : slot_entry_offset (slot_count p) + 5 + length t ≤ free_end p) where
  slot_count-add : slot_count (add_slot p t) ≡ slot_count p + 1
  unfolding add_slot get16
  slot_count-add = ground arith

  live_count-add : live_count p < 65535 → live_count (add_slot p t) ≡ live_count p + 1
  unfolding add_slot get16
  live_count-add h = ground arith

  free_start-add : free_start p < 65531 → free_start (add_slot p t) ≡ free_start p + 5
  unfolding add_slot get16
  free_start-add h = ground arith

  free_end-add : free_end p < 65536 → free_end (add_slot p t) ≡ free_end p - length t
  unfolding add_slot get16
  free_end-add h = ground arith

  abbrev entry : SlotEntry
  entry = record { offset = free_end p - length t; length = length t; flags = 0 }

  -- the tuple and the slot count are written
  abbrev counted : Page
  counted = record p {
    bytes = put16 (write_at p.bytes (free_end p - length t) t) 20 (slot_count p + 1);
  }

  -- after the entry, only the header is written
  bytes-add_entry :
      (i : ℕ) → 28 ≤ i → (add_slot p t).bytes i ≡ (write_slot counted (slot_count p) entry).bytes i
  unfolding add_slot
  bytes-add_entry i low =
      let slotted = (write_slot counted (slot_count p) entry).bytes in
      let started = put16 slotted 24 (get16 slotted 24 + 5) in
      let ended = put16 started 26 (free_end p - length t) in
      put16-Apart ended 22 (get16 ended 22 + 1) i (inl (omega arith))
      ∙ put16-Apart started 26 (free_end p - length t) i (inl (omega arith))
      ∙ put16-Apart slotted 24 (get16 slotted 24 + 5) i (inl (omega arith))

  bytes-add_tuple :
      (i : ℕ)
      → 28 ≤ i
      → Apart (slot_entry_offset (slot_count p)) 5 i 1
      → (add_slot p t).bytes i ≡ write_at p.bytes (free_end p - length t) t i
  bytes-add_tuple i low h =
      bytes-add_entry i low
      ∙ bytes-write_slot counted (slot_count p) entry i h
      ∙ put16-Apart (write_at p.bytes (free_end p - length t) t) 20 (slot_count p + 1) i
          (inl (omega arith))

  pub bytes-add :
      (i : ℕ)
      → 28 ≤ i
      → Apart (slot_entry_offset (slot_count p)) 5 i 1
      → Apart (free_end p - length t) (length t) i 1
      → (add_slot p t).bytes i ≡ p.bytes i
  bytes-add i low h a =
      bytes-add_tuple i low h ∙ write_at-Apart p.bytes (free_end p - length t) t i a

  read_slot-add_other : (j : ℕ) → j < slot_count p → read_slot (add_slot p t) j ≡ read_slot p j
  read_slot-add_other j m =
      read_slot-same p (add_slot p t) j
        (λ i low high. bytes-add i (omega arith) (inr (omega arith)) (inr (omega arith)))

  read_slot-add_new : free_end p < 65536 → read_slot (add_slot p t) (slot_count p) ≡ entry
  read_slot-add_new h =
      read_slot-same (write_slot counted (slot_count p) entry) (add_slot p t) (slot_count p)
        (λ i low high. bytes-add_entry i (omega arith))
      ∙ read_slot-write_slot counted (slot_count p) entry (omega arith) (omega arith)

  slice-add_new : slice (add_slot p t).bytes (free_end p - length t) (length t) ≡ t
  slice-add_new =
      slice-same (add_slot p t).bytes (write_at p.bytes (free_end p - length t) t)
        (free_end p - length t) (length t)
        (λ i low high. bytes-add_tuple i (omega arith) (inl (omega arith)))
      ∙ slice-write_at p.bytes (free_end p - length t) t

module _ (p : Page) (t : Bytes) (well : IsWell p) (room : length t + 5 ≤ free_space p) where
  bounded : (slot_count p < 65535) × (slot_entry_offset (slot_count p) + 5 + length t ≤ free_end p)
  bounded = (
    omega (arith, well.start_at, well.room, well.within),
    omega (arith, well.start_at, well.room, room),
  )

  pub add_slot-IsWell : IsWell (add_slot p t)
  add_slot-IsWell =
      let small = bounded.0 in
      let fits = bounded.1 in
      let ended : free_end p < 65536 = omega (arith, well.within) in
      let started : free_start p < 65531 = omega (arith, well.within, well.room) in
      let few : live_count p < 65535 =
        omega (arith, well.counted, live_le (slot_count p) (read_slot p), small) in
      let new_one = read_slot-add_new p t small fits ended in
      let others = read_slot-add_other p t small fits in
      let lengths =
        sum_added live_length (slot_count p) (read_slot p) (read_slot (add_slot p t)) others in
      let ones =
        sum_added live_one (slot_count p) (read_slot p) (read_slot (add_slot p t)) others in
      let new_fits : Fits (slot_count p) (free_end p - length t) (read_slot p) (slot_count p)
          (entry p t small fits) =
        record {
          flag = omega arith;
          placed = λ alive. (omega arith, omega (arith, well.within));
          clear = λ alive j l n aj. inl (omega (arith, well.inside j l aj));
        } in
      rw (slot_count-add p t small fits) (
        rw (free_start-add p t small fits started) (
          rw (free_end-add p t small fits ended) (
            rw (live_count-add p t small fits few) (
              change-IsLaidOut (slot_count p) (free_start p) (free_end p) (live_count p)
                (read_slot p) well (free_start p + 5) (free_end p - length t) (live_count p + 1)
                (read_slot (add_slot p t)) (slot_count p) (slot_count p + 1) (added refl)
                (λ j l n. others j (omega (arith, l, n))) (rw new_one new_fits)
                (omega (arith, well.start_at)) (omega (arith, well.start_at)) (omega arith)
                (omega (arith, lengths, ap live_length new_one, well.live_fit))
                (omega (arith, ones, ap live_one new_one, well.counted))))))

  -- the new slot holds the tuple, the others what they held
  pub get_slot-add :
      (j : ℕ) → get_slot (add_slot p t) j ≡ (if j == slot_count p then some t else get_slot p j)
  get_slot-add j =
      let small = bounded.0 in
      let fits = bounded.1 in
      let ended : free_end p < 65536 = omega (arith, well.within) in
      let grown = slot_count-add p t small fits in
      let after = add_slot-IsWell in
      elim (Bool-cases (j == slot_count p)) [
        | inl y ↦
            let here : j ≡ slot_count p = ground (arith, y) in
            rw y (
              rw here (
                get_slot-held (add_slot p t) (slot_count p) after (omega (arith, grown))
                ∙ ap (held (add_slot p t)) (read_slot-add_new p t small fits ended)
                ∙ ap some (slice-add_new p t small fits)))
        | inr n ↦ rw n (elim (Bool-cases (ltb j (slot_count p))) [
          | inl less ↦
              let m : j < slot_count p = ground (arith, less) in
              get_slot-kept p (add_slot p t) j well after m (omega (arith, grown, m))
                (read_slot-add_other p t small fits j m)
                (λ alive i low high.
                  let above = well.inside j m alive in
                  bytes-add p t small fits i (omega (arith, above, well.start_at, well.room))
                    (inl (omega (arith, above, fits))) (inl (omega (arith, above, fits))))
          | inr beyond ↦
              let m : slot_count p < j = ground (arith, n, beyond) in
              get_slot-out (add_slot p t) j (omega (arith, grown, m))
              ∙ sym (get_slot-out p j (omega (arith, m)))
        ])
      ]
