-- ===== src/Storage/Page/Delete.antt =====
-- `delete_slot` on a well-formed page.
use Prim.Native.Nat.{bit_or}
use byte_db.Common.{
  ◌⊎◌, ℕ, ◌+◌, ◌-◌, ◌≡◌, ◌≢◌, ◌≤◌, ◌<◌, ◌==◌, ltb, leb, inl, inr, refl, sym, ap, ◌∙◌, true, false,
  none, Bool-cases, if◌then◌else◌, arith,
}
use byte_db.Error.{ok}
use byte_db.Storage.Memory.{get16, get16-put16, get16-put16-Apart, put16-Apart}
use byte_db.Storage.Page.{get_slot, delete_slot}
use byte_db.Storage.Slots.{
  SlotEntry, Page, slot_count, live_count, free_start, free_end, set_live_count, slot_entry_offset,
  read_slot, write_slot, is_dead,
}
use byte_db.Storage.Page.Layout.{
  summand_le, IsWell, IsLive, live_one, live_length, live_le, read_slot-write_slot,
  read_slot-write_slot_other, read_slot-put16, bytes-write_slot, header-write_slot,
}
use byte_db.Storage.Page.Change.{change-IsLaidOut, replaced, Fits, sum_replaced}
use byte_db.Storage.Page.View.{get_slot-held, get_slot-kept, get_slot-out, held, is_dead-flags}

module _ (p : Page) (k : ℕ) (well : IsWell p) (m : k < slot_count p)
    (alive : IsLive (read_slot p k)) where
  abbrev tombstone : SlotEntry
  tombstone = record (read_slot p k) { flags = 1 }

  abbrev marked : Page
  marked = write_slot p k tombstone

  abbrev pub deleted : Page
  deleted = set_live_count marked (live_count p - 1)

  header-deleted :
      (h : ℕ) → h ≤ 26 → (h + 2 ≤ 22) ⊎ (24 ≤ h) → get16 deleted.bytes h ≡ get16 p.bytes h
  header-deleted h low (inl a) =
      get16-put16-Apart marked.bytes 22 (live_count p - 1) h (inr a)
      ∙ header-write_slot p k tombstone h low
  header-deleted h low (inr a) =
      get16-put16-Apart marked.bytes 22 (live_count p - 1) h (inl a)
      ∙ header-write_slot p k tombstone h low

  live_count-deleted : live_count deleted ≡ live_count p - 1
  live_count-deleted = get16-put16 marked.bytes 22 (live_count p - 1) (
      omega (
        arith,
        well.counted,
        live_le (slot_count p) (read_slot p),
        well.start_at,
        well.room,
        well.within,
      ))

  bytes-deleted : (i : ℕ) → slot_entry_offset (slot_count p) ≤ i → deleted.bytes i ≡ p.bytes i
  bytes-deleted i low =
      put16-Apart marked.bytes 22 (live_count p - 1) i (inl (omega arith))
      ∙ bytes-write_slot p k tombstone i (inl (omega arith))

  slot-deleted : read_slot deleted k ≡ tombstone
  slot-deleted =
      let within = well.inside k m alive in
      read_slot-put16 marked 22 (live_count p - 1) k (omega arith)
      ∙ read_slot-write_slot p k tombstone (omega (arith, within)) (omega (arith, within))

  others-deleted : (j : ℕ) → j < slot_count p → j ≢ k → read_slot deleted j ≡ read_slot p j
  others-deleted j l n =
      read_slot-put16 marked 22 (live_count p - 1) j (omega arith)
      ∙ read_slot-write_slot_other p k tombstone j n

  pub deleted-IsWell : IsWell deleted
  deleted-IsWell =
      let lengths =
        sum_replaced live_length (slot_count p) (read_slot p) (read_slot deleted) k m
          others-deleted in
      let ones =
        sum_replaced live_one (slot_count p) (read_slot p) (read_slot deleted) k m others-deleted in
      let one : live_one (read_slot p k) ≡ 1 = ground (arith, alive) in
      let dead_fits : Fits (slot_count p) (free_end p) (read_slot p) k tombstone = record {
        flag = omega arith;
        placed = λ a. absurd (omega (arith, a));
        clear = λ a j l n aj. absurd (omega (arith, a));
      } in
      rw (header-deleted 20 (omega arith) (inl (omega arith))) (
        rw (header-deleted 24 (omega arith) (inr (omega arith))) (
          rw (header-deleted 26 (omega arith) (inr (omega arith))) (
            rw live_count-deleted (
              change-IsLaidOut (slot_count p) (free_start p) (free_end p) (live_count p)
                (read_slot p) well (free_start p) (free_end p) (live_count p - 1)
                (read_slot deleted) k (slot_count p) (replaced m) others-deleted
                (rw slot-deleted dead_fits) well.start_at well.room (omega arith)
                (omega (arith, lengths, ap live_length slot-deleted, well.live_fit))
                (omega (arith, ones, one, ap live_one slot-deleted, well.counted))))))

  -- the slot is empty, the others hold what they held
  pub get_slot-deleted : (j : ℕ) → get_slot deleted j ≡ (if j == k then none else get_slot p j)
  get_slot-deleted j =
      let same = header-deleted 20 (omega arith) (inl (omega arith)) in
      let after = deleted-IsWell in
      elim (Bool-cases (j == k)) [
        | inl y ↦
            let here : j ≡ k = ground (arith, y) in
            rw y (
              rw here (
                get_slot-held deleted k after (omega (arith, same, m))
                ∙ ap (held deleted) slot-deleted))
        | inr n ↦ rw n (elim (Bool-cases (ltb j (slot_count p))) [
          | inl less ↦
              let l : j < slot_count p = ground (arith, less) in
              get_slot-kept p deleted j well after l (omega (arith, same, l))
                (others-deleted j l (ground (arith, n)))
                (λ a i low high.
                  bytes-deleted i (omega (arith, well.inside j l a, well.start_at, well.room)))
          | inr beyond ↦
              let l : slot_count p ≤ j = ground (arith, beyond) in
              get_slot-out deleted j (omega (arith, same, l)) ∙ sym (get_slot-out p j l)
        ])
      ]

  -- what `delete_slot` does to a live slot
  pub delete_slot-live : delete_slot p k ≡ (deleted, ok tt)
  unfolding delete_slot
  delete_slot-live =
      let within : leb (slot_count p) k ≡ false = ground arith in
      let live : is_dead (read_slot p k) ≡ false =
        is_dead-flags (read_slot p k) (well.flagged k m) ∙ rw alive refl in
      let flag : bit_or (read_slot p k).flags 1 ≡ 1 = rw alive refl in
      let count = header-write_slot p k tombstone 22 (omega arith) in
      let some_live : ltb 0 (live_count p) ≡ true =
        ground
          (arith, well.counted, summand_le (slot_count p) k (λ j. live_one (read_slot p j)) m) in
      rw (within, delete_slot)
        (rw (live, delete_slot)
          (rw (flag, delete_slot) (rw (count, delete_slot) (rw some_live refl))))
