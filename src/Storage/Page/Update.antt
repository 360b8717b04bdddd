-- ===== src/Storage/Page/Update.antt =====
-- `update_slot` on a live slot: the two ways to write the new tuple.
use byte_db.Common.{ℕ, ◌-◌, ◌≡◌, ◌≤◌, ◌<◌, inl, inr, sym, ◌∙◌, arith, Bytes, length}
use byte_db.Storage.Memory.{
  slice-same, slice-write_at, write_at, write_at-Apart, get16, put16, get16-put16,
  get16-put16-Apart, get16-write_at, put16-Apart,
}
use byte_db.Storage.Slots.{
  SlotEntry, Page, slot_count, free_end, free_space, slot_entry_offset, read_slot, write_slot,
}
use byte_db.Storage.Page.Layout.{
  read_slot-put16, IsWell, IsLive, read_slot-same, read_slot-write_slot, read_slot-write_slot_other,
  bytes-write_slot, header-write_slot,
}
use byte_db.Storage.Page.Change.{AwayFrom}
use byte_db.Storage.Page.Rewrite.{Rewrites, HasRoom, rewritten}

module _ (p : Page) (k : ℕ) (t : Bytes) (well : IsWell p) (m : k < slot_count p)
    (alive : IsLive (read_slot p k)) where
  abbrev written : ℕ → Page
  written off = record p { bytes = write_at p.bytes off t }

  -- the tuple is not in the directory
  module _ (off : ℕ) (above : slot_entry_offset (slot_count p) ≤ off) where
    written-header : (h : ℕ) → h ≤ 26 → get16 (written off).bytes h ≡ get16 p.bytes h
    written-header h low = get16-write_at p.bytes off t h (inr (omega (arith, above, low)))

    written-slot : (j : ℕ) → j < slot_count p → read_slot (written off) j ≡ read_slot p j
    written-slot j l =
        read_slot-same p (written off) j
          (λ i low high. write_at-Apart p.bytes off t i (inr (omega (arith, above, l, high))))

  module _ (fits : length t ≤ (read_slot p k).length) where
    abbrev place_of : ℕ
    place_of = (read_slot p k).offset

    above_directory : slot_entry_offset (slot_count p) ≤ place_of
    above_directory = omega (arith, well.inside k m alive, well.start_at, well.room)

    abbrev pub in_place : Page
    in_place = write_slot (written place_of) k (rewritten t place_of)

    header-in_place : (h : ℕ) → h ≤ 26 → get16 in_place.bytes h ≡ get16 p.bytes h
    header-in_place h low =
        header-write_slot (written place_of) k (rewritten t place_of) h low
        ∙ written-header place_of above_directory h low

    pub in_place-Rewrites : Rewrites p in_place k t place_of (free_end p)
    in_place-Rewrites =
        let page = written place_of in
        let e = rewritten t place_of in
        let within = well.inside k m alive in
        record {
          count = header-in_place 20 (omega arith);
          start = header-in_place 24 (omega arith);
          live = header-in_place 22 (omega arith);
          ended = header-in_place 26 (omega arith);
          entry =
              read_slot-write_slot page k e (omega (arith, within)) (omega (arith, within, fits));
          others = λ j l n.
              read_slot-write_slot_other page k e j n ∙ written-slot place_of above_directory j l;
          bytes = λ i low a.
              bytes-write_slot page k e i (inl (omega (arith, low, m)))
              ∙ write_at-Apart p.bytes place_of t i a;
          tuple =
              slice-same in_place.bytes page.bytes place_of (length t) (λ i low high.
                bytes-write_slot page k e i (inl (omega (arith, low, m, above_directory))))
              ∙ slice-write_at p.bytes place_of t;
        }

    shorter : (e : SlotEntry) → AwayFrom (read_slot p k) e → AwayFrom (rewritten t place_of) e
    shorter e (inl a) = inl (omega (arith, a, fits))
    shorter e (inr a) = inr a

    pub in_place-HasRoom : HasRoom p in_place k t place_of (free_end p)
    in_place-HasRoom =
        let within = well.inside k m alive in
        record {
          slot_in = m;
          alive = alive;
          above_start = well.room;
          below_end = omega arith;
          above_end = within.0;
          in_page = omega (arith, within, fits);
          clear =
              λ j l n aj. shorter (read_slot p j) (well.apart k j m l (λ e. n (sym e)) alive aj);
          pays = omega (arith, fits);
        }

  module _ (fits : length t ≤ free_space p) where
    abbrev low_place : ℕ
    low_place = free_end p - length t

    low_above : slot_entry_offset (slot_count p) ≤ low_place
    low_above = omega (arith, well.start_at, well.room, fits)

    abbrev ended : Page
    ended = record p { bytes = put16 (write_at p.bytes low_place t) 26 low_place }

    abbrev pub moved : Page
    moved = write_slot ended k (rewritten t low_place)

    header-moved : (h : ℕ) → h ≤ 24 → get16 moved.bytes h ≡ get16 p.bytes h
    header-moved h low =
        header-write_slot ended k (rewritten t low_place) h (omega (arith, low))
        ∙ get16-put16-Apart (write_at p.bytes low_place t) 26 low_place h (inr (omega (arith, low)))
        ∙ written-header low_place low_above h (omega (arith, low))

    moved_bytes :
        (i : ℕ)
        → slot_entry_offset (slot_count p) ≤ i
        → moved.bytes i ≡ write_at p.bytes low_place t i
    moved_bytes i low =
        bytes-write_slot ended k (rewritten t low_place) i (inl (omega (arith, low, m)))
        ∙ put16-Apart (write_at p.bytes low_place t) 26 low_place i (inl (omega (arith, low)))

    pub moved-Rewrites : Rewrites p moved k t low_place low_place
    moved-Rewrites =
        let e = rewritten t low_place in
        record {
          count = header-moved 20 (omega arith);
          start = header-moved 24 (omega arith);
          live = header-moved 22 (omega arith);
          ended =
              header-write_slot ended k e 26 (omega arith)
              ∙ get16-put16 (write_at p.bytes low_place t) 26 low_place
                  (omega (arith, well.within));
          entry =
              read_slot-write_slot ended k e (omega (arith, well.within))
                (omega (arith, well.within, fits));
          others = λ j l n.
              read_slot-write_slot_other ended k e j n
              ∙ read_slot-put16 (written low_place) 26 low_place j (omega arith)
              ∙ written-slot low_place low_above j l;
          bytes = λ i low a. moved_bytes i low ∙ write_at-Apart p.bytes low_place t i a;
          tuple =
              slice-same moved.bytes (write_at p.bytes low_place t) low_place (length t)
                (λ i low high. moved_bytes i (omega (arith, low, low_above)))
              ∙ slice-write_at p.bytes low_place t;
        }

    pub moved-HasRoom : HasRoom p moved k t low_place low_place
    moved-HasRoom = record {
      slot_in = m;
      alive = alive;
      above_start = omega (arith, fits, well.room);
      below_end = omega arith;
      above_end = omega arith;
      in_page = omega (arith, fits, well.within);
      clear = λ j l n aj. inl (omega (arith, fits, well.inside j l aj));
      pays = omega (arith, fits);
    }
