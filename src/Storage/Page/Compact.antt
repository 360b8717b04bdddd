-- ===== src/Storage/Page/Compact.antt =====
-- `compact` on a well-formed page.
use mathlib.Core.Path.{subst}
use byte_db.Common.{
  ◌⊎◌, ℕ, ◌+◌, ◌≡◌, ◌≤◌, ◌<◌, ◌==◌, ltb, inl, inr, refl, sym, ap, ◌∙◌, some, Bool-cases,
  if◌then◌else◌, arith,
}
use byte_db.Storage.Memory.{
  get16-same, slice, zero_fill, get16, get16-put16, get16-put16-Apart, put16-Apart, slice-same,
}
use byte_db.Storage.Page.{get_slot, compact, place, live_from}
use byte_db.Storage.Slots.{
  Page, page_size, slot_count, live_count, free_start, free_end, set_free_end, set_free_start,
  slot_entry_offset, read_slot,
}
use byte_db.Storage.Page.Layout.{
  IsWell, IsLive, live_length, live_one, sum_to, sum_to-same, read_slot-same, read_slot-put16,
}
use byte_db.Storage.Page.Place.{Progress, place-Progress}
use byte_db.Storage.Page.View.{get_slot-held, get_slot-out, held}

-- the bytes of the live tuples
abbrev pub live_bytes : Page → ℕ
live_bytes p = sum_to (slot_count p) (λ j. live_length (read_slot p j))

module _ (p : Page) (well : IsWell p) where
  -- the page whose directory's end is written
  abbrev started : Page
  started = set_free_start p (slot_entry_offset (slot_count p))

  started_slot : (j : ℕ) → read_slot started j ≡ read_slot p j
  started_slot j = read_slot-put16 p 24 (slot_entry_offset (slot_count p)) j (omega arith)

  started_header : (h : ℕ) → (h + 2 ≤ 24) ⊎ (26 ≤ h) → get16 started.bytes h ≡ get16 p.bytes h
  started_header h (inl a) =
      get16-put16-Apart p.bytes 24 (slot_entry_offset (slot_count p)) h (inr a)
  started_header h (inr a) =
      get16-put16-Apart p.bytes 24 (slot_entry_offset (slot_count p)) h (inl a)

  started_bytes : (i : ℕ) → 26 ≤ i → started.bytes i ≡ p.bytes i
  started_bytes i low =
      put16-Apart p.bytes 24 (slot_entry_offset (slot_count p)) i (inl (omega (arith, low)))

  lengths-started : sum_to (slot_count p) (λ j. live_length (read_slot started j)) ≡ live_bytes p
  lengths-started =
      sum_to-same (slot_count p) (λ j. live_length (read_slot started j))
        (λ j. live_length (read_slot p j)) (λ j l. ap live_length (started_slot j))

  module _ (q : Page) (cursor : ℕ)
      (w : Progress started (slot_count p) (slot_count p) q cursor) where
    abbrev finished : Page
    finished = set_free_end q cursor

    room :
        (slot_entry_offset (slot_count p) ≤ cursor)
        × (cursor ≤ page_size)
        × (live_bytes p + cursor ≡ page_size)
    room = (
      omega (arith, w.used, lengths-started, well.live_fit, well.start_at, well.room),
      omega (arith, w.used),
      omega (arith, w.used, lengths-started),
    )

    finished_header : (h : ℕ) → h ≤ 24 → get16 finished.bytes h ≡ get16 started.bytes h
    finished_header h low =
        get16-put16-Apart q.bytes 26 cursor h (inr (omega (arith, low))) ∙ w.header h low

    finished_count : slot_count finished ≡ slot_count p
    finished_count = finished_header 20 (omega arith) ∙ started_header 20 (inl (omega arith))

    finished_start : free_start finished ≡ slot_entry_offset (slot_count p)
    finished_start =
        finished_header 24 (omega arith)
        ∙ get16-put16 p.bytes 24 (slot_entry_offset (slot_count p)) (omega (arith, room))

    finished_end : free_end finished ≡ cursor
    finished_end = get16-put16 q.bytes 26 cursor (omega (arith, room))

    finished_live : live_count finished ≡ live_count p
    finished_live = finished_header 22 (omega arith) ∙ started_header 22 (inl (omega arith))

    finished_slot : (j : ℕ) → read_slot finished j ≡ read_slot q j
    finished_slot j = read_slot-put16 q 26 cursor j (omega arith)

    finished_flags :
        (j : ℕ) → j < slot_count p → (read_slot finished j).flags ≡ (read_slot p j).flags
    finished_flags j l =
        ap (λ e. e.flags) (finished_slot j) ∙ w.flags j l ∙ ap (λ e. e.flags) (started_slot j)

    -- a live slot was live
    was-IsLive :
        (j : ℕ) → j < slot_count p → IsLive (read_slot finished j) → IsLive (read_slot started j)
    was-IsLive j l a = ap (λ e. e.flags) (started_slot j) ∙ sym (finished_flags j l) ∙ a

    finished_length :
        (j : ℕ)
        → j < slot_count p
        → live_length (read_slot finished j) ≡ live_length (read_slot p j)
    finished_length j l = elim (Bool-cases ((read_slot p j).flags == 0)) [
      | inl y ↦
          let alive : IsLive (read_slot p j) = ground (arith, y) in
          let alive' : IsLive (read_slot started j) = ap (λ e. e.flags) (started_slot j) ∙ alive in
          let size =
            ap (λ e. e.length) (finished_slot j)
            ∙ w.size j l alive'
            ∙ ap (λ e. e.length) (started_slot j) in
          rw (finished_flags j l) (rw y size)
      | inr n ↦ rw (finished_flags j l) (rw n refl)
    ]

    finished-IsWell : IsWell finished
    finished-IsWell =
        let lengths =
          sum_to-same (slot_count p) (λ j. live_length (read_slot finished j))
            (λ j. live_length (read_slot p j)) finished_length in
        let ones =
          sum_to-same (slot_count p) (λ j. live_one (read_slot finished j))
            (λ j. live_one (read_slot p j))
            (λ j l. ap (λ f. if f == 0 then 1 else 0) (finished_flags j l)) in
        rw finished_count (
          rw finished_start (
            rw finished_end (
              rw finished_live (record {
                start_at = refl;
                room = room.0;
                within = room.1;
                flagged = λ j l. rw (finished_flags j l) (well.flagged j l);
                inside = λ j l a.
                    rw (finished_slot j)
                      (w.above j l (was-IsLive j l a), w.within j l (was-IsLive j l a));
                apart = λ i j li lj n ai aj. rw (finished_slot i) (
                    rw (finished_slot j)
                      (w.apart i j li lj n (was-IsLive i li ai) (was-IsLive j lj aj)));
                live_fit = omega (arith, lengths, room.2);
                counted = ones ∙ well.counted;
              }))))

    finished_tuple :
        (j : ℕ)
        → j < slot_count p
        → IsLive (read_slot p j)
        → slice finished.bytes (read_slot finished j).offset (read_slot finished j).length
          ≡ slice p.bytes (read_slot p j).offset (read_slot p j).length
    finished_tuple j l alive =
        let alive' : IsLive (read_slot started j) = ap (λ e. e.flags) (started_slot j) ∙ alive in
        rw (finished_slot j) (
          slice-same finished.bytes q.bytes (read_slot q j).offset (read_slot q j).length
            (λ i low high.
              put16-Apart q.bytes 26 cursor i (inl (omega (arith, low, w.above j l alive', room))))
          ∙ w.tuple j l alive'
          ∙ rw (started_slot j) (
              slice-same started.bytes p.bytes (read_slot p j).offset (read_slot p j).length
                (λ i low high.
                  started_bytes i
                    (omega (arith, low, well.inside j l alive, well.start_at, well.room)))))

    held-finished :
        (j : ℕ) → j < slot_count p → held finished (read_slot finished j) ≡ held p (read_slot p j)
    held-finished j l = elim (Bool-cases ((read_slot p j).flags == 0)) [
      | inl y ↦ rw (finished_flags j l) (rw y (ap some (finished_tuple j l (ground (arith, y)))))
      | inr n ↦ rw (finished_flags j l) (rw n refl)
    ]

    get_slot-finished : (j : ℕ) → get_slot finished j ≡ get_slot p j
    get_slot-finished j = elim (Bool-cases (ltb j (slot_count p))) [
      | inl less ↦
          let l : j < slot_count p = ground (arith, less) in
          get_slot-held finished j finished-IsWell (omega (arith, finished_count, l))
          ∙ held-finished j l
          ∙ sym (get_slot-held p j well l)
      | inr beyond ↦
          let l : slot_count p ≤ j = ground (arith, beyond) in
          get_slot-out finished j (omega (arith, finished_count, l)) ∙ sym (get_slot-out p j l)
    ]

  -- before the loop
  start-Progress :
      (q : Page)
      → ((i : ℕ) → i < slot_entry_offset (slot_count p) → q.bytes i ≡ started.bytes i)
      → Progress started (slot_count p) 0 q page_size
  start-Progress q same = record {
    header = λ h low.
        get16-same q.bytes started.bytes h (same h (omega (arith, low)))
          (same (h + 1) (omega (arith, low)));
    flags = λ j l.
        ap (λ e. e.flags)
          (read_slot-same started q j (λ i low high. same i (omega (arith, high, l))));
    above = λ j l. absurd (omega (arith, l));
    within = λ j l. absurd (omega (arith, l));
    size = λ j l. absurd (omega (arith, l));
    tuple = λ j l. absurd (omega (arith, l));
    apart = λ i j li. absurd (omega (arith, li));
    used = refl;
  }

  abbrev cleared : Page
  cleared = record started {
    bytes = zero_fill started.bytes (slot_entry_offset (slot_count p)) page_size;
  }

  cleared_bytes : (i : ℕ) → i < slot_entry_offset (slot_count p) → cleared.bytes i ≡ started.bytes i
  unfolding zero_fill
  cleared_bytes i low = ground arith

  -- what all of `compact` amounts to
  pub record Compacts (r : Page) : Type 0 where
    pub well_formed : IsWell r
    pub same_slots : (j : ℕ) → get_slot r j ≡ get_slot p j
    pub same_count : slot_count r ≡ slot_count p
    pub same_flags : (j : ℕ) → j < slot_count p → (read_slot r j).flags ≡ (read_slot p j).flags
    pub no_gap : live_bytes p + free_end r ≡ page_size
    pub start_kept : free_start r ≡ free_start p

  finished-Compacts :
      (q : Page) (cursor : ℕ)
      → (w : Progress started (slot_count p) (slot_count p) q cursor)
      → Compacts (set_free_end q cursor)
  finished-Compacts q cursor w = record {
    well_formed = finished-IsWell q cursor w;
    same_slots = get_slot-finished q cursor w;
    same_count = finished_count q cursor w;
    same_flags = finished_flags q cursor w;
    no_gap = omega (arith, finished_end q cursor w, room q cursor w);
    start_kept = finished_start q cursor w ∙ sym well.start_at;
  }

  pub compact-Compacts : Compacts (compact p)
  unfolding compact
  compact-Compacts =
      let flagged : (j : ℕ) → j < slot_count p → (read_slot started j).flags ≤ 1 =
        λ j l. rw (started_slot j) (well.flagged j l) in
      let fit : sum_to (slot_count p) (λ j. live_length (read_slot started j))
            + slot_entry_offset (slot_count p)
          ≤ page_size =
        omega (arith, lengths-started, well.live_fit, well.start_at, well.room) in
      elim (Bool-cases (slot_count p == 0)) [
        | inl y ↦
            let empty : slot_count p ≡ 0 = ground (arith, y) in
            rw (y, compact)
              (finished-Compacts started page_size (
                subst (λ n. Progress started (slot_count p) n started page_size) (sym empty)
                  (start-Progress started (λ i low. refl))))
        | inr n ↦
            let r = place cleared page_size (live_from started 0 (slot_count p)) in
            rw (n, compact)
              (finished-Compacts r.0 r.1 (
                place-Progress started (slot_count p) flagged fit (slot_count p) 0 cleared page_size
                  (omega arith) (start-Progress cleared cleared_bytes)))
      ]
