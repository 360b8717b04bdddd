-- ===== src/Storage/Page/Place.antt =====
-- The loop of `compact` that puts the live tuples back, one after the other.
use mathlib.Core.Path.{subst}
use byte_db.Common.{
  ℕ, zero, suc, ◌+◌, ◌-◌, ◌≡◌, ◌≢◌, ◌≤◌, ◌<◌, ◌==◌, inl, inr, refl, sym, ap, ◌∙◌, Bool-cases, arith,
  Bytes, length,
}
use byte_db.Storage.Memory.{
  slice, slice-same, slice-write_at, slice-write_at-Apart, length-slice, write_at, write_at-Apart,
  get16, get16-write_at,
}
use byte_db.Storage.Page.{live_from, place}
use byte_db.Storage.Slots.{SlotEntry, Page, page_size, slot_entry_offset, read_slot, write_slot}
use byte_db.Storage.Page.Layout.{
  IsLive, live_length, sum_to, sum_to_mono, read_slot-same, read_slot-write_slot,
  read_slot-write_slot_other, bytes-write_slot, header-write_slot,
}
use byte_db.Storage.Page.Change.{AwayFrom, Apart-sym}
use byte_db.Storage.Page.View.{is_dead-flags}

-- one round
abbrev pub placed_one : Page → ℕ → ℕ → Bytes → Page
placed_one q id start t =
    let page : Page = record q { bytes = write_at q.bytes start t } in
    write_slot page id (record (read_slot page id) { offset = start; length = length t })

apart_swap : (e f : SlotEntry) → AwayFrom e f → AwayFrom f e
apart_swap e f h = Apart-sym e.offset e.length f.offset f.length h

-- `b` is the page before, with `count` slots
module _ (b : Page) (count : ℕ) where
  abbrev tuple_of : ℕ → Bytes
  tuple_of j = slice b.bytes (read_slot b j).offset (read_slot b j).length

  abbrev lengths : ℕ → ℕ
  lengths n = sum_to n (λ j. live_length (read_slot b j))

  -- slots below `id` are done, down to `cursor`
  pub record Progress (id : ℕ) (q : Page) (cursor : ℕ) : Type 0 where
    pub header : (h : ℕ) → h ≤ 24 → get16 q.bytes h ≡ get16 b.bytes h
    pub flags : (j : ℕ) → j < count → (read_slot q j).flags ≡ (read_slot b j).flags
    pub above : (j : ℕ) → j < id → IsLive (read_slot b j) → cursor ≤ (read_slot q j).offset
    pub within :
        (j : ℕ)
        → j < id
        → IsLive (read_slot b j)
        → (read_slot q j).offset + (read_slot q j).length ≤ page_size
    pub size :
        (j : ℕ) → j < id → IsLive (read_slot b j) → (read_slot q j).length ≡ (read_slot b j).length
    pub tuple :
        (j : ℕ)
        → j < id
        → IsLive (read_slot b j)
        → slice q.bytes (read_slot q j).offset (read_slot q j).length ≡ tuple_of j
    pub apart :
        (i j : ℕ)
        → i < id
        → j < id
        → i ≢ j
        → IsLive (read_slot b i)
        → IsLive (read_slot b j)
        → AwayFrom (read_slot q i) (read_slot q j)
    pub used : lengths id + cursor ≡ page_size

  module _ (flagged : (j : ℕ) → j < count → (read_slot b j).flags ≤ 1)
      (fit : lengths count + slot_entry_offset count ≤ page_size) where
    skip-Progress :
        (id : ℕ) (q : Page) (cursor : ℕ)
        → (read_slot b id).flags ≡ 1
        → Progress id q cursor
        → Progress (suc id) q cursor
    skip-Progress id q cursor dead w =
        let alive = λ (j : ℕ) (l : j < suc id) (a : IsLive (read_slot b j)). before j l a in
        record {
          header = w.header;
          flags = w.flags;
          above = λ j l a. w.above j (alive j l a) a;
          within = λ j l a. w.within j (alive j l a) a;
          size = λ j l a. w.size j (alive j l a) a;
          tuple = λ j l a. w.tuple j (alive j l a) a;
          apart = λ i j li lj n ai aj. w.apart i j (alive i li ai) (alive j lj aj) n ai aj;
          used = ground (arith, w.used, dead);
        }
      where
        before : (j : ℕ) → j < suc id → IsLive (read_slot b j) → j < id
        before j l a = elim (Bool-cases (j == id)) [
          | inl y ↦
              let same : j ≡ id = ground (arith, y) in
              absurd (omega (arith, a, dead, ap (λ i. (read_slot b i).flags) same))
          | inr n ↦ ground (arith, l, n)
        ]

    module _ (id : ℕ) (q : Page) (cursor : ℕ) (m : id < count) (alive : IsLive (read_slot b id))
        (w : Progress id q cursor) where
      abbrev size_of : ℕ
      size_of = (read_slot b id).length

      abbrev start_of : ℕ
      start_of = cursor - size_of

      length-tuple_of : length (tuple_of id) ≡ size_of
      length-tuple_of = length-slice b.bytes (read_slot b id).offset size_of

      lengths_next : lengths (suc id) ≡ lengths id + size_of
      lengths_next = ground (arith, alive)

      enough : slot_entry_offset count + size_of ≤ cursor
      enough = omega (
        arith,
        lengths_next,
        w.used,
        fit,
        sum_to_mono (suc id) count (λ j. live_length (read_slot b j)) (omega arith),
      )

      abbrev page : Page
      page = record q { bytes = write_at q.bytes start_of (tuple_of id) }

      page_slot : (j : ℕ) → j < count → read_slot page j ≡ read_slot q j
      page_slot j l = read_slot-same q page j (λ i low high.
          write_at-Apart q.bytes start_of (tuple_of id) i (inr (omega (arith, enough, l, high))))

      abbrev new_entry : SlotEntry
      new_entry = record (read_slot page id) { offset = start_of; length = length (tuple_of id) }

      abbrev pub next_page : Page
      next_page = placed_one q id start_of (tuple_of id)

      next_entry : read_slot next_page id ≡ new_entry
      next_entry =
          read_slot-write_slot page id new_entry (omega (arith, w.used))
            (omega (arith, w.used, enough, length-tuple_of))

      next_other : (j : ℕ) → j < count → j ≢ id → read_slot next_page j ≡ read_slot q j
      next_other j l n = read_slot-write_slot_other page id new_entry j n ∙ page_slot j l

      next_bytes :
          (i : ℕ)
          → slot_entry_offset count ≤ i
          → next_page.bytes i ≡ write_at q.bytes start_of (tuple_of id) i
      next_bytes i low = bytes-write_slot page id new_entry i (inl (omega (arith, low, m)))

      next_header : (h : ℕ) → h ≤ 24 → get16 next_page.bytes h ≡ get16 b.bytes h
      next_header h low =
          header-write_slot page id new_entry h (omega (arith, low))
          ∙ get16-write_at q.bytes start_of (tuple_of id) h (inr (omega (arith, enough, low)))
          ∙ w.header h low

      next_flags : (j : ℕ) → j < count → (read_slot next_page j).flags ≡ (read_slot b j).flags
      next_flags j l = elim (Bool-cases (j == id)) [
        | inl y ↦
            let same : j ≡ id = ground (arith, y) in
            rw same
              (ap (λ e. e.flags) next_entry ∙ ap (λ e. e.flags) (page_slot id m) ∙ w.flags id m)
        | inr n ↦ ap (λ e. e.flags) (next_other j l (ground (arith, n))) ∙ w.flags j l
      ]

      next_tuple :
          slice next_page.bytes (read_slot next_page id).offset (read_slot next_page id).length
          ≡ tuple_of id
      next_tuple = rw next_entry (
          slice-same next_page.bytes (write_at q.bytes start_of (tuple_of id)) start_of
            (length (tuple_of id)) (λ i low high. next_bytes i (omega (arith, low, enough)))
          ∙ slice-write_at q.bytes start_of (tuple_of id))

      -- a tuple that is done stays
      old_tuple :
          (j : ℕ)
          → j < id
          → IsLive (read_slot b j)
          → slice next_page.bytes (read_slot q j).offset (read_slot q j).length ≡ tuple_of j
      old_tuple j l a =
          let high = w.above j l a in
          slice-same next_page.bytes (write_at q.bytes start_of (tuple_of id))
            (read_slot q j).offset (read_slot q j).length
            (λ i low up. next_bytes i (omega (arith, low, high, enough)))
          ∙ slice-write_at-Apart q.bytes start_of (tuple_of id) (read_slot q j).offset
              (read_slot q j).length (inl (omega (arith, high, enough, length-tuple_of)))
          ∙ w.tuple j l a

      -- slot `id` is new, those below are old
      by_slot :
          (P : ℕ → Type 0) → P id → ((j : ℕ) → j < id → j ≢ id → P j) → (j : ℕ) → j < suc id → P j
      by_slot P new old j l = elim (Bool-cases (j == id)) [
        | inl y ↦ let same : j ≡ id = ground (arith, y) in subst P (sym same) new
        | inr n ↦ old j (ground (arith, l, n)) (ground (arith, n))
      ]

      new_below :
          (j : ℕ)
          → j < id
          → j ≢ id
          → IsLive (read_slot b j)
          → AwayFrom (read_slot next_page id) (read_slot next_page j)
      new_below j l n a = rw next_entry (
          rw (next_other j (omega (arith, l, m)) n)
            (inl (omega (arith, w.above j l a, length-tuple_of, enough))))

      old_apart :
          (i j : ℕ)
          → i < id
          → j < id
          → i ≢ j
          → IsLive (read_slot b i)
          → IsLive (read_slot b j)
          → AwayFrom (read_slot next_page i) (read_slot next_page j)
      old_apart i j li lj n ai aj =
          rw (next_other i (omega (arith, li, m)) (λ e. absurd (omega (arith, e, li)))) (
            rw (next_other j (omega (arith, lj, m)) (λ e. absurd (omega (arith, e, lj))))
              (w.apart i j li lj n ai aj))

      next_apart :
          (i j : ℕ)
          → i < suc id
          → j < suc id
          → i ≢ j
          → IsLive (read_slot b i)
          → IsLive (read_slot b j)
          → AwayFrom (read_slot next_page i) (read_slot next_page j)
      next_apart i j li lj =
          by_slot
            (λ i.
              i ≢ j
              → IsLive (read_slot b i)
              → IsLive (read_slot b j)
              → AwayFrom (read_slot next_page i) (read_slot next_page j))
            (by_slot
              (λ j.
                id ≢ j
                → IsLive (read_slot b id)
                → IsLive (read_slot b j)
                → AwayFrom (read_slot next_page id) (read_slot next_page j))
              (λ n ai aj. absurd (n refl)) (λ j l other n ai aj. new_below j l other aj) j lj)
            (λ i l other.
              by_slot
                (λ j.
                  i ≢ j
                  → IsLive (read_slot b i)
                  → IsLive (read_slot b j)
                  → AwayFrom (read_slot next_page i) (read_slot next_page j))
                (λ n ai aj.
                  apart_swap (read_slot next_page id) (read_slot next_page i)
                    (new_below i l other ai))
                (λ j k other' n ai aj. old_apart i j l k n ai aj) j lj)
            i li

      live-Progress : Progress (suc id) next_page start_of
      live-Progress = record {
        header = next_header;
        flags = next_flags;
        above =
            by_slot (λ j. IsLive (read_slot b j) → start_of ≤ (read_slot next_page j).offset)
              (λ a. rw next_entry (omega arith))
              (λ j l n a. rw (next_other j (omega (arith, l, m)) n) (omega (arith, w.above j l a)));
        within =
            by_slot
              (λ j.
                IsLive (read_slot b j)
                → (read_slot next_page j).offset + (read_slot next_page j).length ≤ page_size)
              (λ a. rw next_entry (omega (arith, length-tuple_of, enough, w.used)))
              (λ j l n a. rw (next_other j (omega (arith, l, m)) n) (w.within j l a));
        size =
            by_slot
              (λ j.
                IsLive (read_slot b j) → (read_slot next_page j).length ≡ (read_slot b j).length)
              (λ a. rw next_entry length-tuple_of)
              (λ j l n a. rw (next_other j (omega (arith, l, m)) n) (w.size j l a));
        tuple =
            by_slot
              (λ j.
                IsLive (read_slot b j)
                → slice next_page.bytes (read_slot next_page j).offset
                    (read_slot next_page j).length
                  ≡ tuple_of j)
              (λ a. next_tuple)
              (λ j l n a. rw (next_other j (omega (arith, l, m)) n) (old_tuple j l a));
        apart = next_apart;
        used = omega (arith, w.used, lengths_next, enough);
      }

    -- all slots from `id` on
    pub place-Progress :
        (n id : ℕ) (q : Page) (cursor : ℕ)
        → id + n ≡ count
        → Progress id q cursor
        → let r = place q cursor (live_from b id n) in Progress count r.0 r.1
    unfolding place live_from
    place-Progress zero id q cursor e w =
        let all : id ≡ count = omega (arith, e) in subst (λ i. Progress i q cursor) all w
    place-Progress (suc n) id q cursor e w =
        let m : id < count = omega (arith, e) in
        let dead = is_dead-flags (read_slot b id) (flagged id m) in
        elim (Bool-cases ((read_slot b id).flags == 0)) [
          | inl y ↦
              let alive : IsLive (read_slot b id) = ground (arith, y) in
              let shorter : cursor - length (tuple_of id) ≡ start_of id q cursor m alive w =
                ap (λ l. cursor - l) (length-tuple_of id q cursor m alive w) in
              rw dead (
                rw y (
                  rw shorter (
                    place-Progress n (suc id) (next_page id q cursor m alive w)
                      (start_of id q cursor m alive w) (omega (arith, e))
                      (live-Progress id q cursor m alive w))))
          | inr other ↦
              let one : (read_slot b id).flags ≡ 1 = ground (arith, other, flagged id m) in
              rw dead (
                rw other (
                  place-Progress n (suc id) q cursor (omega (arith, e))
                    (skip-Progress id q cursor one w)))
        ]
