-- ===== src/Storage/Page/Change.antt =====
-- One entry of a well-formed page changes: what makes the new page well formed.
use byte_db.Common.{ℕ, ◌+◌, ◌≡◌, ◌≢◌, ◌≤◌, ◌<◌, ◌==◌, inl, inr, sym, ap, ◌∙◌, Bool-cases, arith}
use byte_db.Storage.Memory.{Apart}
use byte_db.Storage.Slots.{SlotEntry, page_size, slot_entry_offset}
use byte_db.Storage.Page.Layout.{
  IsLaidOut, IsLive, live_length, live_one, sum_to, sum_to-next, sum_to-change, sum_to-same,
}

pub Apart-sym : (a n b m : ℕ) → Apart a n b m → Apart b m a n
Apart-sym a n b m (inl h) = inr h
Apart-sym a n b m (inr h) = inl h

abbrev pub AwayFrom : SlotEntry → SlotEntry → Type 0
AwayFrom e f = Apart e.offset e.length f.offset f.length

-- the new entry `k`, against the old page
pub record Fits (count fend : ℕ) (slot : ℕ → SlotEntry) (k : ℕ) (e : SlotEntry) : Type 0 where
  pub flag : e.flags ≤ 1
  pub placed : IsLive e → (fend ≤ e.offset) × (e.offset + e.length ≤ page_size)
  pub clear : IsLive e → (j : ℕ) → j < count → j ≢ k → IsLive (slot j) → AwayFrom e (slot j)

module _ (count fstart fend live : ℕ) (slot : ℕ → SlotEntry)
    (well : IsLaidOut count fstart fend live slot) (fstart' fend' live' : ℕ) (slot' : ℕ → SlotEntry)
    (k : ℕ) where
  -- entry `k` is replaced, or added at the end
  pub data Kept : ℕ → Type 0 where
    replaced : k < count → Kept count
    added : k ≡ count → Kept (count + 1)

  Kept-in : (count' : ℕ) → Kept count' → (j : ℕ) → j < count' → j ≢ k → j < count
  Kept-in _ (replaced m) j l n = l
  Kept-in _ (added e) j l n = ground (arith, e, l, n)

  from_new :
      (count' : ℕ)
      → Kept count'
      → ((j : ℕ) → j < count' → j ≢ k → slot' j ≡ slot j)
      → Fits count fend' slot k (slot' k)
      → (i j : ℕ) → i ≡ k
      → j < count'
      → j ≢ k
      → IsLive (slot' i)
      → IsLive (slot' j)
      → AwayFrom (slot' i) (slot' j)
  from_new count' kept same fits i j ik lj jk ai aj = rw ik (
      rw (same j lj jk)
        (fits.clear (rw ik at ai) j (Kept-in count' kept j lj jk) jk (rw (same j lj jk) at aj)))

  changed_apart :
      (count' : ℕ)
      → Kept count'
      → ((j : ℕ) → j < count' → j ≢ k → slot' j ≡ slot j)
      → Fits count fend' slot k (slot' k)
      → (i j : ℕ) → i < count'
      → j < count'
      → i ≢ j
      → IsLive (slot' i)
      → IsLive (slot' j)
      → AwayFrom (slot' i) (slot' j)
  changed_apart count' kept same fits i j li lj ne ai aj = elim (Bool-cases (i == k)) [
    | inl y ↦
        let ik : i ≡ k = ground (arith, y) in
        from_new count' kept same fits i j ik lj (λ e. ne (ik ∙ sym e)) ai aj
    | inr n ↦
        let i_old : i ≢ k = ground (arith, n) in
        elim (Bool-cases (j == k)) [
          | inl y ↦
              let jk : j ≡ k = ground (arith, y) in
              Apart-sym (slot' j).offset (slot' j).length (slot' i).offset (slot' i).length
                (from_new count' kept same fits j i jk li i_old aj ai)
          | inr m ↦
              let j_old : j ≢ k = ground (arith, m) in
              let same_i = same i li i_old in
              let same_j = same j lj j_old in
              rw same_i (
                rw same_j (
                  well.apart i j (Kept-in count' kept i li i_old) (Kept-in count' kept j lj j_old)
                    ne (rw same_i at ai) (rw same_j at aj)))
        ]
  ]

  pub change-IsLaidOut :
      (count' : ℕ)
      → Kept count'
      → ((j : ℕ) → j < count' → j ≢ k → slot' j ≡ slot j)
      → Fits count fend' slot k (slot' k)
      → fstart' ≡ slot_entry_offset count'
      → fstart' ≤ fend'
      → fend' ≤ fend
      → sum_to count' (λ j. live_length (slot' j)) + fend' ≤ page_size
      → sum_to count' (λ j. live_one (slot' j)) ≡ live'
      → IsLaidOut count' fstart' fend' live' slot'
  change-IsLaidOut count' kept same fits at room lower sum ones =
      let within = Kept-in count' kept in
      record {
        start_at = at;
        room = room;
        within = omega (arith, well.within, lower);
        flagged = λ j l. elim (Bool-cases (j == k)) [
          | inl y ↦ let jk : j ≡ k = ground (arith, y) in rw jk fits.flag
          | inr n ↦
              let other : j ≢ k = ground (arith, n) in
              rw (same j l other) (well.flagged j (within j l other))
        ];
        inside = λ j l alive. elim (Bool-cases (j == k)) [
          | inl y ↦ let jk : j ≡ k = ground (arith, y) in rw jk (fits.placed (rw jk at alive))
          | inr n ↦
              let other : j ≢ k = ground (arith, n) in
              let in_old = well.inside j (within j l other) (rw (same j l other) at alive) in
              rw (same j l other) (omega (arith, in_old.0, lower), in_old.1)
        ];
        apart = λ i j li lj ne ai aj. changed_apart count' kept same fits i j li lj ne ai aj;
        live_fit = sum;
        counted = ones;
      }

-- the sum over the entries
module _ (f : SlotEntry → ℕ) (count : ℕ) (slot slot' : ℕ → SlotEntry) where
  pub sum_added :
      ((j : ℕ) → j < count → slot' j ≡ slot j)
      → sum_to (count + 1) (λ j. f (slot' j)) ≡ sum_to count (λ j. f (slot j)) + f (slot' count)
  sum_added same = omega (
    arith,
    sum_to-next count (λ j. f (slot' j)),
    sum_to-same count (λ j. f (slot' j)) (λ j. f (slot j)) (λ j m. ap f (same j m)),
  )

  pub sum_replaced :
      (k : ℕ)
      → k < count
      → ((j : ℕ) → j < count → j ≢ k → slot' j ≡ slot j)
      → sum_to count (λ j. f (slot' j)) + f (slot k) ≡ sum_to count (λ j. f (slot j)) + f (slot' k)
  sum_replaced k m same =
      sum_to-change count k (λ j. f (slot j)) (λ j. f (slot' j)) m (λ j l n. ap f (same j l n))
