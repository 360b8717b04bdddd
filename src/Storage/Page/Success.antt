-- ===== src/Storage/Page/Success.antt =====
-- When the operations on a page succeed.
use byte_db.Common.{
  ℕ, ◌+◌, ◌≡◌, ◌≤◌, ◌<◌, ◌==◌, ◌||◌, ltb, leb, inl, inr, refl, ◌∙◌, Bool, true, false, none, some,
  Bool-cases, arith, Bytes, length,
}
use byte_db.Storage.Memory.{slice, length-slice}
use byte_db.Storage.Page.{get_slot, alloc_slot, delete_slot, update_slot}
use byte_db.Storage.Slots.{
  Page, page_size, slot_count, free_space, slot_entry_offset, read_slot, is_dead,
}
use byte_db.Storage.Page.Layout.{IsWell}
use byte_db.Storage.Page.View.{get_slot-held, get_slot-out}
use byte_db.Storage.Page.Compact.{live_bytes, compact-Compacts}
use byte_db.Storage.Page.Outcome.{
  Op, alloc, delete, update, compacting, run, IsLive-flags, get_slot-dead,
}
use byte_db.Storage.Page.Runs.{Reached, Reached-IsWell}

-- the new tuple is not longer than the old one, or it fits on the page beside all live tuples
abbrev pub has_room : Page → Bytes → Bytes → Bool
has_room p old t =
    leb (length t) (length old)
    || leb (length t + live_bytes p + slot_entry_offset (slot_count p)) page_size

abbrev pub can : Op → Page → Bool
can (alloc t) p = leb (length t + 5) (free_space p)
can (delete k) p = ltb k (slot_count p)
can (update k t) p = elim (get_slot p k) [ none ↦ false | some old ↦ has_room p old t ]
can compacting p = true

alloc-can : (t : Bytes) (p : Page) → IsWell p → (run (alloc t) p).1 ≡ can (alloc t) p
unfolding alloc_slot
alloc-can t p well = ground (arith, well.within)

delete-can : (k : ℕ) (p : Page) → (run (delete k) p).1 ≡ can (delete k) p
unfolding delete_slot
delete-can k p = ground arith

update-can : (k : ℕ) (t : Bytes) (p : Page) → IsWell p → (run (update k t) p).1 ≡ can (update k t) p
unfolding update_slot
update-can k t p well = elim (Bool-cases (leb (slot_count p) k)) [
  | inl y ↦
      let out : slot_count p ≤ k = ground (arith, y) in
      rw (y, update_slot) (rw (get_slot-out p k out, can) refl)
  | inr n ↦
      let m : k < slot_count p = ground (arith, n) in
      elim (Bool-cases (is_dead (read_slot p k))) [
        | inl dead ↦
            rw (n, update_slot)
              (rw (dead, update_slot) (rw (get_slot-dead p k well dead, can) refl))
        | inr lives ↦
            let alive = IsLive-flags p k well m lives in
            let e = read_slot p k in
            let flag : (e.flags == 0) ≡ true = ground (arith, alive) in
            let old : get_slot p k ≡ some (slice p.bytes e.offset e.length) =
              get_slot-held p k well m ∙ rw flag refl in
            let c = compact-Compacts p well in
            rw (n, update_slot)
              (rw (lives, update_slot)
                (rw (old, can)
                  (rw (length-slice p.bytes e.offset e.length) (
                    ground (
                      arith, c.no_gap, c.start_kept, c.well_formed.room, well.start_at,
                      well.live_fit, well.room,
                    )))))
      ]
]

any-can : (op : Op) (p : Page) → IsWell p → (run op p).1 ≡ can op p
any-can (alloc t) p well = alloc-can t p well
any-can (delete k) p well = delete-can k p
any-can (update k t) p well = update-can k t p well
any-can compacting p well = refl

-- On a page that the operations have reached, an allocation succeeds just when the tuple and an entry
-- fit in the free bytes, a deletion just when the slot exists, and an update just when the slot
-- holds a tuple and the new one is not longer or fits beside all live tuples, the old one included.
pub run_succeeds : (op : Op) {p : Page} → Reached p → (run op p).1 ≡ can op p
run_succeeds op {p} r = any-can op p (Reached-IsWell r)
