-- ===== src/Storage/Page/Runs.antt =====
-- Every operation on a well-formed page: it stays well formed, and the slots are those of a directory
-- of tuples on which the same operation is done.
use byte_db.Common.{ℕ, ◌+◌, ◌≡◌, refl, arith}
use byte_db.Storage.Memory.{get16}
use byte_db.Storage.Page.{get16, new, get_slot, compact}
use byte_db.Storage.Slots.{Page, page_size, slot_count, free_space, slot_entry_offset, read_slot}
use byte_db.Storage.Page.Layout.{IsWell}
use byte_db.Storage.Page.Compact.{live_bytes, compact-Compacts}
use byte_db.Storage.Page.Outcome.{
  Op, alloc, delete, update, compacting, run, effect, Refines, alloc-Refines, delete-Refines,
}
use byte_db.Storage.Page.Updates.{update-Refines}

compact-Refines : (p : Page) → IsWell p → Refines compacting p (run compacting p)
compact-Refines p well =
    let c = compact-Compacts p well in record { well_formed = c.well_formed; slots = c.same_slots }

any-Refines : (op : Op) (p : Page) → IsWell p → Refines op p (run op p)
any-Refines (alloc t) p well = alloc-Refines t p well
any-Refines (delete k) p well = delete-Refines k p well
any-Refines (update k t) p well = update-Refines k t p well
any-Refines compacting p well = compact-Refines p well

new-IsWell : (id : ℕ) → IsWell (new id)
unfolding new get16 read_slot
new-IsWell id = record {
  start_at = refl;
  room = omega arith;
  within = omega arith;
  flagged = λ j l. absurd (omega (arith, l));
  inside = λ j l. absurd (omega (arith, l));
  apart = λ i j li. absurd (omega (arith, li));
  live_fit = omega arith;
  counted = refl;
}

-- the pages that a new page becomes by the operations
pub data Reached : Page → Type 0 where
  start : (id : ℕ) → Reached (new id)
  step : {p : Page} (op : Op) → Reached p → Reached (run op p).0

-- A page that was new and on which slots were allocated, deleted and updated and which was
-- compacted, each call with or without success, is well formed: the free bytes begin after the
-- header and the directory, the live tuples lie between the free bytes' end and the page's, none
-- overlaps another, all of them fit, and the live count is their number.
pub Reached-IsWell : {p : Page} → Reached p → IsWell p
Reached-IsWell (start id) = new-IsWell id
Reached-IsWell (step {p} op r) = (any-Refines op p (Reached-IsWell r)).well_formed

-- On such a page, an operation changes what `get_slot` gives as it changes a directory of tuples:
-- an allocation that succeeds adds its tuple at the number of slots, a deletion empties its slot,
-- an update puts its tuple in its slot; other slots, a compaction and a call that fails change
-- nothing, also when a failing update has compacted the page.
pub run-Refines :
    (op : Op) {p : Page}
    → Reached p
    → (j : ℕ) → get_slot (run op p).0 j ≡ effect op (run op p).1 (slot_count p) (get_slot p) j
run-Refines op {p} r j = (any-Refines op p (Reached-IsWell r)).slots j

-- Compacting such a page leaves free every byte that is not in the header, in the directory or in a
-- live tuple.
pub compact_reclaims :
    {p : Page}
    → Reached p
    → free_space (compact p) + live_bytes p + slot_entry_offset (slot_count p) ≡ page_size
compact_reclaims {p} r =
    let well = Reached-IsWell r in
    let c = compact-Compacts p well in
    omega (arith, c.no_gap, c.start_kept, c.well_formed.room, well.start_at)
