-- ===== src/Tests/Pages.antt =====
-- Witnesses for the properties of the slotted page: two tuples, one of them deleted.
use byte_db.Common.{◌+◌, ◌≡◌, [], ◌∷◌}
use byte_db.Storage.Page.{new, get_slot, compact}
use byte_db.Storage.Slots.{Page, slot_count, free_space, page_size, slot_entry_offset}
use byte_db.Storage.Page.Layout.{IsWell}
use byte_db.Storage.Page.Compact.{live_bytes}
use byte_db.Storage.Page.Outcome.{Op, alloc, delete, update, run, effect}
use byte_db.Storage.Page.Runs.{Reached, start, step, Reached-IsWell, run-Refines, compact_reclaims}
use byte_db.Storage.Page.Success.{can, run_succeeds}

two_tuples : Page
two_tuples =
    (run (delete 0) (run (alloc (7 ∷ 8 ∷ [])) (run (alloc (1 ∷ 2 ∷ 3 ∷ [])) (new 1)).0).0).0

two_tuples-Reached : Reached two_tuples
unfolding two_tuples
two_tuples-Reached =
    step (delete 0) (step (alloc (7 ∷ 8 ∷ [])) (step (alloc (1 ∷ 2 ∷ 3 ∷ [])) (start 1)))

abbrev longer : Op
longer = update 1 (4 ∷ 5 ∷ 6 ∷ 7 ∷ [])

Reached-IsWell_example : IsWell two_tuples
Reached-IsWell_example = Reached-IsWell two_tuples-Reached

run-Refines_example :
    get_slot (run longer two_tuples).0 1
    ≡ effect longer (run longer two_tuples).1 (slot_count two_tuples) (get_slot two_tuples) 1
run-Refines_example = run-Refines longer two_tuples-Reached 1

run_succeeds_example : (run longer two_tuples).1 ≡ can longer two_tuples
run_succeeds_example = run_succeeds longer two_tuples-Reached

compact_reclaims_example :
    free_space (compact two_tuples)
      + live_bytes two_tuples
      + slot_entry_offset (slot_count two_tuples)
    ≡ page_size
compact_reclaims_example = compact_reclaims two_tuples-Reached
