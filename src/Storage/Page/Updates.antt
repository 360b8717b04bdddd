-- ===== src/Storage/Page/Updates.antt =====
-- Updates do to the slots what they do to a directory of tuples.
use byte_db.Common.{
  ℕ, ◌-◌, ◌≡◌, ◌≤◌, ◌<◌, ◌==◌, ltb, leb, inl, inr, refl, ap, ◌∙◌, true, false, some, Bool-cases,
  if◌then◌else◌, arith, Bytes, length,
}
use byte_db.Storage.Page.{update_slot, relocate, compact}
use byte_db.Storage.Slots.{Page, slot_count, free_end, free_space, read_slot, is_dead}
use byte_db.Storage.Page.Layout.{IsWell, IsLive}
use byte_db.Storage.Page.View.{is_dead-flags}
use byte_db.Storage.Page.Rewrite.{rewrite-IsWell, get_slot-rewrite}
use byte_db.Storage.Page.Update.{
  in_place, in_place-Rewrites, in_place-HasRoom, moved, moved-Rewrites, moved-HasRoom,
}
use byte_db.Storage.Page.Compact.{Compacts, compact-Compacts}
use byte_db.Storage.Page.Outcome.{update, run, Refines, unchanged, IsLive-flags}

relocate-Refines :
    (k : ℕ) (t : Bytes) (p : Page) (flags : ℕ)
    → IsWell p
    → k < slot_count p
    → IsLive (read_slot p k)
    → flags ≡ 0
    → length t ≤ free_space p
    → Refines (update k t) p (relocate p k t flags, true)
unfolding relocate
relocate-Refines k t p flags well m alive zero_flags fits =
    let low = free_end p - length t in
    let q = moved p k t well m alive fits in
    let w = moved-Rewrites p k t well m alive fits in
    let room = moved-HasRoom p k t well m alive fits in
    rw (zero_flags, relocate)
      (record {
        well_formed = rewrite-IsWell p q k t low low well w room;
        slots = get_slot-rewrite p q k t low low well w room;
      })

in_place-Refines :
    (k : ℕ) (t : Bytes) (p : Page) (well : IsWell p) (m : k < slot_count p)
    (alive : IsLive (read_slot p k)) (fits : length t ≤ (read_slot p k).length)
    → Refines (update k t) p (in_place p k t well m alive fits, true)
in_place-Refines k t p well m alive fits =
    let q = in_place p k t well m alive fits in
    let off = (read_slot p k).offset in
    let w = in_place-Rewrites p k t well m alive fits in
    let room = in_place-HasRoom p k t well m alive fits in
    record {
      well_formed = rewrite-IsWell p q k t off (free_end p) well w room;
      slots = get_slot-rewrite p q k t off (free_end p) well w room;
    }

-- an update of the compacted page is one of the page
after_compact :
    (k : ℕ) (t : Bytes) (p q : Page) (well : IsWell p)
    → Compacts p well (compact p)
    → Refines (update k t) (compact p) (q, true)
    → Refines (update k t) p (q, true)
after_compact k t p q well c h = record {
  well_formed = h.well_formed;
  slots = λ j. h.slots j ∙ ap (λ o. if j == k then some t else o) (c.same_slots j);
}

-- a page that is too full even when compacted is left so
too_full :
    (k : ℕ) (t : Bytes) (p : Page) (well : IsWell p)
    → Compacts p well (compact p)
    → Refines (update k t) p (compact p, false)
too_full k t p well c = record { well_formed = c.well_formed; slots = c.same_slots }

module _ (k : ℕ) (t : Bytes) (p : Page) (well : IsWell p) (m : k < slot_count p)
    (alive : IsLive (read_slot p k)) where
  -- the tuple is longer than the old one and there is not enough room
  compact_first :
      ltb (free_space p) (length t) ≡ true
      → leb (length t) (read_slot p k).length ≡ false
      → Refines (update k t) p (run (update k t) p)
  unfolding update_slot
  compact_first full longer =
      let within : leb (slot_count p) k ≡ false = ground arith in
      let lives : is_dead (read_slot p k) ≡ false =
        is_dead-flags (read_slot p k) (well.flagged k m) ∙ rw alive refl in
      let c = compact-Compacts p well in
      elim (Bool-cases (ltb (free_space (compact p)) (length t))) [
        | inl y ↦
            rw (within, update_slot)
              (rw (lives, update_slot)
                (rw (longer, update_slot)
                  (rw (full, update_slot) (rw (y, update_slot) (too_full k t p well c)))))
        | inr n ↦
            let fits : length t ≤ free_space (compact p) = ground (arith, n) in
            let in_compact : k < slot_count (compact p) = omega (arith, c.same_count, m) in
            let still : IsLive (read_slot (compact p) k) = c.same_flags k m ∙ alive in
            rw (within, update_slot)
              (rw (lives, update_slot)
                (rw (longer, update_slot)
                  (rw (full, update_slot)
                    (rw (n, update_slot)
                      (after_compact k t p (relocate (compact p) k t (read_slot p k).flags) well c (
                        relocate-Refines k t (compact p) (read_slot p k).flags c.well_formed
                          in_compact still alive fits))))))
      ]

  update-live : Refines (update k t) p (run (update k t) p)
  unfolding update_slot
  update-live =
      let within : leb (slot_count p) k ≡ false = ground arith in
      let lives : is_dead (read_slot p k) ≡ false =
        is_dead-flags (read_slot p k) (well.flagged k m) ∙ rw alive refl in
      elim (Bool-cases (leb (length t) (read_slot p k).length)) [
        | inl y ↦
            let fits : length t ≤ (read_slot p k).length = ground (arith, y) in
            rw (within, update_slot)
              (rw (lives, update_slot)
                (rw (y, update_slot)
                  (rw (alive, update_slot) (in_place-Refines k t p well m alive fits))))
        | inr longer ↦ elim (Bool-cases (ltb (free_space p) (length t))) [
          | inl full ↦ compact_first full longer
          | inr enough ↦
              let fits : length t ≤ free_space p = ground (arith, enough) in
              rw (within, update_slot)
                (rw (lives, update_slot)
                  (rw (longer, update_slot)
                    (rw (enough, update_slot)
                      (relocate-Refines k t p (read_slot p k).flags well m alive alive fits))))
        ]
      ]

pub update-Refines :
    (k : ℕ) (t : Bytes) (p : Page) → IsWell p → Refines (update k t) p (run (update k t) p)
unfolding update_slot
update-Refines k t p well = elim (Bool-cases (leb (slot_count p) k)) [
  | inl y ↦ rw (y, update_slot) (unchanged (update k t) p well)
  | inr n ↦
      let m : k < slot_count p = ground (arith, n) in
      elim (Bool-cases (is_dead (read_slot p k))) [
        | inl dead ↦ rw (n, update_slot) (rw (dead, update_slot) (unchanged (update k t) p well))
        | inr lives ↦ update-live k t p well m (IsLive-flags p k well m lives)
      ]
]
