-- ===== src/Storage/Page/Outcome.antt =====
-- The operations on a page as one type, what each is to do to the directory of tuples, and that
-- allocation and deletion do it.
use byte_db.Common.{
  ℕ, ◌+◌, ◌≡◌, ◌≤◌, ◌<◌, ◌==◌, ltb, leb, inl, inr, refl, Bool, true, false, Option, none, some,
  Bool-cases, if◌then◌else◌, arith, Bytes, length,
}
use byte_db.Error.{Result, ok, err}
use byte_db.Storage.Page.{get_slot, alloc_slot, delete_slot, update_slot, compact}
use byte_db.Storage.Slots.{Page, slot_count, free_space, read_slot, is_dead}
use byte_db.Storage.Page.Layout.{IsWell, IsLive}
use byte_db.Storage.Page.View.{is_dead-flags}
use byte_db.Storage.Page.Alloc.{add_slot-IsWell, get_slot-add}
use byte_db.Storage.Page.Delete.{deleted-IsWell, get_slot-deleted, delete_slot-live}

pub data Op : Type 0 where
  alloc : (tuple : Bytes) → Op
  delete : (slot_id : ℕ) → Op
  update : (slot_id : ℕ) (tuple : Bytes) → Op
  compacting : Op

abbrev pub succeeded {ℓ} : {A : Type ℓ} → Result A → Bool
succeeded (ok a) = true
succeeded (err e) = false

-- the page after an operation, and whether it succeeded
abbrev pub run : Op → Page → Page × Bool
run (alloc t) p = let r = alloc_slot p t in (r.0, succeeded r.1)
run (delete k) p = let r = delete_slot p k in (r.0, succeeded r.1)
run (update k t) p = let r = update_slot p k t in (r.0, succeeded r.1)
run compacting p = (compact p, true)

-- the directory of tuples after an operation: of `count` slots, with the tuples `old`
abbrev pub effect : Op → Bool → ℕ → (ℕ → Option Bytes) → ℕ → Option Bytes
effect op false count old j = old j
effect (alloc t) true count old j = if j == count then some t else old j
effect (delete k) true count old j = if j == k then none else old j
effect (update k t) true count old j = if j == k then some t else old j
effect compacting true count old j = old j

-- what is to hold of an operation's outcome `r`
pub record Refines (op : Op) (p : Page) (r : Page × Bool) : Type 0 where
  pub well_formed : IsWell r.0
  pub slots : (j : ℕ) → get_slot r.0 j ≡ effect op r.1 (slot_count p) (get_slot p) j

-- nothing is changed
pub unchanged : (op : Op) (p : Page) → IsWell p → Refines op p (p, false)
unchanged (alloc t) p well = record { well_formed = well; slots = λ j. refl }
unchanged (delete k) p well = record { well_formed = well; slots = λ j. refl }
unchanged (update k t) p well = record { well_formed = well; slots = λ j. refl }
unchanged compacting p well = record { well_formed = well; slots = λ j. refl }

pub alloc-Refines : (t : Bytes) (p : Page) → IsWell p → Refines (alloc t) p (run (alloc t) p)
unfolding alloc_slot
alloc-Refines t p well = elim (Bool-cases (ltb 65535 (length t))) [
  | inl y ↦ rw (y, alloc_slot) (unchanged (alloc t) p well)
  | inr n ↦ elim (Bool-cases (ltb (free_space p) (length t + 5))) [
    | inl y ↦ rw (n, alloc_slot) (rw (y, alloc_slot) (unchanged (alloc t) p well))
    | inr enough ↦
        let room : length t + 5 ≤ free_space p = ground (arith, enough) in
        rw (n, alloc_slot)
          (rw (enough, alloc_slot)
            (record {
              well_formed = add_slot-IsWell p t well room;
              slots = get_slot-add p t well room;
            }))
  ]
]

-- a slot whose entry is dead holds nothing
pub get_slot-dead :
    (p : Page) (k : ℕ) → IsWell p → is_dead (read_slot p k) ≡ true → get_slot p k ≡ none
unfolding get_slot
get_slot-dead p k well h = elim (Bool-cases (leb (slot_count p) k)) [
  | inl y ↦ rw (y, get_slot) refl
  | inr n ↦ rw (n, get_slot) (rw (h, get_slot) refl)
]

none_there :
    (p : Page) (k j : ℕ)
    → get_slot p k ≡ none
    → get_slot p j ≡ (if j == k then none else get_slot p j)
none_there p k j e = elim (Bool-cases (j == k)) [
  | inl y ↦ let here : j ≡ k = ground (arith, y) in rw y (rw here e)
  | inr n ↦ rw n refl
]

pub IsLive-flags :
    (p : Page) (k : ℕ)
    → IsWell p
    → k < slot_count p
    → is_dead (read_slot p k) ≡ false
    → IsLive (read_slot p k)
IsLive-flags p k well m h =
    ground (arith, h, is_dead-flags (read_slot p k) (well.flagged k m), well.flagged k m)

pub delete-Refines : (k : ℕ) (p : Page) → IsWell p → Refines (delete k) p (run (delete k) p)
unfolding delete_slot
delete-Refines k p well = elim (Bool-cases (leb (slot_count p) k)) [
  | inl y ↦ rw (y, delete_slot) (unchanged (delete k) p well)
  | inr n ↦
      let m : k < slot_count p = ground (arith, n) in
      elim (Bool-cases (is_dead (read_slot p k))) [
        | inl dead ↦
            rw (n, delete_slot)
              (rw (dead, delete_slot)
                (record {
                  well_formed = well;
                  slots = λ j. none_there p k j (get_slot-dead p k well dead);
                }))
        | inr lives ↦
            let alive = IsLive-flags p k well m lives in
            rw (delete_slot-live p k well m alive) (record {
              well_formed = deleted-IsWell p k well m alive;
              slots = get_slot-deleted p k well m alive;
            })
      ]
]
