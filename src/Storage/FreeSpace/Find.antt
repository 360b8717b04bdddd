-- ===== src/Storage/FreeSpace/Find.antt =====
-- `find_with_at_least` finds a page with enough space, if there is one.
use byte_db.Common.{
  ◌%◌, nat_key, ap, ◌∙◌, sym, Bool-cases, ℕ, zero, suc, ◌+◌, ◌-◌, ◌*◌, ◌/◌, ◌≡◌, ◌≤◌, ◌<◌, ◌==◌,
  refl, Bool, true, some, List, [], ◌∷◌, drop, find_last, arith, inl, inr, Option-cases,
}
use byte_db.HashMap.{HashMap, get}
use byte_db.Storage.FreeSpace.{
  FreeSpaceMap, num_buckets, bucket_index, bucket_at, fits, first_fit, find_with_at_least,
  free_bytes_for,
}
use byte_db.Storage.FreeSpace.Counts.{occurs}
use byte_db.Storage.FreeSpace.Placed.{Reach, Reach-IsPlaced, Reach-small, max_space}

div_mono : (a b c : ℕ) → a ≤ b → 1 ≤ c → a / c ≤ b / c
div_mono a b c h p = grind arith

bucket_index_mono :
    (page_size a b : ℕ)
    → a ≤ b
    → b < max_space
    → bucket_index page_size a ≤ bucket_index page_size b
unfolding bucket_index
bucket_index_mono page_size a b h small = elim (Bool-cases (page_size == 0)) [
  | inl z ↦ rw z (omega arith)
  | inr n ↦
      let a_fits : a * num_buckets % 18446744073709551616 ≡ a * num_buckets = omega arith in
      let b_fits : b * num_buckets % 18446744073709551616 ≡ b * num_buckets = omega arith in
      let positive : 1 ≤ page_size = ground (arith, n) in
      let less : a * num_buckets ≤ b * num_buckets = omega arith in
      rw n (
        rw a_fits (
          rw b_fits
            (omega (arith, div_mono (a * num_buckets) (b * num_buckets) page_size less positive))))
]

find_last-holds : (p : ℕ → Bool) (xs : List ℕ) (x : ℕ) → find_last p xs ≡ some x → p x ≡ true
unfolding find_last
find_last-holds p [] x e = ground (arith, e)
find_last-holds p (y ∷ xs) x e = ground (arith, e, find_last-holds p xs x)

find_last-occurs :
    (p : ℕ → Bool) (xs : List ℕ) (q : ℕ)
    → p q ≡ true
    → 1 ≤ occurs xs q
    → (x : ℕ) × (find_last p xs ≡ some x)
unfolding find_last
find_last-occurs p [] q h m = absurd (omega arith)
find_last-occurs p (y ∷ xs) q h m = elim (Option-cases (find_last p xs)) [
  | inr (x, e) ↦ (x, rw (e, find_last) refl)
  | inl e ↦ elim (Bool-cases (y == q)) [
    | inl same ↦ (y, rw (e, find_last) (ground (arith, same, h)))
    | inr other ↦
        let r = find_last-occurs p xs q h (ground (arith, other, m)) in
        absurd (ground (arith, e, r.1))
  ]
]

bucket_at-drop :
    (s j : ℕ) (buckets : List (List ℕ)) → bucket_at (drop s buckets) j ≡ bucket_at buckets (s + j)
bucket_at-drop zero j buckets = ap (bucket_at buckets) (omega arith)
bucket_at-drop (suc s) j [] = refl
bucket_at-drop (suc s) j (b ∷ buckets) =
    let next : suc s + j ≡ suc (s + j) = omega arith in
    bucket_at-drop s j buckets ∙ ap (bucket_at (b ∷ buckets)) (sym next)

module _ (pages : HashMap ℕ ℕ) (needed : ℕ) where
  first_fit-holds :
      (buckets : List (List ℕ)) (x : ℕ)
      → first_fit pages needed buckets ≡ some x
      → fits pages needed x ≡ true
  unfolding first_fit
  first_fit-holds [] x e = ground (arith, e)
  first_fit-holds (b ∷ buckets) x e =
      ground (arith, e, find_last-holds (fits pages needed) b x, first_fit-holds buckets x)

  first_fit-found :
      (buckets : List (List ℕ)) (j q : ℕ)
      → fits pages needed q ≡ true
      → 1 ≤ occurs (bucket_at buckets j) q
      → (x : ℕ) × (first_fit pages needed buckets ≡ some x)
  unfolding first_fit
  first_fit-found [] j q h m = absurd (omega arith)
  first_fit-found (b ∷ buckets) zero q h m =
      let r = find_last-occurs (fits pages needed) b q h m in (r.0, rw (r.1, first_fit) refl)
  first_fit-found (b ∷ buckets) (suc j) q h m =
      elim (Option-cases (find_last (fits pages needed) b)) [
        | inr (x, e) ↦ (x, rw (e, first_fit) refl)
        | inl e ↦ let r = first_fit-found buckets j q h m in (r.0, rw (e, first_fit) r.1)
      ]

fits-holds :
    (pages : HashMap ℕ ℕ) (needed x : ℕ)
    → fits pages needed x ≡ true
    → (f : ℕ) × (get pages x ≡ some f) × (needed ≤ f)
unfolding fits
fits-holds pages needed x h = elim (Option-cases (get pages x)) [
  | inl e ↦ absurd (ground (arith, h, e))
  | inr (f, e) ↦ (f, e, ground (arith, h, e))
]

-- If a page has at least the needed space recorded, `find_with_at_least` finds a page, and the page
-- that it finds has at least that space recorded. This is so in every map that records of less
-- than 2^60 bytes and forgets have reached.
pub find_with_at_least_finds :
    (page_size : ℕ) (m : FreeSpaceMap)
    → Reach page_size m
    → (needed q f : ℕ) → free_bytes_for m q ≡ some f
    → needed ≤ f
    → (x g : ℕ) × (find_with_at_least m needed ≡ some x)
      × (free_bytes_for m x ≡ some g)
      × (needed ≤ g)
unfolding find_with_at_least free_bytes_for fits
find_with_at_least_finds page_size m r needed q f e h =
    let placed = Reach-IsPlaced page_size r in
    let small = Reach-small page_size r q f e in
    let start = bucket_index m.page_size needed in
    let from : start ≤ bucket_index m.page_size f =
      bucket_index_mono m.page_size needed f h small in
    let skipped = bucket_index m.page_size f - start in
    let there : start + skipped ≡ bucket_index m.page_size f = omega arith in
    let held : occurs (bucket_at (drop start m.buckets) skipped) q ≡ 1 =
      rw (bucket_at-drop start skipped m.buckets)
        (rw there (ground (arith, placed.once (bucket_index m.page_size f) q, e))) in
    let found =
      first_fit-found m.pages needed (drop start m.buckets) skipped q (ground (arith, e))
        (omega (arith, held)) in
    let good =
      fits-holds m.pages needed found.0
        (first_fit-holds m.pages needed (drop start m.buckets) found.0 found.1) in
    (found.0, good.0, found.1, good.1, good.2)
