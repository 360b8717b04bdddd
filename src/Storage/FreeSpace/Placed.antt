-- ===== src/Storage/FreeSpace/Placed.antt =====
-- Every page stands once in the bucket of the space recorded for it, and nowhere else.
use byte_db.Common.{
  ◌∙◌, zero, ℕ, suc, ◌≡◌, ◌<◌, ◌==◌, refl, Option, none, some, List, [], if◌then◌else◌, length,
  replicate, arith, nat_key, inl, inr, Option-cases,
}
use byte_db.HashMap.{get}
use byte_db.HashMap.Laws.{get-insert, get-remove}
use byte_db.Storage.FreeSpace.{
  remove_from, FreeSpaceMap, new, num_buckets, bucket_index, bucket_at, move_page, record_space,
  forget,
}
use byte_db.Storage.FreeSpace.Counts.{
  occurs, occurs-remove_from, occurs-push_to, length-remove_from, length-push_to,
}

pub bucket_index-bound :
    (page_size free_bytes : ℕ) → bucket_index page_size free_bytes < num_buckets
unfolding bucket_index
bucket_index-bound page_size free_bytes = ground arith

-- how often a page of this recorded space stands in bucket `idx`
abbrev pub expected : ℕ → Option ℕ → ℕ → ℕ
expected page_size none idx = 0
expected page_size (some free) idx = if bucket_index page_size free == idx then 1 else 0

pub record IsPlaced (m : FreeSpaceMap) : Type 0 where
  pub all_buckets : length m.buckets ≡ num_buckets
  pub once :
      (idx q : ℕ) → occurs (bucket_at m.buckets idx) q ≡ expected m.page_size (get m.pages q) idx

-- beyond it the product in `bucket_index` is cut
abbrev pub max_space : ℕ
max_space = 1152921504606846976

-- what the two calls that change the map do to it
pub data Reach (page_size : ℕ) : FreeSpaceMap → Type 0 where
  start : Reach page_size (new page_size)
  recorded :
      {m : FreeSpaceMap} (page_id free_bytes : ℕ)
      → free_bytes < max_space
      → Reach page_size m
      → Reach page_size (record_space m page_id free_bytes)
  forgotten :
      {m : FreeSpaceMap} (page_id : ℕ) → Reach page_size m → Reach page_size (forget m page_id)

bucket_at-replicate : (n idx : ℕ) → bucket_at (replicate n []) idx ≡ []
bucket_at-replicate zero idx = refl
bucket_at-replicate (suc n) zero = refl
bucket_at-replicate (suc n) (suc idx) = bucket_at-replicate n idx

new-IsPlaced : (page_size : ℕ) → IsPlaced (new page_size)
unfolding new get
new-IsPlaced page_size = record {
  all_buckets = refl;
  once = λ idx q. rw (bucket_at-replicate num_buckets idx) refl;
}

forget-IsPlaced : (m : FreeSpaceMap) (p : ℕ) → IsPlaced m → IsPlaced (forget m p)
unfolding forget
forget-IsPlaced m p h = elim (Option-cases (get m.pages p)) [
  | inl e ↦ record {
    all_buckets = rw (e, forget) h.all_buckets;
    once = λ idx q. rw (e, forget) (ground (arith, e, h.once idx q, get-remove m.pages p q));
  }
  | inr (f, e) ↦
      let inside : bucket_index m.page_size f < length m.buckets =
        omega (arith, h.all_buckets, bucket_index-bound m.page_size f) in
      record {
        all_buckets =
            rw (e, forget)
              (ground (
                arith,
                h.all_buckets,
                length-remove_from m.buckets (bucket_index m.page_size f) p,
              ));
        once = λ idx q.
            rw (e, forget)
              (ground (
                arith,
                e,
                h.once idx q,
                get-remove m.pages p q,
                occurs-remove_from m.buckets (bucket_index m.page_size f) p idx q inside,
              ));
      }
]

length-move_page :
    (buckets : List (List ℕ)) (old new p : ℕ)
    → length (move_page buckets old new p) ≡ length buckets
unfolding move_page
length-move_page buckets old new p =
    ground
      (arith, length-push_to (remove_from buckets old p) new p, length-remove_from buckets old p)

move_once :
    (m : FreeSpaceMap) (p old new : ℕ)
    → IsPlaced m
    → get m.pages p ≡ some old
    → (idx q : ℕ)
    → occurs
        (bucket_at
          (move_page m.buckets (bucket_index m.page_size old) (bucket_index m.page_size new) p)
          idx)
        q
      ≡ expected m.page_size (if p == q then some new else get m.pages q) idx
unfolding move_page
move_once m p old new h e idx q =
    let from = bucket_index m.page_size old in
    let to = bucket_index m.page_size new in
    let from_in : from < length m.buckets =
      omega (arith, h.all_buckets, bucket_index-bound m.page_size old) in
    let to_in : to < length (remove_from m.buckets from p) = omega (
      arith,
      h.all_buckets,
      length-remove_from m.buckets from p,
      bucket_index-bound m.page_size new,
    ) in
    ground (
      arith,
      e,
      h.once idx q,
      occurs-remove_from m.buckets from p idx q from_in,
      occurs-push_to (remove_from m.buckets from p) to p idx q to_in,
    )

record_space-IsPlaced :
    (m : FreeSpaceMap) (p free : ℕ) → IsPlaced m → IsPlaced (record_space m p free)
unfolding record_space
record_space-IsPlaced m p free h = elim (Option-cases (get m.pages p)) [
  | inl e ↦
      let inside : bucket_index m.page_size free < length m.buckets =
        omega (arith, h.all_buckets, bucket_index-bound m.page_size free) in
      record {
        all_buckets =
            rw (e, record_space)
              (ground
                (arith, h.all_buckets, length-push_to m.buckets (bucket_index m.page_size free) p));
        once = λ idx q.
            rw (e, record_space)
              (rw (get-insert m.pages p free q) (
                ground (
                  arith,
                  e,
                  h.once idx q,
                  occurs-push_to m.buckets (bucket_index m.page_size free) p idx q inside,
                )));
      }
  | inr (old, e) ↦ record {
    all_buckets =
        rw (e, record_space)
          (length-move_page m.buckets (bucket_index m.page_size old) (bucket_index m.page_size free)
              p
            ∙ h.all_buckets);
    once = λ idx q.
        rw (e, record_space) (rw (get-insert m.pages p free q) (move_once m p old free h e idx q));
  }
]

-- In a free space map that records and forgets have reached, there are 16 buckets and every page
-- with recorded space stands exactly once in the bucket of that space; no other page stands in a
-- bucket, and no page in another bucket.
pub Reach-IsPlaced : (page_size : ℕ) {m : FreeSpaceMap} → Reach page_size m → IsPlaced m
Reach-IsPlaced page_size start = new-IsPlaced page_size
Reach-IsPlaced page_size (recorded {m} p free small r) =
    record_space-IsPlaced m p free (Reach-IsPlaced page_size r)
Reach-IsPlaced page_size (forgotten {m} p r) = forget-IsPlaced m p (Reach-IsPlaced page_size r)

-- no recorded space is too large
pub Reach-small :
    (page_size : ℕ) {m : FreeSpaceMap}
    → Reach page_size m
    → (q f : ℕ) → get m.pages q ≡ some f
    → f < max_space
unfolding new get record_space forget
Reach-small page_size start q f e = ground (arith, e)
Reach-small page_size (recorded {m} p free small r) q f e =
    ground (arith, e, small, get-insert m.pages p free q, Reach-small page_size r q f)
Reach-small page_size (forgotten {m} p r) q f e =
    ground (arith, e, get-remove m.pages p q, Reach-small page_size r q f)
