-- ===== src/Storage/FreeSpace/Counts.antt =====
-- How often a page stands in a bucket, and what the operations on buckets do to that.
use byte_db.Common.{
  ℕ, zero, suc, ◌+◌, ◌-◌, ◌≡◌, ◌<◌, ◌==◌, refl, inl, inr, Option-cases, Option, none, some, List,
  [], ◌∷◌, ◌++◌, if◌then◌else◌, last, length, length-set, get_or-set, arith,
}
use byte_db.Storage.FreeSpace.{
  position, drop_last, swap_remove, take_out, remove_from, push_to, bucket_at,
}

abbrev pub occurs : List ℕ → ℕ → ℕ
occurs [] q = 0
occurs (p ∷ ps) q = (if p == q then 1 else 0) + occurs ps q

pub occurs-append :
    (ps : List ℕ) (p q : ℕ) → occurs (ps ++ p ∷ []) q ≡ occurs ps q + (if p == q then 1 else 0)
occurs-append [] p q = omega arith
occurs-append (x ∷ ps) p q = omega (arith, occurs-append ps p q)

-- the last element and the others
occurs-last :
    (ps : List ℕ) (q : ℕ)
    → occurs ps q
      ≡ (elim (last ps) [ none ↦ 0 | some l ↦ (if l == q then 1 else 0) + occurs (drop_last ps) q ])
unfolding last drop_last
occurs-last [] q = refl
occurs-last (p ∷ []) q = ground arith
occurs-last (p ∷ x ∷ ps) q = ground (arith, occurs-last (x ∷ ps) q)

abbrev pub without : List ℕ → ℕ → Option ℕ → List ℕ
without ps p none = ps
without ps p (some i) = swap_remove ps i

occurs-swap_remove :
    (ps : List ℕ) (p q i : ℕ)
    → position ps p ≡ some i
    → occurs ps q ≡ (if p == q then 1 else 0) + occurs (swap_remove ps i) q
unfolding position swap_remove last drop_last
occurs-swap_remove [] p q i h = ground (arith, h)
occurs-swap_remove (x ∷ ps) p q zero h = ground (arith, h, occurs-last ps q)
occurs-swap_remove (x ∷ ps) p q (suc i) h = ground (arith, h, occurs-swap_remove ps p q i)

occurs-absent : (ps : List ℕ) (p : ℕ) → position ps p ≡ none → occurs ps p ≡ 0
unfolding position
occurs-absent [] p h = refl
occurs-absent (x ∷ ps) p h = ground (arith, h, occurs-absent ps p)

pub occurs-take_out :
    (ps : List ℕ) (p q : ℕ)
    → occurs (take_out ps p) q ≡ (if p == q then occurs ps q - 1 else occurs ps q)
unfolding take_out
occurs-take_out ps p q = elim (Option-cases (position ps p)) [
  | inl e ↦ rw (e, take_out) (ground (arith, occurs-absent ps p e))
  | inr (i, e) ↦ rw (e, take_out) (ground (arith, occurs-swap_remove ps p q i e))
]

-- one bucket changes
pub bucket_at-remove_from :
    (buckets : List (List ℕ)) (idx p j : ℕ)
    → idx < length buckets
    → bucket_at (remove_from buckets idx p) j
      ≡ (if idx == j then take_out (bucket_at buckets idx) p else bucket_at buckets j)
unfolding remove_from
bucket_at-remove_from buckets idx p j h =
    get_or-set buckets idx j (take_out (bucket_at buckets idx) p) [] h

pub bucket_at-push_to :
    (buckets : List (List ℕ)) (idx p j : ℕ)
    → idx < length buckets
    → bucket_at (push_to buckets idx p) j
      ≡ (if idx == j then bucket_at buckets idx ++ p ∷ [] else bucket_at buckets j)
unfolding push_to
bucket_at-push_to buckets idx p j h =
    get_or-set buckets idx j (bucket_at buckets idx ++ p ∷ []) [] h

pub length-remove_from :
    (buckets : List (List ℕ)) (idx p : ℕ) → length (remove_from buckets idx p) ≡ length buckets
unfolding remove_from
length-remove_from buckets idx p = length-set buckets idx (take_out (bucket_at buckets idx) p)

pub length-push_to :
    (buckets : List (List ℕ)) (idx p : ℕ) → length (push_to buckets idx p) ≡ length buckets
unfolding push_to
length-push_to buckets idx p = length-set buckets idx (bucket_at buckets idx ++ p ∷ [])

-- how often `q` stands in bucket `j` afterwards
pub occurs-remove_from :
    (buckets : List (List ℕ)) (idx p j q : ℕ)
    → idx < length buckets
    → occurs (bucket_at (remove_from buckets idx p) j) q
      ≡ occurs (bucket_at buckets j) q - (if idx == j then (if p == q then 1 else 0) else 0)
occurs-remove_from buckets idx p j q h =
    rw (bucket_at-remove_from buckets idx p j h)
      (ground (arith, occurs-take_out (bucket_at buckets idx) p q))

pub occurs-push_to :
    (buckets : List (List ℕ)) (idx p j q : ℕ)
    → idx < length buckets
    → occurs (bucket_at (push_to buckets idx p) j) q
      ≡ occurs (bucket_at buckets j) q + (if idx == j then (if p == q then 1 else 0) else 0)
occurs-push_to buckets idx p j q h =
    rw (bucket_at-push_to buckets idx p j h)
      (ground (arith, occurs-append (bucket_at buckets idx) p q))
