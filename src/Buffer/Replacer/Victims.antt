-- ===== src/Buffer/Replacer/Victims.antt =====
-- `evict` gives up an evictable frame, and finds one if there is one.
use byte_db.Common.{
  ℕ, ◌-◌, ◌≡◌, ◌≤◌, ◌⊎◌, inl, inr, refl, ap, ◌∙◌, Bool, true, false, Bool-cases, Option, none, some,
  Option-cases, List, [], ◌∷◌, ltb, length, get_or, arith, nat_key,
}
use byte_db.HashMap.{HashMap, get, IsDistinct}
use byte_db.HashMap.Laws.{get-remove}
use byte_db.Buffer.Replacer.{
  LruKReplacer, forget_frame, Search, no_victim, consider, consider_all, consider_accesses, evict,
}
use byte_db.Buffer.Replacer.Histories.{IsPast, IsTracked, Reach, Reach-k, Reach-IsTracked}

-- the loop so far: nothing found, or an evictable frame of the map
abbrev Holds : HashMap ℕ Bool → Search → Type 0
Holds m s = (s ≡ no_victim) ⊎ ((f : ℕ) × (s.victim ≡ some f) × (get m f ≡ some true))

first_taken :
    (k now f : ℕ) (h : List ℕ)
    → 2 ≤ k
    → IsPast now h
    → (consider_accesses k now f h no_victim).victim ≡ some f
first_taken k now f h two p = elim (Bool-cases (ltb (length h) k)) [
  | inl y ↦ rw y refl
  | inr n ↦
      let long : 2 ≤ length h = ground (arith, n, two) in
      let older : ltb 0 (now - get_or h 0 0) ≡ true = ground (arith, p.begun long) in
      rw n (rw older refl)
]

taken_or_kept :
    (k now f : ℕ) (h : List ℕ) (s : Search)
    → let v = (consider_accesses k now f h s).victim in (v ≡ some f) ⊎ (v ≡ s.victim)
taken_or_kept k now f h s = elim (Bool-cases (ltb (length h) k)) [
  | inl y ↦ elim (Bool-cases s.found_less_than_k) [
    | inr n ↦ inl (rw y (rw n refl))
    | inl m ↦ elim (Bool-cases (ltb (get_or h 0 0) s.max_distance)) [
      | inl z ↦ inl (rw y (rw m (rw z refl)))
      | inr w ↦ inr (rw y (rw m (rw w refl)))
    ]
  ]
  | inr n ↦ elim (Bool-cases s.found_less_than_k) [
    | inl m ↦ inr (rw n (rw m refl))
    | inr m ↦ elim (Bool-cases (ltb s.max_distance (now - get_or h 0 0))) [
      | inl z ↦ inl (rw n (rw m (rw z refl)))
      | inr w ↦ inr (rw n (rw m (rw w refl)))
    ]
  ]
]

module _ (r : LruKReplacer) (two : 2 ≤ r.k) (tracked : IsTracked r) where
  abbrev Victim : Option ℕ → Type 0
  Victim v = (g : ℕ) × (v ≡ some g) × (get r.evictable g ≡ some true)

  accesses-Victim :
      (f : ℕ) (a : List ℕ) (s : Search)
      → IsPast r.current_timestamp a
      → get r.evictable f ≡ some true
      → Holds r.evictable s
      → Victim (consider_accesses r.k r.current_timestamp f a s).victim
  accesses-Victim f a s p e (inl none_yet) = (
    f,
    ap (λ t. (consider_accesses r.k r.current_timestamp f a t).victim) none_yet
        ∙ first_taken r.k r.current_timestamp f a two p,
    e,
  )
  accesses-Victim f a s p e (inr (g, v, m)) = elim (taken_or_kept r.k r.current_timestamp f a s) [
    | inl taken ↦ (f, taken, e)
    | inr kept ↦ (g, kept ∙ v, m)
  ]

  -- an evictable frame is taken, or one was
  consider-Victim :
      (f : ℕ) (s : Search)
      → get r.evictable f ≡ some true
      → Holds r.evictable s
      → Victim (consider r f true s).victim
  unfolding consider
  consider-Victim f s e h = elim (Option-cases (get r.access_history f)) [
    | inl unseen ↦ (f, rw (unseen, consider) refl, e)
    | inr (a, seen) ↦ rw (seen, consider) (accesses-Victim f a s (tracked.past f a seen) e h)
  ]

  -- the entries of the rest of the map
  abbrev AreEntries : HashMap ℕ Bool → Type 0
  AreEntries m = (f : ℕ) (b : Bool) → get m f ≡ some b → get r.evictable f ≡ some b

  first_entry :
      (f : ℕ) (b : Bool) (m : HashMap ℕ Bool) → AreEntries ((f, b) ∷ m) → get r.evictable f ≡ some b
  unfolding get
  first_entry f b m a = a f b (ground arith)

  rest_entries :
      (f : ℕ) (b : Bool) (m : HashMap ℕ Bool)
      → IsDistinct ((f, b) ∷ m)
      → AreEntries ((f, b) ∷ m)
      → AreEntries m
  unfolding get
  rest_entries f b m d a g c e = a g c (ground (arith, d.0, e))

  consider-Holds :
      (f : ℕ) (b : Bool) (s : Search)
      → get r.evictable f ≡ some b
      → Holds r.evictable s
      → Holds r.evictable (consider r f b s)
  unfolding consider
  consider-Holds f true s e h = inr (consider-Victim f s e h)
  consider-Holds f false s e h = h

  -- the frame is visited, or a victim stays one
  one_round :
      (f' : ℕ) (b : Bool) (m : HashMap ℕ Bool) (s : Search) (f : ℕ)
      → AreEntries ((f', b) ∷ m)
      → Holds r.evictable s
      → (get ((f', b) ∷ m) f ≡ some true) ⊎ Victim s.victim
      → (get m f ≡ some true) ⊎ Victim (consider r f' b s).victim
  unfolding get consider
  one_round f' true m s f a h w = inr (consider-Victim f' s (first_entry f' true m a) h)
  one_round f' false m s f a h (inr v) = inr v
  one_round f' false m s f a h (inl e) = inl (ground (arith, e))

  consider_all-Victim :
      (m : HashMap ℕ Bool) (s : Search) (f : ℕ)
      → IsDistinct m
      → AreEntries m
      → Holds r.evictable s
      → (get m f ≡ some true) ⊎ Victim s.victim
      → Victim (consider_all r m s).victim
  unfolding consider_all get
  consider_all-Victim [] s f d a h (inl e) = absurd (ground (arith, e))
  consider_all-Victim [] s f d a h (inr v) = v
  consider_all-Victim ((f', b) ∷ m) s f d a h w =
      consider_all-Victim m (consider r f' b s) f d.1 (rest_entries f' b m d a)
        (consider-Holds f' b s (first_entry f' b m a) h) (one_round f' b m s f a h w)

-- In a replacer that calls have reached whose limit of accesses is two or more, and of which some
-- frame is evictable, `evict` gives up an evictable frame, which it then no longer tracks.
pub evict_finds :
    (k : ℕ) {r : LruKReplacer}
    → 2 ≤ k
    → Reach k r
    → (f : ℕ) → get r.evictable f ≡ some true
    → (g : ℕ) × ((evict r).1 ≡ some g)
      × (get r.evictable g ≡ some true)
      × (get (evict r).0.evictable g ≡ none)
      × (get (evict r).0.access_history g ≡ none)
unfolding evict forget_frame
evict_finds k {r} two h f e =
    let tracked = Reach-IsTracked k two h in
    let limit : 2 ≤ r.k = omega (arith, two, Reach-k k h) in
    let v =
      consider_all-Victim r limit tracked r.evictable no_victim f tracked.distinct (λ g b l. l)
        (inl refl) (inl e) in
    let gone = get-remove r.evictable v.0 v.0 in
    let gone' = get-remove r.access_history v.0 v.0 in
    (
      v.0,
      rw (v.1, evict) refl,
      v.2,
      rw (v.1, evict) (ground (arith, gone)),
      rw (v.1, evict) (ground (arith, gone')),
    )
