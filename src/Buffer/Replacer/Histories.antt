-- ===== src/Buffer/Replacer/Histories.antt =====
-- The histories of accesses that calls leave.
use mathlib.Core.Option.{some-injective}
use mathlib.Core.Path.{subst}
use byte_db.Common.{
  ℕ, ◌+◌, ◌≡◌, ◌≤◌, ◌<◌, ◌==◌, inl, inr, refl, sym, ap, ◌∙◌, Bool, false, Bool-cases, some,
  Option-cases, List, [], ◌∷◌, ◌++◌, ◌%◌, ltb, All, All-append, length, get_or, arith, nat_key,
}
use byte_db.HashMap.{get, IsDistinct, entry_or}
use byte_db.HashMap.Laws.{get-remove, get-insert-entry_or, insert-IsDistinct, remove-IsDistinct}
use byte_db.Buffer.Replacer.{
  LruKReplacer, new, pushed, record_access, set_evictable, forget_frame, no_victim, consider_all,
  evict,
}

-- a history at a time: not of the future, and begun before if it has two accesses
pub record IsPast (now : ℕ) (accesses : List ℕ) : Type 0 where
  pub until_now : All (λ t. t ≤ now) accesses
  pub begun : 2 ≤ length accesses → get_or accesses 0 0 < now

pub record IsTracked (r : LruKReplacer) : Type 0 where
  pub past : (f : ℕ) (h : List ℕ) → get r.access_history f ≡ some h → IsPast r.current_timestamp h
  pub distinct : IsDistinct r.evictable

-- what the calls make of a new replacer, before the clock has run out
pub data Reach (k : ℕ) : LruKReplacer → Type 0 where
  start : Reach k (new k)
  accessed :
      {r : LruKReplacer} (f : ℕ)
      → r.current_timestamp + 1 < 18446744073709551616
      → Reach k r
      → Reach k (record_access r f)
  marked : {r : LruKReplacer} (f : ℕ) (b : Bool) → Reach k r → Reach k (set_evictable r f b)
  evicted : {r : LruKReplacer} → Reach k r → Reach k (evict r).0
  removed : {r : LruKReplacer} (f : ℕ) → Reach k r → Reach k (forget_frame r f)

pub Reach-k : (k : ℕ) {r : LruKReplacer} → Reach k r → r.k ≡ k
unfolding new record_access set_evictable evict forget_frame
Reach-k k start = refl
Reach-k k (accessed f h r) = Reach-k k r
Reach-k k (marked f b r) = Reach-k k r
Reach-k k (evicted {r} h) = ground (arith, Reach-k k h)
Reach-k k (removed f r) = Reach-k k r

IsPast-later : (now : ℕ) (h : List ℕ) → All (λ t. t ≤ now) h → All (λ t. t ≤ now + 1) h
IsPast-later now [] a = tt
IsPast-later now (t ∷ h) a = (omega (arith, a.0), IsPast-later now h a.1)

older-IsPast : (now : ℕ) (h : List ℕ) → IsPast now h → IsPast (now + 1) h
older-IsPast now h p = record {
  until_now = IsPast-later now h p.until_now;
  begun = λ two. omega (arith, p.begun two);
}

-- an access is added to older ones
added-IsPast :
    (now a : ℕ) (t : List ℕ)
    → All (λ t. t ≤ now) (a ∷ t)
    → IsPast (now + 1) ((a ∷ t) ++ (now + 1) ∷ [])
added-IsPast now a t h = record {
  until_now =
      All-append (λ t. t ≤ now + 1) (a ∷ t) ((now + 1) ∷ []) (IsPast-later now (a ∷ t) h)
        (omega arith, tt);
  begun = λ two. omega (arith, h.0);
}

-- with a limit of two or more, an older access is left
pushed-IsPast :
    (k now : ℕ) (h : List ℕ) → 2 ≤ k → IsPast now h → IsPast (now + 1) (pushed k h (now + 1))
pushed-IsPast k now [] two p =
    let short : ltb k 1 ≡ false = ground arith in
    rw short (record { until_now = (omega arith, tt); begun = λ two. absurd (omega (arith, two)) })
pushed-IsPast k now (a ∷ []) two p =
    let short : ltb k 2 ≡ false = ground arith in rw short (added-IsPast now a [] p.until_now)
pushed-IsPast k now (a ∷ b ∷ t) two p =
    elim (Bool-cases (ltb k (length ((a ∷ b ∷ t) ++ (now + 1) ∷ [])))) [
      | inl y ↦ rw y (added-IsPast now b t p.until_now.1)
      | inr n ↦ rw n (added-IsPast now a (b ∷ t) p.until_now)
    ]

entry-IsPast :
    (r : LruKReplacer) (f : ℕ)
    → IsTracked r
    → IsPast r.current_timestamp (entry_or r.access_history f []).1
unfolding entry_or
entry-IsPast r f h = elim (Option-cases (get r.access_history f)) [
  | inl e ↦ rw (e, entry_or) (record { until_now = tt; begun = λ two. absurd (omega (arith, two)) })
  | inr (a, e) ↦ rw (e, entry_or) (h.past f a e)
]

accessed-IsTracked :
    (r : LruKReplacer) (f : ℕ)
    → 2 ≤ r.k
    → r.current_timestamp + 1 < 18446744073709551616
    → IsTracked r
    → IsTracked (record_access r f)
unfolding record_access
accessed-IsTracked r f two early h =
    let now = r.current_timestamp in
    let next : (now + 1) % 18446744073709551616 ≡ now + 1 = omega (arith, early) in
    let entry = (entry_or r.access_history f []).1 in
    let written = pushed r.k entry ((now + 1) % 18446744073709551616) in
    let new_one = pushed-IsPast r.k now entry two (entry-IsPast r f h) in
    record {
      past = λ g a e.
          let read = sym (get-insert-entry_or r.access_history f [] written g) ∙ e in
          rw next (elim (Bool-cases (f == g)) [
            | inl y ↦
                let same : written ≡ a = some-injective written a (rw y at read) in
                subst (IsPast (now + 1)) (sym (ap (pushed r.k entry) next) ∙ same) new_one
            | inr n ↦ older-IsPast now a (h.past g a (rw n at read))
          ]);
      distinct = h.distinct;
    }

forgotten-IsTracked : (r : LruKReplacer) (f : ℕ) → IsTracked r → IsTracked (forget_frame r f)
unfolding forget_frame
forgotten-IsTracked r f h = record {
  past = λ g a e. h.past g a (ground (arith, e, get-remove r.access_history f g));
  distinct = remove-IsDistinct r.evictable f h.distinct;
}

evicted-IsTracked : (r : LruKReplacer) → IsTracked r → IsTracked (evict r).0
unfolding evict
evicted-IsTracked r h = elim (Option-cases (consider_all r r.evictable no_victim).victim) [
  | inl e ↦ rw (e, evict) h
  | inr (f, e) ↦ rw (e, evict) (forgotten-IsTracked r f h)
]

pub Reach-IsTracked : (k : ℕ) {r : LruKReplacer} → 2 ≤ k → Reach k r → IsTracked r
unfolding new set_evictable get
Reach-IsTracked k two start = record { past = λ f a e. absurd (ground (arith, e)); distinct = tt }
Reach-IsTracked k two (accessed {r} f early h) =
    accessed-IsTracked r f (omega (arith, two, Reach-k k h)) early (Reach-IsTracked k two h)
Reach-IsTracked k two (marked {r} f b h) =
    let t = Reach-IsTracked k two h in
    record { past = t.past; distinct = insert-IsDistinct r.evictable f b t.distinct }
Reach-IsTracked k two (evicted {r} h) = evicted-IsTracked r (Reach-IsTracked k two h)
Reach-IsTracked k two (removed {r} f h) = forgotten-IsTracked r f (Reach-IsTracked k two h)
