-- ===== src/HashMap/Laws.antt =====
-- How the operations of the map read back, each as one equation.
use mathlib.Core.Option.{some-injective}
use mathlib.Core.Path.{subst₂}
use byte_db.Common.{
  inr, inl, Bool, Bool-cases, ◌≡◌, refl, Option, none, some, [], ◌∷◌, arith, if◌then◌else◌, Key,
  is_some,
}
use byte_db.HashMap.{
  HashMap, get, contains_key, insert, remove, retain_values, IsDistinct, entry_or,
}

abbrev pub bind {ℓ} : {V : Type ℓ} → Option V → (V → Option V) → Option V
bind none f = none
bind (some v) f = f v

module _ {ℓ κ} {K : Type ℓ} {V : Type κ} ⦃e : Key K⦄ where
  pub get-insert :
      (m : HashMap K V) (k : K) (v : V) (j : K)
      → get (insert m k v) j ≡ (if e.beq k j then some v else get m j)
  unfolding get insert
  get-insert [] k v j = refl
  get-insert ((i, w) ∷ m) k v j =
      ground (arith, e.beq_iff k j, e.beq_iff i k, e.beq_iff i j, get-insert m k v j)

  pub get-remove :
      (m : HashMap K V) (k j : K) → get (remove m k) j ≡ (if e.beq k j then none else get m j)
  unfolding get remove
  get-remove [] k j = ground arith
  get-remove ((i, w) ∷ m) k j =
      ground (arith, e.beq_iff k j, e.beq_iff i k, e.beq_iff i j, get-remove m k j)

  pub contains_key-eq : (m : HashMap K V) (k : K) → contains_key m k ≡ is_some (get m k)
  unfolding get contains_key
  contains_key-eq [] k = refl
  contains_key-eq ((i, w) ∷ m) k = ground (arith, contains_key-eq m k)

  retain-none :
      (f : V → Option V) (m : HashMap K V) (k : K)
      → get m k ≡ none
      → get (retain_values f m) k ≡ none
  unfolding get retain_values
  retain-none f [] k h = refl
  retain-none f ((i, w) ∷ m) k h = ground (arith, retain-none f m k)

  pub get-retain_values :
      (f : V → Option V) (m : HashMap K V) (k : K)
      → IsDistinct m
      → get (retain_values f m) k ≡ bind (get m k) f
  unfolding get retain_values
  get-retain_values f [] k h = refl
  get-retain_values f ((i, w) ∷ m) k h =
      ground (arith, e.beq_iff i k, retain-none f m i h.0, get-retain_values f m k h.1)

  pub insert-insert : (m : HashMap K V) (k : K) (v w : V) → insert (insert m k v) k w ≡ insert m k w
  unfolding insert
  insert-insert [] k v w = ground (arith, e.beq_iff k k)
  insert-insert ((i, x) ∷ m) k v w = ground (arith, e.beq_iff k k, insert-insert m k v w)

  pub insert-IsDistinct :
      (m : HashMap K V) (k : K) (v : V) → IsDistinct m → IsDistinct (insert m k v)
  unfolding get insert
  insert-IsDistinct [] k v h = (refl, tt)
  insert-IsDistinct ((i, w) ∷ m) k v h =
      ground (arith, e.beq_iff i k, e.beq_iff k i, get-insert m k v i, insert-IsDistinct m k v h.1)

  pub remove-IsDistinct : (m : HashMap K V) (k : K) → IsDistinct m → IsDistinct (remove m k)
  unfolding get remove
  remove-IsDistinct [] k h = tt
  remove-IsDistinct ((i, w) ∷ m) k h = ground (arith, get-remove m k i, remove-IsDistinct m k h.1)

  pub retain_values-IsDistinct :
      (f : V → Option V) (m : HashMap K V) → IsDistinct m → IsDistinct (retain_values f m)
  unfolding get retain_values
  retain_values-IsDistinct f [] h = tt
  retain_values-IsDistinct f ((i, w) ∷ m) h =
      ground (arith, retain-none f m i h.0, retain_values-IsDistinct f m h.1)

  -- a value written through `entry`: other keys read as before
  pub get-insert-entry_or :
      (m : HashMap K V) (k : K) (d v : V) (j : K)
      → get (insert (entry_or m k d).0 k v) j ≡ (if e.beq k j then some v else get m j)
  unfolding entry_or
  get-insert-entry_or m k d v j =
      ground (arith, get-insert m k v j, get-insert (insert m k d) k v j, get-insert m k d j)

  pub entry_or-IsDistinct :
      (m : HashMap K V) (k : K) (d : V) → IsDistinct m → IsDistinct (entry_or m k d).0
  unfolding entry_or
  entry_or-IsDistinct m k d h = ground (arith, insert-IsDistinct m k d h)

-- every entry satisfies `P`
abbrev pub Entries {ℓ κ μ} : {K : Type ℓ} {V : Type κ} → (K → V → Type μ) → HashMap K V → Type μ
Entries P [] = Unit
Entries P ((k, v) ∷ m) = P k v × Entries P m

module _ {ℓ κ μ} {K : Type ℓ} {V : Type κ} ⦃e : Key K⦄ (P : K → V → Type μ) where
  pub Entries-insert :
      (m : HashMap K V) (k : K) (v : V) → P k v → Entries P m → Entries P (insert m k v)
  unfolding insert
  Entries-insert [] k v p h = (p, tt)
  Entries-insert ((j, w) ∷ m) k v p h = ground (arith, Entries-insert m k v p h.1)

  pub Entries-remove : (m : HashMap K V) (k : K) → Entries P m → Entries P (remove m k)
  unfolding remove
  Entries-remove [] k h = tt
  Entries-remove ((j, w) ∷ m) k h = ground (arith, Entries-remove m k h.1)

  pub Entries-get : (m : HashMap K V) (k : K) (v : V) → Entries P m → get m k ≡ some v → P k v
  unfolding get
  Entries-get [] k v h g = cc
  Entries-get ((j, w) ∷ m) k v h g = elim (Bool-cases (e.beq j k)) [
    | inl y ↦
        let jk : j ≡ k = (e.beq_iff j k).0 y in
        let wv : w ≡ v = some-injective w v (rw (y, get) at g) in subst₂ P jk wv h.0
    | inr n ↦ Entries-get m k v h.1 (rw (n, get) at g)
  ]

pub Entries-imp {ℓ κ μ ν} :
    {K : Type ℓ} {V : Type κ} {P : K → V → Type μ} {Q : K → V → Type ν}
    → ((k : K) (v : V) → P k v → Q k v)
    → (m : HashMap K V) → Entries P m
    → Entries Q m
Entries-imp f [] h = tt
Entries-imp f ((k, v) ∷ m) h = (f k v h.0, Entries-imp f m h.1)

pub Entries-retain_values {ℓ κ μ} :
    {K : Type ℓ} {V : Type κ} (P : K → V → Type μ) (f : V → Bool) (m : HashMap K V)
    → Entries P m
    → Entries P (retain_values (λ v. if f v then some v else none) m)
unfolding retain_values
Entries-retain_values P f [] h = tt
Entries-retain_values P f ((k, v) ∷ m) h = ground (arith, Entries-retain_values P f m h.1)
