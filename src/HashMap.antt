-- ===== src/HashMap.antt =====
-- `std::collections::HashMap` as an association list, with what the code uses of it. The order of
-- the list stands for the unspecified order of iteration; the proofs are in the child.
pub mod Laws
use byte_db.Common.{
  ℕ, ◌≡◌, Bool, true, false, Option, none, some, List, [], ◌∷◌, if◌then◌else◌, Key, length, map,
}

abbrev pub HashMap {ℓ κ} : Type ℓ → Type κ → Type (ℓ ⊔ κ)
HashMap K V = List (K × V)

module _ {ℓ κ} {K : Type ℓ} {V : Type κ} ⦃e : Key K⦄ where
  unfoldable pub get : HashMap K V → K → Option V
  get [] k = none
  get ((j, v) ∷ m) k = if e.beq j k then some v else get m k

  unfoldable pub contains_key : HashMap K V → K → Bool
  contains_key [] k = false
  contains_key ((j, v) ∷ m) k = if e.beq j k then true else contains_key m k

  -- replaces the value of a key that is there
  unfoldable pub insert : HashMap K V → K → V → HashMap K V
  insert [] k v = (k, v) ∷ []
  insert ((j, w) ∷ m) k v = if e.beq j k then (k, v) ∷ m else (j, w) ∷ insert m k v

  unfoldable pub remove : HashMap K V → K → HashMap K V
  remove [] k = []
  remove ((j, w) ∷ m) k = let rest = remove m k in if e.beq j k then rest else (j, w) ∷ rest

  -- every key once
  abbrev pub IsDistinct : HashMap K V → Type κ
  IsDistinct [] = Unit
  IsDistinct ((j, v) ∷ m) = (get m j ≡ none) × IsDistinct m

module _ {ℓ κ} {K : Type ℓ} {V : Type κ} where
  abbrev pub keys : HashMap K V → List K
  keys [] = []
  keys ((j, v) ∷ m) = j ∷ keys m

  abbrev pub values : HashMap K V → List V
  values [] = []
  values ((j, v) ∷ m) = v ∷ values m

  -- `retain(|_, v| { change v; keep or not })`: `f` returns the changed value, or `none` to drop it
  unfoldable pub retain_values : (V → Option V) → HashMap K V → HashMap K V
  retain_values f [] = []
  retain_values f ((j, v) ∷ m) =
      let rest = retain_values f m in elim (f v) [ none ↦ rest | some w ↦ (j, w) ∷ rest ]

module _ {ℓ κ} {K : Type ℓ} {V : Type κ} ⦃e : Key K⦄ where
  -- `entry(k).or_insert(d)`: the map after it, and the value that is there then
  unfoldable pub entry_or : HashMap K V → K → V → HashMap K V × V
  unfolding get contains_key insert
  entry_or m k d = elim (get m k) [ some v ↦ (m, v) | none ↦ (insert m k d, d) ]
