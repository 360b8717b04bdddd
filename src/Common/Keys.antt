-- ===== src/Common/Keys.antt =====
-- Equality of map keys (`Eq + Hash` in the source): an interface with its law, and instances.
use Prim.Native.Nat.{ℕ}
use mathlib.Core.Path.{◌≡◌}
use mathlib.Core.Logic.{◌↔◌}
use mathlib.Core.Bool.{Bool, true, false, ◌&&◌}
use mathlib.Core.List.{List, [], ◌∷◌}
use native.Mathlib.Omega.{arith}
use byte_db.Common.Tests.{◌==◌, ==_iff}

pub record Key {ℓ} (K : Type ℓ) : Type ℓ where
  pub beq : K → K → Bool
  pub beq_iff : (a b : K) → (beq a b ≡ true) ↔ (a ≡ b)

-- `Vec<u8>` and `String` as their bytes
abbrev pub Bytes : Type 0
Bytes = List ℕ

abbrev pub bytes_eq : Bytes → Bytes → Bool
bytes_eq [] [] = true
bytes_eq [] (b ∷ bs) = false
bytes_eq (a ∷ xs) [] = false
bytes_eq (a ∷ xs) (b ∷ bs) = a == b && bytes_eq xs bs

pub bytes_eq_iff : (a b : Bytes) → (bytes_eq a b ≡ true) ↔ (a ≡ b)
bytes_eq_iff [] [] = ground arith
bytes_eq_iff [] (b ∷ bs) = ground arith
bytes_eq_iff (a ∷ xs) [] = ground arith
bytes_eq_iff (a ∷ xs) (b ∷ bs) = ground (arith, bytes_eq_iff xs bs)

instance abbrev pub nat_key : Key ℕ
nat_key = record { beq = ◌==◌; beq_iff = ==_iff }

instance abbrev pub bytes_key : Key Bytes
bytes_key = record { beq = bytes_eq; beq_iff = bytes_eq_iff }

module _ {A B : Type 0} ⦃a : Key A⦄ ⦃b : Key B⦄ where
  abbrev pub pair_eq : A × B → A × B → Bool
  pair_eq p q = a.beq p.0 q.0 && b.beq p.1 q.1

  pub pair_eq_iff : (p q : A × B) → (pair_eq p q ≡ true) ↔ (p ≡ q)
  pair_eq_iff p q = ground (arith, a.beq_iff p.0 q.0, b.beq_iff p.1 q.1)

  instance abbrev pub pair_key : Key (A × B)
  pair_key = record { beq = pair_eq; beq_iff = pair_eq_iff }
