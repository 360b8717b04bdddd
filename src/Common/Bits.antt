-- ===== src/Common/Bits.antt =====
-- A mask of low bits is a remainder, for the masks that the code uses.
use Prim.Native.Nat.{ℕ, zero, suc, ◌+◌, ◌*◌, ◌/◌, ◌%◌, ◌≤◌, min, bit_and, digits, bit_and-bitwise}
use mathlib.Core.Path.{◌≡◌, refl}
use native.Mathlib.Omega.{arith}

-- the digit recursion does not depend on its fuel
fuel_irrelevant :
    (p q x y : ℕ) → x ≤ p → x ≤ q → digits (λ b. zero) min p x y ≡ digits (λ b. zero) min q x y
fuel_irrelevant zero zero x y hp hq = refl
fuel_irrelevant zero (suc q) zero y hp hq = refl
fuel_irrelevant zero (suc q) (suc x) y hp hq = absurd (omega arith)
fuel_irrelevant (suc p) zero zero y hp hq = refl
fuel_irrelevant (suc p) zero (suc x) y hp hq = absurd (omega arith)
fuel_irrelevant (suc p) (suc q) zero y hp hq = refl
fuel_irrelevant (suc p) (suc q) (suc x) y hp hq =
    omega (arith, fuel_irrelevant p q (suc x / 2) (y / 2) (omega arith) (omega arith))

lowest_digit : (x y : ℕ) → bit_and x y ≡ bit_and (x / 2) (y / 2) * 2 + min (x % 2) (y % 2)
lowest_digit zero y = omega (arith, bit_and-bitwise 0 y, bit_and-bitwise 0 (y / 2))
lowest_digit (suc x) y = omega (
  arith,
  bit_and-bitwise (suc x) y,
  bit_and-bitwise (suc x / 2) (y / 2),
  fuel_irrelevant x (suc x / 2) (suc x / 2) (y / 2) (omega arith) (omega arith),
)

mask_nothing : (fuel x : ℕ) → x ≤ fuel → bit_and x 0 ≡ 0
mask_nothing fuel zero h = refl
mask_nothing zero (suc x) h = absurd (omega arith)
mask_nothing (suc fuel) (suc x) h =
    omega (arith, lowest_digit (suc x) 0, mask_nothing fuel (suc x / 2) (omega arith))

pub bit_and-one : (x : ℕ) → bit_and x 1 ≡ x % 2
bit_and-one x = omega (arith, lowest_digit x 1, mask_nothing (x / 2) (x / 2) (omega arith))

pub bit_and_three : (x : ℕ) → bit_and x 3 ≡ x % 4
bit_and_three x = omega (arith, lowest_digit x 3, bit_and-one (x / 2))

pub bit_and_fifteen : (x : ℕ) → bit_and x 15 ≡ x % 16
bit_and_fifteen x =
    omega (arith, lowest_digit x 15, lowest_digit (x / 2) 7, bit_and_three (x / 2 / 2))

-- `h & (64 - 1)`
pub bit_and_sixty_three : (x : ℕ) → bit_and x 63 ≡ x % 64
bit_and_sixty_three x =
    omega (arith, lowest_digit x 63, lowest_digit (x / 2) 31, bit_and_fifteen (x / 2 / 2))
