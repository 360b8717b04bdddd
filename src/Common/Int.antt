-- ===== src/Common/Int.antt =====
-- Signed integers over the native numbers, under the library's names, and their two's complement.
use byte_db.Common.{ℕ, suc, ◌+◌, ◌-◌, ◌<◌, ◌≡◌, Bool, true, false, ltb, ◌==◌, if◌then◌else◌, arith}

-- `negsuc n` is -(n + 1).
pub data ℤ : Type 0 where
  pos : ℕ → ℤ
  negsuc : ℕ → ℤ

abbrev pub ltb_ℤ : ℤ → ℤ → Bool
ltb_ℤ (pos a) (pos b) = ltb a b
ltb_ℤ (pos a) (negsuc b) = false
ltb_ℤ (negsuc a) (pos b) = true
ltb_ℤ (negsuc a) (negsuc b) = ltb b a

abbrev pub eq_ℤ : ℤ → ℤ → Bool
eq_ℤ (pos a) (pos b) = a == b
eq_ℤ (pos a) (negsuc b) = false
eq_ℤ (negsuc a) (pos b) = false
eq_ℤ (negsuc a) (negsuc b) = a == b

-- the integers of a width, from its half range `2 ^ (w - 1)`
abbrev pub IsWord : ℕ → ℤ → Type 0
IsWord half (pos n) = n < half
IsWord half (negsuc n) = n < half

-- the bit pattern of such an integer, as a number
abbrev pub pattern_of : ℕ → ℤ → ℕ
pattern_of half (pos n) = n
pattern_of half (negsuc n) = half + half - suc n

abbrev pub signed : ℕ → ℕ → ℤ
signed half p = if ltb p half then pos p else negsuc (half + half - suc p)

pub signed-pattern_of : (half : ℕ) (z : ℤ) → IsWord half z → signed half (pattern_of half z) ≡ z
signed-pattern_of half (pos n) h = ground arith
signed-pattern_of half (negsuc n) h = ground arith

pub pattern_of_bound : (half : ℕ) (z : ℤ) → IsWord half z → pattern_of half z < half + half
pattern_of_bound half (pos n) h = omega arith
pattern_of_bound half (negsuc n) h = omega arith
