-- ===== src/Common/LeBytes.antt =====
-- `to_le_bytes` and `from_le_bytes`, and the reading of a byte sequence piece by piece.
use byte_db.Common.{ℕ, zero, suc, ◌+◌, ◌*◌, ◌/◌, ◌%◌, ◌≡◌, ◌<◌, [], ◌∷◌, arith, Bytes, length, refl}

abbrev pub to_le_bytes : ℕ → ℕ → Bytes
to_le_bytes zero n = []
to_le_bytes (suc w) n = n % 256 ∷ to_le_bytes w (n / 256)

abbrev pub from_le_bytes : Bytes → ℕ
from_le_bytes [] = 0
from_le_bytes (b ∷ bs) = b + 256 * from_le_bytes bs

abbrev pub powers : ℕ → ℕ
powers zero = 1
powers (suc w) = 256 * powers w

pub from_le_bytes-to_le_bytes : (w n : ℕ) → n < powers w → from_le_bytes (to_le_bytes w n) ≡ n
from_le_bytes-to_le_bytes zero n h = omega arith
from_le_bytes-to_le_bytes (suc w) n h =
    omega (arith, from_le_bytes-to_le_bytes w (n / 256) (omega arith))

pub length-to_le_bytes : (w n : ℕ) → length (to_le_bytes w n) ≡ w
length-to_le_bytes zero n = refl
length-to_le_bytes (suc w) n = omega (arith, length-to_le_bytes w (n / 256))
