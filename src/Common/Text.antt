-- ===== src/Common/Text.antt =====
-- Texts as their bytes, and the decimal form of a number.
use Prim.Native.Char.{code}
use Prim.Native.String.{String}
use byte_db.Common.{ℕ, zero, suc, ◌+◌, ◌/◌, ◌%◌, [], ◌∷◌, ◌++◌, ltb, if◌then◌else◌, Bytes}

-- of an ASCII text
abbrev pub codes : String → Bytes
codes String.[] = []
codes (String.◌∷◌ c s) = code c ∷ codes s

digits : ℕ → ℕ → Bytes
digits zero n = []
digits (suc fuel) n =
    let rest = digits fuel (n / 10) in
    if ltb n 10 then (48 + n) ∷ [] else rest ++ (48 + n % 10) ∷ []

-- there are no more digits than `n + 1`
unfoldable pub to_string : ℕ → Bytes
unfolding digits
to_string n = digits (n + 1) n
