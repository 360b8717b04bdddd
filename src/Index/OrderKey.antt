-- ===== src/Index/OrderKey.antt =====
-- bytedb-core/src/index/order_key.rs: the encoding of values as index keys, which are compared byte by
-- byte. `^ (1 << (w - 1))` on a word of `w` bits flips its highest bit, and `!` is the difference to
-- the highest word.
pub mod Bytewise
pub mod Ordered
use byte_db.Common.{
  ℕ, zero, suc, ◌+◌, ◌-◌, ◌/◌, ◌%◌, ◌==◌, Bool, true, false, List, [], ◌∷◌, ◌++◌, ltb, leb,
  if◌then◌else◌, Bytes,
}
use byte_db.Common.Int.{ℤ, pattern_of}
use byte_db.Tuple.Value.{Value}
use byte_db.Tuple.Codec.{JsonLibrary, half32, half64, half128}

-- `to_be_bytes`
abbrev pub to_be_bytes : ℕ → ℕ → Bytes
to_be_bytes zero n = []
to_be_bytes (suc w) n = to_be_bytes w (n / 256) ++ n % 256 ∷ []

-- from the half range of the word
abbrev pub flip_top : ℕ → ℕ → ℕ
flip_top half p = if ltb p half then p + half else p - half

-- `to_bits` of a float, put in order
abbrev pub ordered_bits : ℕ → ℕ
ordered_bits bits = if leb half64 bits then half64 + half64 - 1 - bits else bits + half64

unfoldable pub encode_var : Bytes → Bytes
encode_var [] = 0 ∷ 0 ∷ []
encode_var (b ∷ bytes) = if b == 0 then 0 ∷ 255 ∷ encode_var bytes else b ∷ encode_var bytes

module _ {J : Type 0} (json_lib : JsonLibrary J) where
  unfoldable pub encode_body : Value J → Bytes
  unfolding encode_var
  encode_body Value.null = []
  encode_body (Value.bool b) = (if b then 1 else 0) ∷ []
  encode_body (Value.int64 n) = to_be_bytes 8 (flip_top half64 (pattern_of half64 n))
  encode_body (Value.timestamp n) = to_be_bytes 8 (flip_top half64 (pattern_of half64 n))
  encode_body (Value.interval n) = to_be_bytes 8 (flip_top half64 (pattern_of half64 n))
  encode_body (Value.date d) = to_be_bytes 4 (flip_top half32 (pattern_of half32 d))
  encode_body (Value.float64 f) = to_be_bytes 8 (ordered_bits f)
  encode_body (Value.decimal m scale) = to_be_bytes 16 (flip_top half128 (pattern_of half128 m))
  encode_body (Value.uuid b) = b
  encode_body (Value.text s) = encode_var s
  encode_body (Value.json j) = encode_var (json_lib.to_string j)
  encode_body (Value.bytes b) = encode_var b

  unfoldable pub encode_one : Value J → Bytes
  encode_one Value.null = 0 ∷ []
  encode_one other = 1 ∷ encode_body other

  -- `encode_okey`, `encode_okey_owned`, and what `encode_okey_into` adds
  unfoldable pub encode_okey : List (Value J) → Bytes
  encode_okey [] = []
  encode_okey (v ∷ values) = encode_one v ++ encode_okey values
