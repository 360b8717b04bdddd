-- ===== src/Tuple/Codec.antt =====
-- bytedb-core/src/tuple/tuple.rs: the encoding of one value. Where the source has the bytes and a
-- position in them, the model has the bytes from that position on, and a function that returns
-- the position after the value returns the number of bytes up to it.
use byte_db.Common.{
  ℕ, ◌+◌, ◌==◌, ◌||◌, not, Bool, Option, none, some, [], ◌∷◌, ◌++◌, ltb, if◌then◌else◌, length,
  take, drop, get_or, Bytes,
}
use byte_db.Common.Int.{ℤ, pattern_of, signed}
use byte_db.Common.LeBytes.{to_le_bytes, from_le_bytes}
use byte_db.Tuple.Value.{Value}
use byte_db.Tuple.Compress.{Compressors, compress, decompress}

-- the JSON library's printer and parser, and the check that a text is UTF-8
pub record JsonLibrary (J : Type 0) : Type 0 where
  pub to_string : J → Bytes
  pub from_str : Bytes → Option J
  pub from_utf8 : Bytes → Bool

-- half the range of `i32`, `i64` and `i128`
abbrev pub half32 : ℕ
half32 = 2147483648

abbrev pub half64 : ℕ
half64 = 9223372036854775808

abbrev pub half128 : ℕ
half128 = 170141183460469231731687303715884105728

-- `to_le_bytes` of an `i64`
abbrev pub i64_bytes : ℤ → Bytes
i64_bytes n = to_le_bytes 8 (pattern_of half64 n)

-- a length of four bytes, and that many bytes
abbrev pub counted : Bytes → Bytes
counted b = to_le_bytes 4 (length b) ++ b

module _ {J : Type 0} (libs : Compressors) (json_lib : JsonLibrary J) where
  unfoldable pub encode_value : Value J → Bytes
  encode_value Value.null = 0 ∷ []
  encode_value (Value.bool b) = 1 ∷ (if b then 1 else 0) ∷ []
  encode_value (Value.int64 n) = 2 ∷ i64_bytes n
  encode_value (Value.float64 f) = 3 ∷ to_le_bytes 8 f
  encode_value (Value.text s) = 4 ∷ counted s
  encode_value (Value.bytes b) = elim (compress libs b) [
    | some (compressed, algo) ↦ compressed
    | none ↦ 5 ∷ counted b
  ]
  encode_value (Value.json j) = 6 ∷ counted (json_lib.to_string j)
  encode_value (Value.timestamp t) = 7 ∷ i64_bytes t
  encode_value (Value.date d) = 8 ∷ to_le_bytes 4 (pattern_of half32 d)
  encode_value (Value.decimal m s) = 9 ∷ to_le_bytes 16 (pattern_of half128 m) ++ s ∷ []
  encode_value (Value.uuid b) = 10 ∷ b
  encode_value (Value.interval us) = 11 ∷ i64_bytes us

  -- `n` bytes after the tag, unless the data ends before
  abbrev pub fixed : ℕ → Bytes → (Bytes → Value J) → Option (Value J × ℕ)
  fixed n rest f =
      if ltb (length rest) (1 + n) then none else some (f (take n (drop 1 rest)), 1 + n)

  abbrev pub length_at : Bytes → ℕ
  length_at rest = from_le_bytes (take 4 (drop 1 rest))

  -- a length after the tag and that many bytes
  abbrev pub variable : Bytes → (Bytes → Option (Value J)) → Option (Value J × ℕ)
  variable rest f =
      if ltb (length rest) 5
      then none
      else if ltb (length rest) (5 + length_at rest)
      then none
      else elim (f (take (length_at rest) (drop 5 rest))) [
        | none ↦ none
        | some v ↦ some (v, 5 + length_at rest)
      ]

  -- the size of the compressed bytes, in the frame of `compress`
  abbrev pub comp_size : Bytes → ℕ
  comp_size rest = from_le_bytes (take 4 (drop 9 rest))

  abbrev pub read_compressed : Bytes → Option (Value J × ℕ)
  read_compressed rest =
      if ltb (length rest) 14
      then none
      else if ltb (length rest) (13 + comp_size rest)
      then none
      else elim (decompress libs (take (13 + comp_size rest) rest)) [
        | none ↦ none
        | some b ↦ some (Value.bytes b, 13 + comp_size rest)
      ]

  abbrev pub parse_json : Bytes → Option (Value J)
  parse_json s =
      if not (json_lib.from_utf8 s)
      then none
      else elim (json_lib.from_str s) [ none ↦ none | some j ↦ some (Value.json j) ]

  abbrev pub decode_tagged : ℕ → Bytes → Option (Value J × ℕ)
  decode_tagged tag rest =
      if tag == 0
      then some (Value.null, 1)
      else if tag == 1
      then fixed 1 rest (λ b. Value.bool (not (get_or b 0 0 == 0)))
      else if tag == 2
      then fixed 8 rest (λ b. Value.int64 (signed half64 (from_le_bytes b)))
      else if tag == 3
      then fixed 8 rest (λ b. Value.float64 (from_le_bytes b))
      else if tag == 4
      then variable rest (λ s. some (Value.text s))
      else if tag == 5
      then variable rest (λ b. some (Value.bytes b))
      else if (tag == 12) || (tag == 13)
      then read_compressed rest
      else if tag == 6
      then variable rest parse_json
      else if tag == 7
      then fixed 8 rest (λ b. Value.timestamp (signed half64 (from_le_bytes b)))
      else if tag == 8
      then fixed 4 rest (λ b. Value.date (signed half32 (from_le_bytes b)))
      else if tag == 9
      then fixed 17 rest
          (λ b. Value.decimal (signed half128 (from_le_bytes (take 16 b))) (get_or b 16 0))
      else if tag == 10
      then fixed 16 rest (λ b. Value.uuid b)
      else if tag == 11
      then fixed 8 rest (λ b. Value.interval (signed half64 (from_le_bytes b)))
      else none

  unfoldable pub decode_value : Bytes → Option (Value J × ℕ)
  decode_value [] = none
  decode_value (tag ∷ rest) = decode_tagged tag (tag ∷ rest)

-- `skip_value`, whose step may lead beyond the end of the data
abbrev pub skip_tagged : ℕ → Bytes → Option ℕ
skip_tagged tag rest =
    if tag == 0
    then some 1
    else if tag == 1
    then some 2
    else if (tag == 2) || (tag == 3) || (tag == 7)
    then some 9
    else if tag == 8
    then some 5
    else if tag == 10
    then some 17
    else if tag == 9
    then some 18
    else if tag == 11
    then some 9
    else if (tag == 12) || (tag == 13)
    then (if ltb (length rest) 13 then none else some (14 + from_le_bytes (take 4 (drop 9 rest))))
    else if tag == 22
    then (if ltb (length rest) 17 then none else some 17)
    else if (tag == 4) || (tag == 5) || (tag == 6)
    then (if ltb (length rest) 5 then none else some (5 + from_le_bytes (take 4 (drop 1 rest))))
    else none

unfoldable pub skip_value : Bytes → Option ℕ
skip_value [] = none
skip_value (tag ∷ rest) = skip_tagged tag (tag ∷ rest)
