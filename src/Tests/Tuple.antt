-- ===== src/Tests/Tuple.antt =====
-- Witnesses for the properties of the row encoding, with compressors that put a byte in front and
-- a JSON library whose documents are texts.
use byte_db.Common.{◌≡◌, ◌≤◌, refl, true, none, some, [], ◌∷◌, All, length, drop, arith, Bytes}
use byte_db.Common.Int.{pos, negsuc}
use byte_db.Tuple.Value.{Value}
use byte_db.Tuple.Compress.{Compressors, IsLossless, compress, decompress}
use byte_db.Tuple.Codec.{JsonLibrary, decode_value, skip_value}
use byte_db.Tuple.RoundTrip.{IsEncodable}
use byte_db.Tuple.Row.{Tuple, serialize, deserialize, field, read_value_at}
use byte_db.Tuple.Row.Back.{serialize_roundtrip}
use byte_db.Tuple.Row.Columns.{IsPlain, read_value_at-serialize}
use byte_db.Tuple.Row.Skips.{decode_in_bounds, skip_after_decode}

abbrev marked : Compressors
marked = record {
  lz4_compress = λ b. 0 ∷ b;
  lz4_decompress = λ b n. some (drop 1 b);
  zstd_compress = λ b. none;
  zstd_decompress = λ b. none;
}

marked-IsLossless : IsLossless marked
marked-IsLossless = record {
  lz4_back = λ b. refl;
  lz4_some = λ b. omega arith;
  zstd_back = λ b c e. absurd (ground (arith, e));
  zstd_some = λ b c e. absurd (ground (arith, e));
}

abbrev texts : JsonLibrary Bytes
texts = record { to_string = λ j. j; from_str = λ s. some s; from_utf8 = λ s. true }

abbrev user_row : Tuple Bytes
user_row = record {
  values =
      Value.int64 (negsuc 6)
      ∷ Value.text (97 ∷ 98 ∷ [])
      ∷ Value.null
      ∷ Value.bytes (1 ∷ 2 ∷ [])
      ∷ Value.decimal (pos 125) 2
      ∷ [];
}

user_row-IsEncodable : All (IsEncodable marked texts) user_row.values
user_row-IsEncodable = (omega arith, (omega arith, (tt, (omega arith, (omega arith, tt)))))

user_row-IsPlain : All (IsPlain marked texts) user_row.values
unfolding compress
user_row-IsPlain = (tt, (tt, (tt, (refl, (tt, tt)))))

serialize_roundtrip_example :
    deserialize marked texts (serialize marked texts user_row) ≡ some user_row
serialize_roundtrip_example =
    serialize_roundtrip marked texts marked-IsLossless user_row user_row-IsEncodable (omega arith)

read_value_at-serialize_example :
    read_value_at marked texts (serialize marked texts user_row) 4 ≡ field user_row 4
read_value_at-serialize_example =
    read_value_at-serialize marked texts marked-IsLossless user_row 4 user_row-IsEncodable
      user_row-IsPlain (omega arith) (omega arith)

-- two bytes, compressed to three
abbrev frame : Bytes
frame = 12 ∷ 2 ∷ 0 ∷ 0 ∷ 0 ∷ 0 ∷ 0 ∷ 0 ∷ 0 ∷ 3 ∷ 0 ∷ 0 ∷ 0 ∷ 0 ∷ 7 ∷ 8 ∷ []

frame-decoded : decode_value marked texts frame ≡ some (Value.bytes (7 ∷ 8 ∷ []), 16)
unfolding decode_value decompress
frame-decoded = refl

decode_in_bounds_example : (1 ≤ 16) × (16 ≤ length frame)
decode_in_bounds_example =
    decode_in_bounds marked texts frame (Value.bytes (7 ∷ 8 ∷ [])) 16 frame-decoded

skip_after_decode_example : skip_value frame ≡ some 17
skip_after_decode_example =
    skip_after_decode marked texts frame (Value.bytes (7 ∷ 8 ∷ [])) 16 frame-decoded
