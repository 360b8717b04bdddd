-- ===== src/Tuple/RoundTrip.antt =====
-- What is decoded is what was encoded.
use byte_db.Common.{
  ℕ, ◌+◌, ◌≡◌, ◌<◌, refl, sym, ap, ◌∙◌, Bool, true, false, Option, none, some, [], ◌∷◌, ◌++◌,
  length, length-append, take, take-append, get_or, arith, Bytes, Option-cases, inl, inr,
}
use byte_db.Common.Int.{ℤ, pattern_of, signed, IsWord, signed-pattern_of, pattern_of_bound}
use byte_db.Common.LeBytes.{powers, to_le_bytes, from_le_bytes, from_le_bytes-to_le_bytes}
use byte_db.Tuple.Value.{Value}
use byte_db.Tuple.Compress.{Compressors, compress, IsLossless}
use byte_db.Tuple.Packed.{compress-IsPacked, decode_value-packed}
use byte_db.Tuple.Codec.{
  JsonLibrary, half32, half64, half128, i64_bytes, counted, encode_value, decode_value, fixed,
  variable, length_at, parse_json,
}

module _ {J : Type 0} (libs : Compressors) (json_lib : JsonLibrary J) where
  -- the values that the types of the source allow, of a size that the length field has room for,
  -- and documents that the JSON library gives back
  abbrev pub IsEncodable : Value J → Type 0
  IsEncodable Value.null = Unit
  IsEncodable (Value.bool b) = Unit
  IsEncodable (Value.int64 n) = IsWord half64 n
  IsEncodable (Value.float64 f) = f < 18446744073709551616
  IsEncodable (Value.text s) = length s < 4294967296
  IsEncodable (Value.bytes b) = length b < 4294967296
  IsEncodable (Value.json j) =
      (length (json_lib.to_string j) < 4294967296)
      × (json_lib.from_utf8 (json_lib.to_string j) ≡ true)
      × (json_lib.from_str (json_lib.to_string j) ≡ some j)
  IsEncodable (Value.timestamp t) = IsWord half64 t
  IsEncodable (Value.date d) = IsWord half32 d
  IsEncodable (Value.decimal m s) = IsWord half128 m
  IsEncodable (Value.uuid b) = length b ≡ 16
  IsEncodable (Value.interval us) = IsWord half64 us

  fixed_back :
      (n tag : ℕ) (x post : Bytes) (f : Bytes → Value J)
      → length x ≡ n
      → fixed libs json_lib n (tag ∷ x ++ post) f ≡ some (f x, 1 + n)
  fixed_back n tag x post f h =
      rw (sym h) (rw (take-append x post) (ground (arith, length-append x post)))

  length_at-counted :
      (tag : ℕ) (s post : Bytes)
      → length s < 4294967296
      → length_at libs json_lib (tag ∷ counted s ++ post) ≡ length s
  length_at-counted tag s post h = from_le_bytes-to_le_bytes 4 (length s) (omega arith)

  -- the value that `f` makes of the counted bytes
  abbrev with_size : ℕ → Option (Value J) → Option (Value J × ℕ)
  with_size n none = none
  with_size n (some v) = some (v, n)

  variable_back :
      (tag : ℕ) (s post : Bytes) (f : Bytes → Option (Value J)) (v : Value J)
      → length s < 4294967296
      → f s ≡ some v
      → variable libs json_lib (tag ∷ counted s ++ post) f ≡ some (v, 5 + length s)
  variable_back tag s post f v h e =
      rw (length_at-counted tag s post h)
        (rw (take-append s post) (rw e (ground (arith, length-append s post))))

  word_back :
      (half : ℕ) (w : ℕ) (n : ℤ)
      → IsWord half n
      → pattern_of half n < powers w
      → signed half (from_le_bytes (to_le_bytes w (pattern_of half n))) ≡ n
  word_back half w n h p =
      ap (signed half) (from_le_bytes-to_le_bytes w (pattern_of half n) p)
      ∙ signed-pattern_of half n h

  i64_back : (n : ℤ) → IsWord half64 n → signed half64 (from_le_bytes (i64_bytes n)) ≡ n
  i64_back n h = word_back half64 8 n h (omega (arith, pattern_of_bound half64 n h))

  counted_back :
      (tag : ℕ) (s post : Bytes) (f : Bytes → Option (Value J)) (v : Value J)
      → length s < 4294967296
      → f s ≡ some v
      → variable libs json_lib (tag ∷ counted s ++ post) f ≡ some (v, length (tag ∷ counted s))
  counted_back tag s post f v h e =
      let size : 5 + length s ≡ length (tag ∷ counted s) = omega arith in
      variable_back tag s post f v h e ∙ ap (λ n. some (v, n)) size

  parse_json_back :
      (j : J)
      → IsEncodable (Value.json j)
      → parse_json libs json_lib (json_lib.to_string j) ≡ some (Value.json j)
  parse_json_back j h = rw h.1 (rw h.2 refl)

  bool_back :
      (b : Bool) (post : Bytes)
      → decode_value libs json_lib (encode_value libs json_lib (Value.bool b) ++ post)
        ≡ some (Value.bool b, 2)
  unfolding decode_value encode_value
  bool_back true post = ground arith
  bool_back false post = ground arith

  decimal_back :
      (m : ℤ) (s : ℕ) (post : Bytes)
      → IsWord half128 m
      → decode_value libs json_lib (encode_value libs json_lib (Value.decimal m s) ++ post)
        ≡ some (Value.decimal m s, 18)
  unfolding decode_value encode_value
  decimal_back m s post h =
      fixed_back 17 9 (to_le_bytes 16 (pattern_of half128 m) ++ s ∷ []) post
        (λ b. Value.decimal (signed half128 (from_le_bytes (take 16 b))) (get_or b 16 0)) refl
      ∙ ap (λ z. some (Value.decimal z s, 18))
          (word_back half128 16 m h (omega (arith, pattern_of_bound half128 m h)))

  date_back :
      (d : ℤ)
      → IsWord half32 d
      → signed half32 (from_le_bytes (to_le_bytes 4 (pattern_of half32 d))) ≡ d
  date_back d h = word_back half32 4 d h (omega (arith, pattern_of_bound half32 d h))

  module _ (lossless : IsLossless libs) where
    bytes_back :
        (b post : Bytes)
        → length b < 4294967296
        → decode_value libs json_lib (encode_value libs json_lib (Value.bytes b) ++ post)
          ≡ some (Value.bytes b, length (encode_value libs json_lib (Value.bytes b)))
    unfolding encode_value
    bytes_back b post h = elim (Option-cases (compress libs b)) [
      | inl e ↦
          rw (e, encode_value)
            (unfold decode_value in
              counted_back 5 b post (λ x. some (Value.bytes x)) (Value.bytes b) h refl)
      | inr ((c, algo), e) ↦
          rw (e, encode_value)
            (decode_value-packed libs json_lib b c post (compress-IsPacked libs lossless b c algo e)
              h)
    ]

    -- one value, whatever follows it
    pub decode_value-encode_value :
        (v : Value J) (post : Bytes)
        → IsEncodable v
        → decode_value libs json_lib (encode_value libs json_lib v ++ post)
          ≡ some (v, length (encode_value libs json_lib v))
    unfolding decode_value encode_value
    decode_value-encode_value Value.null post h = refl
    decode_value-encode_value (Value.bool b) post h = bool_back b post
    decode_value-encode_value (Value.int64 n) post h =
        fixed_back 8 2 (i64_bytes n) post (λ b. Value.int64 (signed half64 (from_le_bytes b))) refl
        ∙ ap (λ z. some (Value.int64 z, 9)) (i64_back n h)
    decode_value-encode_value (Value.float64 f) post h =
        fixed_back 8 3 (to_le_bytes 8 f) post (λ b. Value.float64 (from_le_bytes b)) refl
        ∙ ap (λ z. some (Value.float64 z, 9)) (from_le_bytes-to_le_bytes 8 f (omega arith))
    decode_value-encode_value (Value.text s) post h =
        counted_back 4 s post (λ x. some (Value.text x)) (Value.text s) h refl
    decode_value-encode_value (Value.bytes b) post h = bytes_back b post h
    decode_value-encode_value (Value.json j) post h =
        counted_back 6 (json_lib.to_string j) post (parse_json libs json_lib) (Value.json j) h.0
          (parse_json_back j h)
    decode_value-encode_value (Value.timestamp t) post h =
        fixed_back 8 7 (i64_bytes t) post (λ b. Value.timestamp (signed half64 (from_le_bytes b)))
          refl
        ∙ ap (λ z. some (Value.timestamp z, 9)) (i64_back t h)
    decode_value-encode_value (Value.date d) post h =
        fixed_back 4 8 (to_le_bytes 4 (pattern_of half32 d)) post
          (λ b. Value.date (signed half32 (from_le_bytes b))) refl
        ∙ ap (λ z. some (Value.date z, 5)) (date_back d h)
    decode_value-encode_value (Value.decimal m s) post h = decimal_back m s post h
    decode_value-encode_value (Value.uuid b) post h =
        let size : 17 ≡ length (10 ∷ b) = omega (arith, h) in
        fixed_back 16 10 b post (λ b. Value.uuid b) h ∙ ap (λ n. some (Value.uuid b, n)) size
    decode_value-encode_value (Value.interval us) post h =
        fixed_back 8 11 (i64_bytes us) post (λ b. Value.interval (signed half64 (from_le_bytes b)))
          refl
        ∙ ap (λ z. some (Value.interval z, 9)) (i64_back us h)
