-- ===== src/Index/OrderKey/Ordered.antt =====
-- Index keys are in the order of the rows' columns.
use Prim.Native.Nat.{Ordering, compare}
use byte_db.Common.{
  ℕ, ◌+◌, ◌-◌, ◌≡◌, ◌<◌, refl, ap, ◌∙◌, Bool, false, List, [], ◌∷◌, ◌++◌, ltb, if◌then◌else◌,
  length, arith, Bytes,
}
use byte_db.Common.Int.{ℤ, pos, negsuc, IsWord, pattern_of}
use byte_db.Common.LeBytes.{powers}
use byte_db.Tuple.Value.{Value, is_null}
use byte_db.Tuple.Codec.{JsonLibrary, half32, half64, half128}
use byte_db.Tuple.Row.{compare_ℤ}
use byte_db.Index.OrderKey.{
  flip_top, ordered_bits, to_be_bytes, encode_body, encode_one, encode_okey,
}
use byte_db.Index.OrderKey.Bytewise.{
  lex, then_with, then_with_eq, lex-to_be_bytes, lex-encode_var, lex-append,
}

-- the sign and the magnitude of a float's bits, -0.0 just below 0.0
abbrev pub float_rank : ℕ → ℤ
float_rank bits = if ltb bits half64 then pos bits else negsuc (bits - half64)

abbrev pub bit : Bool → ℕ
bit b = if b then 1 else 0

module _ {J : Type 0} (json_lib : JsonLibrary J) where
  -- the first value compared with the second is the ordering: a null is before every other value,
  -- texts and documents are in the order of their bytes, decimals of one scale in that of their
  -- mantissas
  pub data Compares : Value J → Value J → Ordering → Type 0 where
    both_null : Compares Value.null Value.null Ordering.eq
    null_first : (w : Value J) → is_null w ≡ false → Compares Value.null w Ordering.lt
    null_second : (v : Value J) → is_null v ≡ false → Compares v Value.null Ordering.gt
    bools : (a b : Bool) → Compares (Value.bool a) (Value.bool b) (compare (bit a) (bit b))
    ints :
        (m n : ℤ)
        → IsWord half64 m
        → IsWord half64 n
        → Compares (Value.int64 m) (Value.int64 n) (compare_ℤ m n)
    timestamps :
        (m n : ℤ)
        → IsWord half64 m
        → IsWord half64 n
        → Compares (Value.timestamp m) (Value.timestamp n) (compare_ℤ m n)
    intervals :
        (m n : ℤ)
        → IsWord half64 m
        → IsWord half64 n
        → Compares (Value.interval m) (Value.interval n) (compare_ℤ m n)
    dates :
        (m n : ℤ)
        → IsWord half32 m
        → IsWord half32 n
        → Compares (Value.date m) (Value.date n) (compare_ℤ m n)
    decimals :
        (m n : ℤ) (scale : ℕ)
        → IsWord half128 m
        → IsWord half128 n
        → Compares (Value.decimal m scale) (Value.decimal n scale) (compare_ℤ m n)
    floats :
        (f g : ℕ)
        → f < half64 + half64
        → g < half64 + half64
        → Compares (Value.float64 f) (Value.float64 g) (compare_ℤ (float_rank f) (float_rank g))
    uuids : (x y : Bytes) → length x ≡ length y → Compares (Value.uuid x) (Value.uuid y) (lex x y)
    texts : (x y : Bytes) → Compares (Value.text x) (Value.text y) (lex x y)
    jsons :
        (i j : J)
        → Compares (Value.json i) (Value.json j) (lex (json_lib.to_string i) (json_lib.to_string j))
    byte_strings : (x y : Bytes) → Compares (Value.bytes x) (Value.bytes y) (lex x y)

  -- two rows of the same columns, by their first difference
  pub data RowCompares : List (Value J) → List (Value J) → Ordering → Type 0 where
    no_column : RowCompares [] [] Ordering.eq
    column_first :
        {v w : Value J} {vs ws : List (Value J)} {o p : Ordering}
        → Compares v w o
        → RowCompares vs ws p
        → RowCompares (v ∷ vs) (w ∷ ws) (then_with o p)

compare-flip_top :
    (half : ℕ) (m n : ℤ)
    → IsWord half m
    → IsWord half n
    → compare (flip_top half (pattern_of half m)) (flip_top half (pattern_of half n))
      ≡ compare_ℤ m n
compare-flip_top half (pos m) (pos n) hm hn = ground arith
compare-flip_top half (pos m) (negsuc n) hm hn = ground arith
compare-flip_top half (negsuc m) (pos n) hm hn = ground arith
compare-flip_top half (negsuc m) (negsuc n) hm hn = ground arith

flip_top_bound :
    (half : ℕ) (m : ℤ) → IsWord half m → flip_top half (pattern_of half m) < half + half
flip_top_bound half (pos m) h = ground arith
flip_top_bound half (negsuc m) h = ground arith

compare-ordered_bits :
    (f g : ℕ)
    → f < half64 + half64
    → g < half64 + half64
    → compare (ordered_bits f) (ordered_bits g) ≡ compare_ℤ (float_rank f) (float_rank g)
compare-ordered_bits f g hf hg = ground arith

ordered_bits_bound : (f : ℕ) → f < half64 + half64 → ordered_bits f < half64 + half64
ordered_bits_bound f h = ground arith

-- words of `w` bytes
lex-word :
    (w half : ℕ) (m n : ℤ) (r s : Bytes)
    → half + half ≡ powers w
    → IsWord half m
    → IsWord half n
    → lex
        (to_be_bytes w (flip_top half (pattern_of half m)) ++ r)
        (to_be_bytes w (flip_top half (pattern_of half n)) ++ s)
      ≡ then_with (compare_ℤ m n) (lex r s)
lex-word w half m n r s e hm hn =
    lex-to_be_bytes w (flip_top half (pattern_of half m)) (flip_top half (pattern_of half n)) r s
      (omega (arith, e, flip_top_bound half m hm)) (omega (arith, e, flip_top_bound half n hn))
    ∙ ap (λ o. then_with o (lex r s)) (compare-flip_top half m n hm hn)

module _ {J : Type 0} (json_lib : JsonLibrary J) where
  not_null_one :
      (v : Value J) → is_null v ≡ false → encode_one json_lib v ≡ 1 ∷ encode_body json_lib v
  unfolding encode_one is_null
  not_null_one Value.null h = absurd (ground (arith, h))
  not_null_one (Value.bool b) h = refl
  not_null_one (Value.int64 n) h = refl
  not_null_one (Value.float64 f) h = refl
  not_null_one (Value.text s) h = refl
  not_null_one (Value.bytes b) h = refl
  not_null_one (Value.json j) h = refl
  not_null_one (Value.timestamp t) h = refl
  not_null_one (Value.date d) h = refl
  not_null_one (Value.decimal m scale) h = refl
  not_null_one (Value.uuid b) h = refl
  not_null_one (Value.interval us) h = refl

  -- one value, whatever follows
  lex-encode_one :
      (v w : Value J) (o : Ordering) (r s : Bytes)
      → Compares json_lib v w o
      → lex (encode_one json_lib v ++ r) (encode_one json_lib w ++ s) ≡ then_with o (lex r s)
  unfolding encode_one encode_body
  lex-encode_one _ _ _ r s both_null = refl
  lex-encode_one _ _ _ r s (null_first w h) = rw (not_null_one w h) refl
  lex-encode_one _ _ _ r s (null_second v h) = rw (not_null_one v h) refl
  lex-encode_one _ _ _ r s (bools a b) = ground arith
  lex-encode_one _ _ _ r s (ints m n hm hn) = lex-word 8 half64 m n r s refl hm hn
  lex-encode_one _ _ _ r s (timestamps m n hm hn) = lex-word 8 half64 m n r s refl hm hn
  lex-encode_one _ _ _ r s (intervals m n hm hn) = lex-word 8 half64 m n r s refl hm hn
  lex-encode_one _ _ _ r s (dates m n hm hn) = lex-word 4 half32 m n r s refl hm hn
  lex-encode_one _ _ _ r s (decimals m n scale hm hn) = lex-word 16 half128 m n r s refl hm hn
  lex-encode_one _ _ _ r s (floats f g hf hg) =
      lex-to_be_bytes 8 (ordered_bits f) (ordered_bits g) r s (ordered_bits_bound f hf)
        (ordered_bits_bound g hg)
      ∙ ap (λ o. then_with o (lex r s)) (compare-ordered_bits f g hf hg)
  lex-encode_one _ _ _ r s (uuids x y h) = lex-append x y r s h
  lex-encode_one _ _ _ r s (texts x y) = lex-encode_var x y r s
  lex-encode_one _ _ _ r s (jsons i j) =
      lex-encode_var (json_lib.to_string i) (json_lib.to_string j) r s
  lex-encode_one _ _ _ r s (byte_strings x y) = lex-encode_var x y r s

  -- The keys of two rows, compared byte by byte, are in the order of the rows: that of their first
  -- column in which they differ. A null is before every other value; booleans, integers,
  -- timestamps, intervals and dates in the range of their types are in their order, decimals of one
  -- scale in that of their mantissas, floats in that of their sign and magnitude with -0.0 below
  -- 0.0, UUIDs of one length, texts, byte sequences and printed documents in that of their bytes.
  -- Equal rows have equal keys.
  pub lex-encode_okey :
      {vs ws : List (Value J)} {o : Ordering}
      → RowCompares json_lib vs ws o
      → lex (encode_okey json_lib vs) (encode_okey json_lib ws) ≡ o
  unfolding encode_okey
  lex-encode_okey no_column = refl
  lex-encode_okey (column_first {v} {w} {vs} {ws} {o} {p} c cs) =
      lex-encode_one v w o (encode_okey json_lib vs) (encode_okey json_lib ws) c
      ∙ ap (then_with o) (lex-encode_okey cs)

  -- The keys of two decimals, compared byte by byte, are in the order of their mantissas whatever the
  -- two scales are, also where that is not the order of the numbers.
  pub decimal_scale_ignored :
      (m n : ℤ) (s t : ℕ)
      → IsWord half128 m
      → IsWord half128 n
      → lex
          (encode_okey json_lib (Value.decimal m s ∷ []))
          (encode_okey json_lib (Value.decimal n t ∷ []))
        ≡ compare_ℤ m n
  unfolding encode_okey encode_one encode_body
  decimal_scale_ignored m n s t hm hn =
      lex-word 16 half128 m n [] [] refl hm hn ∙ then_with_eq (compare_ℤ m n)
