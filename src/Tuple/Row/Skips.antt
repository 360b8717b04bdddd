-- ===== src/Tuple/Row/Skips.antt =====
-- Where `decode_value` and `skip_value` step to.
use byte_db.Common.{
  not, take, get_or, get_or, not, ℕ, suc, ◌+◌, ◌≡◌, ap, sym, ◌∙◌, ◌≤◌, ◌==◌, ◌||◌, refl, Bool, true,
  false, Option, some, [], ◌∷◌, if◌then◌else◌, length, arith, Bytes,
}
use byte_db.Tuple.Value.{Value}
use byte_db.Tuple.Compress.{Compressors}
use byte_db.Common.Int.{signed}
use byte_db.Common.LeBytes.{from_le_bytes}
use byte_db.Tuple.Codec.{
  half32, half64, half128, JsonLibrary, decode_value, skip_value, decode_tagged, skip_tagged, fixed,
  variable, read_compressed, comp_size, length_at, parse_json,
}

abbrev pub compressed_tag : ℕ → Bool
compressed_tag tag = (tag == 12) || (tag == 13)

-- the tags of compressed byte sequences
abbrev pub is_compressed : Bytes → Bool
is_compressed [] = false
is_compressed (tag ∷ rest) = compressed_tag tag

-- a result comes from one of the two branches
from_if {ℓ κ} :
    {A : Type ℓ} {P : Type κ} (b : Bool) {x y z : A}
    → (b ≡ true → x ≡ z → P)
    → (b ≡ false → y ≡ z → P)
    → (if b then x else y) ≡ z
    → P
from_if true f g e = f refl e
from_if false f g e = g refl e

module _ {J : Type 0} (libs : Compressors) (json_lib : JsonLibrary J) where
  fixed_step :
      (k : ℕ) (rest : Bytes) (f : Bytes → Value J) (v : Value J) (n : ℕ)
      → fixed libs json_lib k rest f ≡ some (v, n)
      → (n ≡ 1 + k) × (n ≤ length rest)
  fixed_step k rest f v n e = ground (arith, e)

  variable_step :
      (rest : Bytes) (f : Bytes → Option (Value J)) (v : Value J) (n : ℕ)
      → variable libs json_lib rest f ≡ some (v, n)
      → (5 ≤ length rest) × (n ≡ 5 + length_at libs json_lib rest) × (n ≤ length rest)
  variable_step rest f v n e = ground (arith, e)

  compressed_step :
      (rest : Bytes) (v : Value J) (n : ℕ)
      → read_compressed libs json_lib rest ≡ some (v, n)
      → (14 ≤ length rest) × (n ≡ 13 + comp_size libs json_lib rest) × (n ≤ length rest)
  compressed_step rest v n e = ground (arith, e)

  -- what `decode_value` says of the tag: how far each kind of value reaches
  pub record Steps (tag : ℕ) (rest : Bytes) (n : ℕ) : Type 0 where
    pub some_byte : 1 ≤ n
    pub in_bounds : n ≤ length rest
    pub skipped : skip_tagged tag rest ≡ some (if compressed_tag tag then suc n else n)

  abbrev nothing_read : Option (Value J × ℕ)
  nothing_read = some (Value.null, 1)

  skipped_by :
      (tag of_tag : ℕ) (rest : Bytes) (k n : ℕ) (b : Bool)
      → (tag == of_tag) ≡ true
      → skip_tagged of_tag rest ≡ some k
      → compressed_tag of_tag ≡ b
      → (if b then suc n else n) ≡ k
      → skip_tagged tag rest ≡ some (if compressed_tag tag then suc n else n)
  skipped_by tag of_tag rest k n b t s c e =
      let same : tag ≡ of_tag = ground arith in
      ap (λ z. skip_tagged z rest) same
      ∙ s
      ∙ ap some (sym e)
      ∙ ap (λ z. some (if z then suc n else n)) (sym (ap compressed_tag same ∙ c))

  null-Steps :
      (tag : ℕ) (rest : Bytes) (v : Value J) (n : ℕ)
      → (tag == 0) ≡ true
      → 1 ≤ length rest
      → nothing_read ≡ some (v, n)
      → Steps tag rest n
  null-Steps tag rest v n t h e = record {
    some_byte = ground (arith, e);
    in_bounds = ground (arith, e);
    skipped = skipped_by tag 0 rest 1 n false t refl refl (ground (arith, e));
  }

  fixed-Steps :
      (tag of_tag k : ℕ) (rest : Bytes) (f : Bytes → Value J) (v : Value J) (n : ℕ)
      → (tag == of_tag) ≡ true
      → skip_tagged of_tag rest ≡ some (1 + k)
      → compressed_tag of_tag ≡ false
      → fixed libs json_lib k rest f ≡ some (v, n)
      → Steps tag rest n
  fixed-Steps tag of_tag k rest f v n t s c e =
      let step = fixed_step k rest f v n e in
      record {
        some_byte = omega (arith, step.0);
        in_bounds = step.1;
        skipped = skipped_by tag of_tag rest (1 + k) n false t s c step.0;
      }

  variable-Steps :
      (tag of_tag : ℕ) (rest : Bytes) (f : Bytes → Option (Value J)) (v : Value J) (n : ℕ)
      → (tag == of_tag) ≡ true
      → (5 ≤ length rest → skip_tagged of_tag rest ≡ some (5 + length_at libs json_lib rest))
      → compressed_tag of_tag ≡ false
      → variable libs json_lib rest f ≡ some (v, n)
      → Steps tag rest n
  variable-Steps tag of_tag rest f v n t s c e =
      let step = variable_step rest f v n e in
      record {
        some_byte = omega (arith, step.1);
        in_bounds = step.2;
        skipped =
            skipped_by tag of_tag rest (5 + length_at libs json_lib rest) n false t (s step.0) c
              step.1;
      }

  compressed-Steps :
      (tag : ℕ) (rest : Bytes) (v : Value J) (n : ℕ)
      → compressed_tag tag ≡ true
      → read_compressed libs json_lib rest ≡ some (v, n)
      → Steps tag rest n
  compressed-Steps tag rest v n t e =
      let step = compressed_step rest v n e in
      record {
        some_byte = omega (arith, step.1);
        in_bounds = step.2;
        skipped = rw t (ground (arith, step.0, step.1));
      }

  decode_tagged-Steps :
      (tag : ℕ) (rest : Bytes) (v : Value J) (n : ℕ)
      → 1 ≤ length rest
      → decode_tagged libs json_lib tag rest ≡ some (v, n)
      → Steps tag rest n
  decode_tagged-Steps tag rest v n h =
      from_if (tag == 0) (λ t e. null-Steps tag rest v n t h e)
        λ _.
          from_if (tag == 1)
            (λ t e.
              fixed-Steps tag 1 1 rest (λ b. Value.bool (not (get_or b 0 0 == 0))) v n t refl refl
                e)
            λ _.
              from_if (tag == 2)
                (λ t e.
                  fixed-Steps tag 2 8 rest (λ b. Value.int64 (signed half64 (from_le_bytes b))) v n
                    t refl refl e)
                λ _.
                  from_if (tag == 3)
                    (λ t e.
                      fixed-Steps tag 3 8 rest (λ b. Value.float64 (from_le_bytes b)) v n t refl
                        refl e)
                    λ _.
                      from_if (tag == 4)
                        (λ t e.
                          variable-Steps tag 4 rest (λ s. some (Value.text s)) v n t
                            (λ g. ground arith) refl e)
                        λ _.
                          from_if (tag == 5)
                            (λ t e.
                              variable-Steps tag 5 rest (λ b. some (Value.bytes b)) v n t
                                (λ g. ground arith) refl e)
                            λ _.
                              from_if (compressed_tag tag)
                                (λ t e. compressed-Steps tag rest v n t e)
                                λ _.
                                  from_if (tag == 6)
                                    (λ t e.
                                      variable-Steps tag 6 rest (parse_json libs json_lib) v n t
                                        (λ g. ground arith) refl e)
                                    λ _.
                                      from_if (tag == 7)
                                        (λ t e.
                                          fixed-Steps tag 7 8 rest
                                            (λ b. Value.timestamp (signed half64 (from_le_bytes b)))
                                            v n t refl refl e)
                                        λ _.
                                          from_if (tag == 8)
                                            (λ t e.
                                              fixed-Steps tag 8 4 rest
                                                (λ b. Value.date (signed half32 (from_le_bytes b)))
                                                v n t refl refl e)
                                            λ _.
                                              from_if (tag == 9)
                                                (λ t e.
                                                  fixed-Steps tag 9 17 rest
                                                    (λ b.
                                                      Value.decimal
                                                        (signed half128 (from_le_bytes (take 16 b)))
                                                        (get_or b 16 0))
                                                    v n t refl refl e)
                                                λ _.
                                                  from_if (tag == 10)
                                                    (λ t e.
                                                      fixed-Steps tag 10 16 rest (λ b. Value.uuid b)
                                                        v n t refl refl e)
                                                    λ _.
                                                      from_if (tag == 11)
                                                        (λ t e.
                                                          fixed-Steps tag 11 8 rest
                                                            (λ b.
                                                            Value.interval
                                                            (signed half64 (from_le_bytes b)))
                                                            v n t refl refl e)
                                                        λ _ e. ground (arith, e)

  decode_value-Steps :
      (tag : ℕ) (rest : Bytes) (v : Value J) (n : ℕ)
      → decode_value libs json_lib (tag ∷ rest) ≡ some (v, n)
      → Steps tag (tag ∷ rest) n
  unfolding decode_value
  decode_value-Steps tag rest v n e = decode_tagged-Steps tag (tag ∷ rest) v n (omega arith) e

  -- A value that `decode_value` reads takes at least one byte and ends within the data.
  pub decode_in_bounds :
      (rest : Bytes) (v : Value J) (n : ℕ)
      → decode_value libs json_lib rest ≡ some (v, n)
      → (1 ≤ n) × (n ≤ length rest)
  unfolding decode_value
  decode_in_bounds [] v n e = ground (arith, e)
  decode_in_bounds (tag ∷ rest) v n e =
      let s = decode_value-Steps tag rest v n e in (s.some_byte, s.in_bounds)

  -- Where `decode_value` reads a value, `skip_value` steps as far as it, but for a compressed byte
  -- sequence, which `skip_value` leaves one byte too far.
  pub skip_after_decode :
      (rest : Bytes) (v : Value J) (n : ℕ)
      → decode_value libs json_lib rest ≡ some (v, n)
      → skip_value rest ≡ some (if is_compressed rest then suc n else n)
  unfolding decode_value skip_value
  skip_after_decode [] v n e = ground (arith, e)
  skip_after_decode (tag ∷ rest) v n e = (decode_value-Steps tag rest v n e).skipped
