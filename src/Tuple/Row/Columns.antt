-- ===== src/Tuple/Row/Columns.antt =====
-- One column of a row, read from the row's bytes without decoding the others.
use byte_db.Common.{
  sym, leb, false, ℕ, zero, suc, ◌+◌, ◌%◌, ◌≡◌, ◌<◌, refl, ap, ◌∙◌, none, some, List, [], ◌∷◌, ◌++◌,
  All, length, drop, drop-append, drop-append_add, arith, Bytes, if◌then◌else◌,
}
use byte_db.Tuple.Value.{Value}
use byte_db.Tuple.Compress.{Compressors, IsLossless, compress}
use byte_db.Tuple.Codec.{JsonLibrary, encode_value, skip_value}
use byte_db.Tuple.RoundTrip.{IsEncodable, decode_value-encode_value}
use byte_db.Tuple.Row.{
  Tuple, nth, field, encode_all, serialize, offset_from, column_offset, read_value_at,
}
use byte_db.Tuple.Row.Skips.{is_compressed, skip_after_decode}

module _ {J : Type 0} (libs : Compressors) (json_lib : JsonLibrary J) where
  -- what is stored as it is: all but the byte sequences that a compressor makes shorter
  abbrev pub IsPlain : Value J → Type 0
  IsPlain (Value.bytes b) = compress libs b ≡ none
  IsPlain v = Unit

  plain-is_compressed :
      (v : Value J) (post : Bytes)
      → IsPlain v
      → is_compressed (encode_value libs json_lib v ++ post) ≡ false
  unfolding encode_value
  plain-is_compressed Value.null post h = refl
  plain-is_compressed (Value.bool b) post h = refl
  plain-is_compressed (Value.int64 n) post h = refl
  plain-is_compressed (Value.float64 f) post h = refl
  plain-is_compressed (Value.text s) post h = refl
  plain-is_compressed (Value.bytes b) post h = rw (h, encode_value) refl
  plain-is_compressed (Value.json j) post h = refl
  plain-is_compressed (Value.timestamp t) post h = refl
  plain-is_compressed (Value.date d) post h = refl
  plain-is_compressed (Value.decimal m s) post h = refl
  plain-is_compressed (Value.uuid b) post h = refl
  plain-is_compressed (Value.interval us) post h = refl

  module _ (lossless : IsLossless libs) where
    pub skip_value-encode_value :
        (v : Value J) (post : Bytes)
        → IsEncodable libs json_lib v
        → IsPlain v
        → skip_value (encode_value libs json_lib v ++ post)
          ≡ some (length (encode_value libs json_lib v))
    skip_value-encode_value v post h p =
        let c = plain-is_compressed v post p in
        skip_after_decode libs json_lib (encode_value libs json_lib v ++ post) v
          (length (encode_value libs json_lib v))
          (decode_value-encode_value libs json_lib lossless v post h)
        ∙ ap
            (λ b. some (
              if b
              then suc (length (encode_value libs json_lib v))
              else length (encode_value libs json_lib v)))
            c

    -- where column `i` starts, what it holds, and what follows
    pub record Reaches (vs : List (Value J)) (i : ℕ) : Type 0 where
      pub at : ℕ
      pub value : Value J
      pub post : Bytes
      pub offset : (base : ℕ) → offset_from i base (encode_all libs json_lib vs) ≡ some (base + at)
      pub held : nth vs i ≡ some value
      pub found : drop at (encode_all libs json_lib vs) ≡ encode_value libs json_lib value ++ post
      pub encodable : IsEncodable libs json_lib value

    reaches :
        (vs : List (Value J)) (i : ℕ)
        → All (IsEncodable libs json_lib) vs
        → All IsPlain vs
        → i < length vs
        → Reaches vs i
    unfolding offset_from encode_all
    reaches [] i h p m = absurd (omega arith)
    reaches (v ∷ vs) zero h p m = record {
      at = 0;
      value = v;
      post = encode_all libs json_lib vs;
      offset = λ base. ap some (omega arith);
      held = refl;
      found = refl;
      encodable = h.0;
    }
    reaches (v ∷ vs) (suc i) h p m =
        let r = reaches vs i h.1 p.1 (omega arith) in
        let skip = skip_value-encode_value v (encode_all libs json_lib vs) h.0 p.0 in
        record {
          at = length (encode_value libs json_lib v) + r.at;
          value = r.value;
          post = r.post;
          offset = λ base.
              rw (skip, offset_from)
                (rw (drop-append (encode_value libs json_lib v) (encode_all libs json_lib vs)) (
                  r.offset (base + length (encode_value libs json_lib v)) ∙ ap some (omega arith)));
          held = r.held;
          found =
              drop-append_add (encode_value libs json_lib v) (encode_all libs json_lib vs) r.at
                (length (encode_value libs json_lib v) + r.at) refl
              ∙ r.found;
          encodable = r.encodable;
        }

    -- `read_value_at` on the bytes of a row gives the value of the column, like `get` on the row:
    -- for a row of fewer than 256 values that can be encoded and of which no compressor makes a
    -- byte sequence shorter, and a column that it has. What the compressors compress they give
    -- back, and it is not empty.
    pub read_value_at-serialize :
        (t : Tuple J) (i : ℕ)
        → All (IsEncodable libs json_lib) t.values
        → All IsPlain t.values
        → length t.values < 256
        → i < length t.values
        → read_value_at libs json_lib (serialize libs json_lib t) i ≡ field t i
    unfolding read_value_at column_offset serialize
    read_value_at-serialize t i h p short m =
        let r = reaches t.values i h p m in
        let size : length t.values % 256 ≡ length t.values = omega arith in
        let inside : leb (length t.values) i ≡ false = ground arith in
        let next : 1 + r.at ≡ suc r.at = omega arith in
        rw size (
          rw (inside, read_value_at, column_offset)
            (rw (r.offset 1, read_value_at, column_offset)
              (rw next (
                rw r.found (
                  rw (decode_value-encode_value libs json_lib lossless r.value r.post r.encodable)
                    (sym r.held))))))
