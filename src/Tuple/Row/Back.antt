-- ===== src/Tuple/Row/Back.antt =====
-- A row is decoded to what was encoded, if it has fewer than 256 values.
use byte_db.Common.{
  ℕ, zero, suc, ◌%◌, ◌≡◌, ◌≤◌, ◌<◌, refl, ap, ◌∙◌, some, List, [], ◌∷◌, All, length, take,
  take-length, drop-append, arith,
}
use byte_db.Tuple.Value.{Value}
use byte_db.Tuple.Compress.{Compressors, IsLossless}
use byte_db.Tuple.Codec.{JsonLibrary, encode_value}
use byte_db.Tuple.RoundTrip.{IsEncodable, decode_value-encode_value}
use byte_db.Tuple.Row.{Tuple, encode_all, decode_all, serialize, deserialize, deserialize_to_vec}

module _ {J : Type 0} (libs : Compressors) (json_lib : JsonLibrary J)
    (lossless : IsLossless libs) where
  decode_all-encode_all :
      (k : ℕ) (vs : List (Value J))
      → All (IsEncodable libs json_lib) vs
      → k ≤ length vs
      → decode_all libs json_lib k (encode_all libs json_lib vs) ≡ some (take k vs)
  unfolding decode_all encode_all
  decode_all-encode_all zero vs h m = refl
  decode_all-encode_all (suc k) [] h m = absurd (omega arith)
  decode_all-encode_all (suc k) (v ∷ vs) h m =
      rw
        (
          decode_value-encode_value libs json_lib lossless v (encode_all libs json_lib vs) h.0,
          decode_all,
        )
        (rw (drop-append (encode_value libs json_lib v) (encode_all libs json_lib vs))
          (rw (decode_all-encode_all k vs h.1 (omega arith)) refl))

  -- `deserialize` gives back the first values of a row whose values can be encoded, as many as the
  -- number of its values is modulo 256: a row of 256 values or more is cut.
  pub serialize_truncates :
      (t : Tuple J)
      → All (IsEncodable libs json_lib) t.values
      → deserialize libs json_lib (serialize libs json_lib t)
        ≡ some (record { values = take (length t.values % 256) t.values })
  unfolding deserialize serialize
  serialize_truncates t h =
      rw
        (
          decode_all-encode_all (length t.values % 256) t.values h (omega arith),
          deserialize,
          deserialize_to_vec,
        )
        refl

  -- `deserialize` gives a row back that `serialize` encoded, if it has fewer than 256 values and
  -- each can be encoded: an integer in the range of its type, a text or byte sequence shorter than
  -- 2^32, a document that the JSON library gives back, a UUID of 16 bytes. What the compressors
  -- compress they give back, and it is not empty.
  pub serialize_roundtrip :
      (t : Tuple J)
      → All (IsEncodable libs json_lib) t.values
      → length t.values < 256
      → deserialize libs json_lib (serialize libs json_lib t) ≡ some t
  serialize_roundtrip t h m =
      let size : length t.values % 256 ≡ length t.values = omega arith in
      serialize_truncates t h
      ∙ rw size (ap (λ vs. some (record { values = vs })) (take-length t.values))
