-- ===== src/Tests/OrderKeys.antt =====
-- Witnesses for the properties of the index keys.
use Prim.Native.Nat.{Ordering}
use byte_db.Common.{◌≡◌, [], ◌∷◌, arith, some, true, Bytes}
use byte_db.Common.Int.{pos, negsuc}
use byte_db.Tuple.Value.{Value}
use byte_db.Tuple.Codec.{JsonLibrary}
use byte_db.Tuple.Row.{compare_ℤ}
use byte_db.Index.OrderKey.{encode_okey}
use byte_db.Index.OrderKey.Bytewise.{lex}
use byte_db.Index.OrderKey.Ordered.{
  no_column, column_first, texts, ints, lex-encode_okey, decimal_scale_ignored,
}

abbrev printer : JsonLibrary Bytes
printer = record { to_string = λ j. j; from_str = λ s. some s; from_utf8 = λ s. true }

-- the text "a" with -1, and the text "a", a zero byte, "b" with 5
lex-encode_okey_example :
    lex
      (encode_okey printer (Value.text (97 ∷ []) ∷ Value.int64 (negsuc 0) ∷ []))
      (encode_okey printer (Value.text (97 ∷ 0 ∷ 98 ∷ []) ∷ Value.int64 (pos 5) ∷ []))
    ≡ Ordering.lt
lex-encode_okey_example = lex-encode_okey printer (
    column_first (texts (97 ∷ []) (97 ∷ 0 ∷ 98 ∷ []))
      (column_first (ints (negsuc 0) (pos 5) (omega arith) (omega arith)) no_column))

-- 5 and 1.0
decimal_scale_ignored_example :
    lex
      (encode_okey printer (Value.decimal (pos 5) 0 ∷ []))
      (encode_okey printer (Value.decimal (pos 10) 1 ∷ []))
    ≡ compare_ℤ (pos 5) (pos 10)
decimal_scale_ignored_example =
    decimal_scale_ignored printer (pos 5) (pos 10) 0 1 (omega arith) (omega arith)
