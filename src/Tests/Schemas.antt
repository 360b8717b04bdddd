-- ===== src/Tests/Schemas.antt =====
-- A witness for the property of `validate`: a table of an integer and a short byte sequence.
use byte_db.Common.{◌↔◌, ◌≡◌, [], ◌∷◌, Bytes}
use byte_db.Common.Int.{pos}
use byte_db.Error.{ok}
use byte_db.Tuple.Value.{DataType, Value}
use byte_db.Tuple.Row.{Tuple}
use byte_db.Tuple.Schema.{Schema, new, column_new, not_null, with_max_length, validate}
use byte_db.Tuple.Schema.Validity.{IsTyped, validate_iff}

abbrev table : Schema Bytes
table = new (116 ∷ []) (
    not_null (column_new (97 ∷ []) DataType.int64)
    ∷ with_max_length (column_new (98 ∷ []) DataType.bytes) 2
    ∷ [])

abbrev table_row : Tuple Bytes
table_row = record { values = Value.int64 (pos 3) ∷ Value.bytes (1 ∷ 2 ∷ []) ∷ [] }

validate_iff_example : (validate table_row table ≡ ok tt) ↔ IsTyped table_row.values table.columns
validate_iff_example = validate_iff table_row table
