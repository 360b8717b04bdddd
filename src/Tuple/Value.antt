-- ===== src/Tuple/Value.antt =====
-- bytedb-core/src/tuple/value.rs: values and their types. A text is its bytes, a float its bit
-- pattern; `J` stands for the values of the JSON library.
use byte_db.Common.{ℕ, Bool, true, false, Option, none, some, Bytes}
use byte_db.Common.Int.{ℤ}

pub data DataType : Type 0 where
  bool int64 float64 text bytes json timestamp date decimal uuid interval : DataType

pub data Value (J : Type 0) : Type 0 where
  null : Value J
  bool : (b : Bool) → Value J
  int64 : (n : ℤ) → Value J
  float64 : (bits : ℕ) → Value J
  text : (s : Bytes) → Value J
  bytes : (b : Bytes) → Value J
  json : (j : J) → Value J
  timestamp : (t : ℤ) → Value J
  date : (d : ℤ) → Value J
  decimal : (m : ℤ) (scale : ℕ) → Value J
  uuid : (b : Bytes) → Value J
  interval : (us : ℤ) → Value J

module _ {J : Type 0} where
  unfoldable pub data_type : Value J → Option DataType
  data_type Value.null = none
  data_type (Value.bool b) = some DataType.bool
  data_type (Value.int64 n) = some DataType.int64
  data_type (Value.float64 f) = some DataType.float64
  data_type (Value.text s) = some DataType.text
  data_type (Value.bytes b) = some DataType.bytes
  data_type (Value.json j) = some DataType.json
  data_type (Value.timestamp t) = some DataType.timestamp
  data_type (Value.date d) = some DataType.date
  data_type (Value.decimal m s) = some DataType.decimal
  data_type (Value.uuid b) = some DataType.uuid
  data_type (Value.interval us) = some DataType.interval

  unfoldable pub is_null : Value J → Bool
  is_null Value.null = true
  is_null _ = false

  unfoldable pub as_i64 : Value J → Option ℤ
  as_i64 (Value.int64 n) = some n
  as_i64 _ = none

  unfoldable pub as_text : Value J → Option Bytes
  as_text (Value.text s) = some s
  as_text _ = none

  unfoldable pub as_bool : Value J → Option Bool
  as_bool (Value.bool b) = some b
  as_bool _ = none
