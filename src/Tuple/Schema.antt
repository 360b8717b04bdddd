-- ===== src/Tuple/Schema.antt =====
-- bytedb-core/src/tuple/schema.rs, and `validate` of tuple.rs. The map from a name to its column is
-- the one that the constructor collects.
pub mod Validity
use Prim.Native.String.{String}
use byte_db.Common.{
  ℕ, zero, suc, ◌+◌, ◌==◌, ◌&&◌, not, Bool, true, false, Option, none, some, List, [], ◌∷◌, ◌++◌,
  map, ltb, leb, if◌then◌else◌, length, Bytes, bytes_key, bytes_eq,
}
use byte_db.Common.Text.{codes, to_string}
use byte_db.HashMap.{HashMap, get, insert}
use byte_db.Error.{◌>>=◌, CoreError, Result, type_mismatch, value_too_large, ok, err}
use byte_db.Tuple.Value.{DataType, Value, data_type, is_null}
use byte_db.Tuple.Row.{Tuple}

module _ (J : Type 0) where
  pub record Column : Type 0 where
    pub name : Bytes
    pub data_type : DataType
    pub nullable : Bool
    pub primary_key : Bool
    pub unique : Bool
    pub auto_increment : Bool
    pub default : Option (Value J)
    pub max_length : Option ℕ

pub data FkAction : Type 0 where
  restrict cascade set_null : FkAction

pub record ForeignKey : Type 0 where
  pub columns : List Bytes
  pub ref_table : Bytes
  pub ref_columns : List Bytes
  pub on_delete : FkAction
  pub on_update : FkAction

pub record Schema (J : Type 0) : Type 0 where
  pub columns : List (Column J)
  pub table_name : Bytes
  pub check_constraints : List Bytes
  pub foreign_keys : List ForeignKey
  pub column_map : HashMap Bytes ℕ

module _ {J : Type 0} where
  abbrev pub column_new : Bytes → DataType → Column J
  column_new name data_type = record {
    name = name;
    data_type = data_type;
    nullable = true;
    primary_key = false;
    unique = false;
    auto_increment = false;
    default = none;
    max_length = none;
  }

  abbrev pub not_null : Column J → Column J
  not_null c = record c { nullable = false }

  abbrev pub as_primary_key : Column J → Column J
  as_primary_key c = record c { primary_key = true; nullable = false }

  abbrev pub as_unique : Column J → Column J
  as_unique c = record c { unique = true }

  abbrev pub as_auto_increment : Column J → Column J
  as_auto_increment c = record c { auto_increment = true }

  abbrev pub with_default : Column J → Value J → Column J
  with_default c value = record c { default = some value }

  abbrev pub with_max_length : Column J → ℕ → Column J
  with_max_length c len = record c { max_length = some len }

  -- `enumerate().map(…).collect()`: a later column replaces an earlier one of the same name
  unfoldable pub collect_names : List (Column J) → ℕ → HashMap Bytes ℕ → HashMap Bytes ℕ
  collect_names [] i names = names
  collect_names (c ∷ columns) i names = collect_names columns (i + 1) (insert names c.name i)

  unfoldable pub new : Bytes → List (Column J) → Schema J
  unfolding collect_names
  new table_name columns = record {
    columns = columns;
    table_name = table_name;
    check_constraints = [];
    foreign_keys = [];
    column_map = collect_names columns 0 [];
  }

  unfoldable pub column_index : Schema J → Bytes → Option ℕ
  column_index schema name = get schema.column_map name

  abbrev pub column_at : List (Column J) → ℕ → Option (Column J)
  column_at [] i = none
  column_at (c ∷ columns) zero = some c
  column_at (c ∷ columns) (suc i) = column_at columns i

  -- an index out of range would panic; `none` here
  unfoldable pub column : Schema J → Bytes → Option (Column J)
  unfolding column_index
  column schema name = elim (column_index schema name) [
    | none ↦ none
    | some i ↦ column_at schema.columns i
  ]

  -- `enumerate().filter(…).map(…)`
  unfoldable pub positions : (Column J → Bool) → List (Column J) → ℕ → List ℕ
  positions p [] i = []
  positions p (c ∷ columns) i =
      let rest = positions p columns (i + 1) in if p c then i ∷ rest else rest

  unfoldable pub primary_key_columns : Schema J → List ℕ
  unfolding positions
  primary_key_columns schema = positions (λ c. c.primary_key) schema.columns 0

  unfoldable pub unique_columns : Schema J → List ℕ
  unfolding positions
  unique_columns schema = positions (λ c. c.unique && not c.primary_key) schema.columns 0

  abbrev pub num_columns : Schema J → ℕ
  num_columns schema = length schema.columns

  abbrev pub column_names : Schema J → List Bytes
  column_names schema = map (λ c. c.name) schema.columns

-- derived equality: the types are told apart by their place in the declaration
abbrev pub discriminant : DataType → ℕ
discriminant DataType.bool = 0
discriminant DataType.int64 = 1
discriminant DataType.float64 = 2
discriminant DataType.text = 3
discriminant DataType.bytes = 4
discriminant DataType.json = 5
discriminant DataType.timestamp = 6
discriminant DataType.date = 7
discriminant DataType.decimal = 8
discriminant DataType.uuid = 9
discriminant DataType.interval = 10

abbrev pub type_eq : DataType → DataType → Bool
type_eq s t = discriminant s == discriminant t

-- `Display` of a type
abbrev pub type_name : DataType → Bytes
type_name DataType.bool = codes "BOOL"
type_name DataType.int64 = codes "INT"
type_name DataType.float64 = codes "FLOAT"
type_name DataType.text = codes "TEXT"
type_name DataType.bytes = codes "BYTES"
type_name DataType.json = codes "JSON"
type_name DataType.timestamp = codes "TIMESTAMP"
type_name DataType.date = codes "DATE"
type_name DataType.decimal = codes "DECIMAL"
type_name DataType.uuid = codes "UUID"
type_name DataType.interval = codes "INTERVAL"

-- the check of the type, for a value that has one
abbrev pub check_type : Option DataType → DataType → Result (Unit {0})
check_type none expected = ok tt
check_type (some vtype) expected =
    if not (type_eq vtype expected)
    then err (type_mismatch (type_name expected) (type_name vtype))
    else ok tt

module _ {J : Type 0} where
  abbrev pub check_length : Value J → Option ℕ → Result (Unit {0})
  check_length (Value.bytes b) (some max_len) =
      if ltb max_len (length b) then err (value_too_large (length b)) else ok tt
  check_length v limit = ok tt

  -- one round of the loop of `validate`
  unfoldable pub check_value : Value J → Column J → Result (Unit {0})
  unfolding data_type is_null
  check_value value col =
      if is_null value
      then if not col.nullable
        then err (type_mismatch (codes "non-null " ++ type_name col.data_type) (codes "NULL"))
        else ok tt
      else (check_type (data_type value) col.data_type >>= λ _. check_length value col.max_length)

  unfoldable pub check_values : List (Value J) → List (Column J) → Result (Unit {0})
  unfolding check_value
  check_values (v ∷ vs) (c ∷ columns) = check_value v c >>= λ _. check_values vs columns
  check_values vs columns = ok tt

  unfoldable pub validate : Tuple J → Schema J → Result (Unit {0})
  unfolding check_values
  validate t schema =
      if not (length t.values == length schema.columns)
      then err (
          type_mismatch (to_string (length schema.columns) ++ codes " columns")
            (to_string (length t.values) ++ codes " values"))
      else check_values t.values schema.columns
