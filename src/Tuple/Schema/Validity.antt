-- ===== src/Tuple/Schema/Validity.antt =====
-- What `validate` accepts.
use byte_db.Common.{
  Bytes, suc, sym, ap, ◌∙◌, ==_refl, if◌then◌else◌, ℕ, ◌≡◌, ◌≤◌, ◌==◌, ◌⊎◌, ◌↔◌, inl, inr, refl,
  true, Bool-cases, Option, none, some, List, [], ◌∷◌, length, arith,
}
use byte_db.Error.{ok}
use byte_db.Tuple.Value.{DataType, Value, data_type}
use byte_db.Tuple.Row.{Tuple}
use byte_db.Tuple.Schema.{
  Column, Schema, discriminant, type_eq, check_value, check_values, validate,
}

of_discriminant : ℕ → DataType
of_discriminant n =
    if n == 0
    then DataType.bool
    else if n == 1
    then DataType.int64
    else if n == 2
    then DataType.float64
    else if n == 3
    then DataType.text
    else if n == 4
    then DataType.bytes
    else if n == 5
    then DataType.json
    else if n == 6
    then DataType.timestamp
    else if n == 7
    then DataType.date
    else if n == 8
    then DataType.decimal
    else if n == 9
    then DataType.uuid
    else DataType.interval

of_discriminant-discriminant : (s : DataType) → of_discriminant (discriminant s) ≡ s
unfolding of_discriminant
of_discriminant-discriminant DataType.bool = refl
of_discriminant-discriminant DataType.int64 = refl
of_discriminant-discriminant DataType.float64 = refl
of_discriminant-discriminant DataType.text = refl
of_discriminant-discriminant DataType.bytes = refl
of_discriminant-discriminant DataType.json = refl
of_discriminant-discriminant DataType.timestamp = refl
of_discriminant-discriminant DataType.date = refl
of_discriminant-discriminant DataType.decimal = refl
of_discriminant-discriminant DataType.uuid = refl
of_discriminant-discriminant DataType.interval = refl

type_eq_iff : (s t : DataType) → (type_eq s t ≡ true) ↔ (s ≡ t)
type_eq_iff s t = (
  λ h.
      let same : discriminant s ≡ discriminant t = ground (arith, h) in
      sym (of_discriminant-discriminant s)
      ∙ ap of_discriminant same
      ∙ of_discriminant-discriminant t,
  λ e. rw e (==_refl (discriminant t)),
)

module _ {J : Type 0} where
  -- a byte sequence is not longer than the column allows
  abbrev pub IsWithin : Value J → Option ℕ → Type 0
  IsWithin (Value.bytes b) (some max_len) = length b ≤ max_len
  IsWithin v limit = Unit

  -- a null in a column that takes it, or a value of the column's type and length
  abbrev pub IsAccepted : Value J → Column J → Type 0
  IsAccepted v c =
      ((v ≡ Value.null) × (c.nullable ≡ true))
      ⊎ ((data_type v ≡ some c.data_type) × IsWithin v c.max_length)

  -- one accepted value for every column
  abbrev pub IsTyped : List (Value J) → List (Column J) → Type 0
  IsTyped [] [] = Unit
  IsTyped (v ∷ vs) (c ∷ columns) = IsAccepted v c × IsTyped vs columns
  IsTyped vs columns = ⊥

  bytes_iff :
      (b : Bytes) (c : Column J) (limit : Option ℕ)
      → c.max_length ≡ limit
      → (check_value (Value.bytes b) c ≡ ok tt) ↔ IsAccepted (Value.bytes b) c
  unfolding check_value
  bytes_iff b c none e = rw e (ground (arith, e, type_eq_iff DataType.bytes c.data_type))
  bytes_iff b c (some max_len) e = rw e (ground (arith, e, type_eq_iff DataType.bytes c.data_type))

  check_value_iff : (v : Value J) (c : Column J) → (check_value v c ≡ ok tt) ↔ IsAccepted v c
  unfolding check_value
  check_value_iff Value.null c = ground arith
  check_value_iff (Value.int64 n) c = ground (arith, type_eq_iff DataType.int64 c.data_type)
  check_value_iff (Value.bool b) c = ground (arith, type_eq_iff DataType.bool c.data_type)
  check_value_iff (Value.float64 f) c = ground (arith, type_eq_iff DataType.float64 c.data_type)
  check_value_iff (Value.text s) c = ground (arith, type_eq_iff DataType.text c.data_type)
  check_value_iff (Value.json j) c = ground (arith, type_eq_iff DataType.json c.data_type)
  check_value_iff (Value.timestamp t) c = ground (arith, type_eq_iff DataType.timestamp c.data_type)
  check_value_iff (Value.date d) c = ground (arith, type_eq_iff DataType.date c.data_type)
  check_value_iff (Value.decimal m scale) c =
      ground (arith, type_eq_iff DataType.decimal c.data_type)
  check_value_iff (Value.uuid b) c = ground (arith, type_eq_iff DataType.uuid c.data_type)
  check_value_iff (Value.interval us) c = ground (arith, type_eq_iff DataType.interval c.data_type)
  check_value_iff (Value.bytes b) c = bytes_iff b c c.max_length refl

  check_values_iff :
      (vs : List (Value J)) (columns : List (Column J))
      → length vs ≡ length columns
      → (check_values vs columns ≡ ok tt) ↔ IsTyped vs columns
  unfolding check_values
  check_values_iff [] [] h = ground arith
  check_values_iff [] (c ∷ columns) h = absurd (omega (arith, h))
  check_values_iff (v ∷ vs) [] h = absurd (omega (arith, h))
  check_values_iff (v ∷ vs) (c ∷ columns) h =
      ground (arith, check_value_iff v c, check_values_iff vs columns (omega (arith, h)))

  typed_length :
      (vs : List (Value J)) (columns : List (Column J))
      → IsTyped vs columns
      → length vs ≡ length columns
  typed_length [] [] h = refl
  typed_length [] (c ∷ columns) h = absurd h
  typed_length (v ∷ vs) [] h = absurd h
  typed_length (v ∷ vs) (c ∷ columns) h = ap suc (typed_length vs columns h.1)

  -- `validate` accepts exactly the rows that have one value for every column of the schema, each
  -- either null in a nullable column, or of the column's type and, for a byte sequence, no longer
  -- than the column allows.
  pub validate_iff :
      (t : Tuple J) (schema : Schema J)
      → (validate t schema ≡ ok tt) ↔ IsTyped t.values schema.columns
  unfolding validate
  validate_iff t schema = elim (Bool-cases (length t.values == length schema.columns)) [
    | inl y ↦
        let same : length t.values ≡ length schema.columns = ground (arith, y) in
        rw (y, validate) (check_values_iff t.values schema.columns same)
    | inr n ↦
        rw (n, validate)
          (
            λ h. absurd (ground (arith, h)),
            λ h. absurd (ground (arith, n, typed_length t.values schema.columns h)),
          )
  ]
