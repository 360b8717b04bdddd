-- ===== src/Tuple/Row.antt =====
-- bytedb-core/src/tuple/tuple.rs: rows, and what is read from the bytes of a row without decoding
-- all of it. A position is the number of bytes before it.
pub mod Back
pub mod Skips
pub mod Columns
use Prim.Native.Nat.{Ordering, compare}
use byte_db.Common.{
  ℕ, zero, suc, ◌+◌, ◌%◌, ◌==◌, ◌||◌, ◌&&◌, Bool, true, false, Option, none, some, List, [], ◌∷◌,
  ◌++◌, ltb, leb, if◌then◌else◌, length, take, drop, get_or, set, Bytes,
}
use byte_db.Common.Int.{ℤ, pos, negsuc, ltb_ℤ, eq_ℤ, signed}
use byte_db.Common.LeBytes.{from_le_bytes}
use byte_db.Tuple.Value.{Value}
use byte_db.Tuple.Compress.{Compressors}
use byte_db.Tuple.Codec.{JsonLibrary, half64, encode_value, decode_value, skip_value}

pub record Tuple (J : Type 0) : Type 0 where
  pub values : List (Value J)

module _ {J : Type 0} where
  abbrev nth : List (Value J) → ℕ → Option (Value J)
  nth [] i = none
  nth (v ∷ vs) zero = some v
  nth (v ∷ vs) (suc i) = nth vs i

  -- `get` and `set`
  abbrev pub field : Tuple J → ℕ → Option (Value J)
  field t index = nth t.values index

  abbrev pub set_field : Tuple J → ℕ → Value J → Tuple J
  set_field t index value = record { values = set t.values index value }

module _ {J : Type 0} (libs : Compressors) (json_lib : JsonLibrary J) where
  unfoldable pub encode_all : List (Value J) → Bytes
  encode_all [] = []
  encode_all (v ∷ vs) = encode_value libs json_lib v ++ encode_all vs

  -- the number of values is cut to a byte
  unfoldable pub serialize : Tuple J → Bytes
  unfolding encode_all
  serialize t = length t.values % 256 ∷ encode_all t.values

  abbrev pub then_cons : Option (Value J) → Option (List (Value J)) → Option (List (Value J))
  then_cons none vs = none
  then_cons (some v) none = none
  then_cons (some v) (some vs) = some (v ∷ vs)

  -- the loop of `deserialize_to_vec`
  unfoldable pub decode_all : ℕ → Bytes → Option (List (Value J))
  decode_all zero rest = some []
  decode_all (suc count) rest = elim (decode_value libs json_lib rest) [
    | none ↦ none
    | some (v, n) ↦ then_cons (some v) (decode_all count (drop n rest))
  ]

  unfoldable pub deserialize_to_vec : Bytes → Option (List (Value J))
  unfolding decode_all
  deserialize_to_vec [] = none
  deserialize_to_vec (count ∷ rest) = decode_all count rest

  unfoldable pub deserialize : Bytes → Option (Tuple J)
  unfolding deserialize_to_vec
  deserialize bytes = elim (deserialize_to_vec bytes) [
    | none ↦ none
    | some vs ↦ some (record { values = vs })
  ]

  -- the loop of `deserialize_columns` at column `col`, with the needed columns not yet reached
  unfoldable pub decode_columns : ℕ → ℕ → List ℕ → Bytes → Option (List (Value J))
  decode_columns zero col needed rest = some []
  decode_columns (suc left) col [] rest = elim (skip_value rest) [
    | none ↦ none
    | some n ↦ then_cons (some Value.null) (decode_columns left (col + 1) [] (drop n rest))
  ]
  decode_columns (suc left) col (i ∷ needed) rest =
      if i == col
      then elim (decode_value libs json_lib rest) [
        | none ↦ none
        | some (v, n) ↦ then_cons (some v) (decode_columns left (col + 1) needed (drop n rest))
      ]
      else elim (skip_value rest) [
        | none ↦ none
        | some n ↦
            then_cons (some Value.null) (decode_columns left (col + 1) (i ∷ needed) (drop n rest))
      ]

  unfoldable pub deserialize_columns : Bytes → List ℕ → Option (Tuple J)
  unfolding decode_columns
  deserialize_columns [] needed = none
  deserialize_columns (count ∷ rest) needed = elim (decode_columns count 0 needed rest) [
    | none ↦ none
    | some vs ↦ some (record { values = vs })
  ]

  unfoldable pub key_bytes : Tuple J → List ℕ → Bytes
  key_bytes t [] = []
  key_bytes t (i ∷ key_columns) = elim (field t i) [
    | none ↦ key_bytes t key_columns
    | some v ↦ encode_value libs json_lib v ++ key_bytes t key_columns
  ]

-- the loop of `column_ranges`
unfoldable pub ranges_from : ℕ → ℕ → Bytes → Option (List (ℕ × ℕ))
ranges_from zero at rest = some []
ranges_from (suc count) at rest = elim (skip_value rest) [
  | none ↦ none
  | some n ↦ elim (ranges_from count (at + n) (drop n rest)) [
    | none ↦ none
    | some ranges ↦ some ((at, at + n) ∷ ranges)
  ]
]

unfoldable pub column_ranges : Bytes → Option (List (ℕ × ℕ))
unfolding ranges_from
column_ranges [] = none
column_ranges (count ∷ rest) = ranges_from count 1 rest

abbrev pub tag_blob_ref : ℕ
tag_blob_ref = 22

unfoldable pub blob_ref_from : ℕ → Bytes → Bool
blob_ref_from zero rest = false
blob_ref_from (suc count) [] = false
blob_ref_from (suc count) (tag ∷ rest) =
    if tag == tag_blob_ref then true else elim (skip_value (tag ∷ rest)) [
      | none ↦ false
      | some n ↦ blob_ref_from count (drop n (tag ∷ rest))
    ]

unfoldable pub has_blob_ref : Bytes → Bool
unfolding blob_ref_from
has_blob_ref [] = false
has_blob_ref (count ∷ rest) = blob_ref_from count rest

abbrev pub ref_here : Bytes → List Bytes
ref_here [] = []
ref_here (tag ∷ rest) =
    if tag == tag_blob_ref
    then (if ltb (length (tag ∷ rest)) 17 then [] else take 16 rest ∷ [])
    else []

unfoldable pub blob_refs_from : ℕ → Bytes → List Bytes
blob_refs_from zero rest = []
blob_refs_from (suc count) rest = elim (skip_value rest) [
  | none ↦ ref_here rest
  | some n ↦ ref_here rest ++ blob_refs_from count (drop n rest)
]

-- what `collect_blob_refs` adds to its output
unfoldable pub collect_blob_refs : Bytes → List Bytes
unfolding blob_refs_from
collect_blob_refs [] = []
collect_blob_refs (count ∷ rest) = blob_refs_from count rest

-- the loop of `column_offset`
unfoldable pub offset_from : ℕ → ℕ → Bytes → Option ℕ
offset_from zero at rest = some at
offset_from (suc i) at rest = elim (skip_value rest) [
  | none ↦ none
  | some n ↦ offset_from i (at + n) (drop n rest)
]

unfoldable pub column_offset : Bytes → ℕ → Option ℕ
unfolding offset_from
column_offset [] col_idx = none
column_offset (count ∷ rest) col_idx =
    if leb count col_idx then none else offset_from col_idx 1 rest

-- an integer or a timestamp at the start of the bytes
abbrev pub int64_here : Bytes → Option ℤ
int64_here [] = none
int64_here (tag ∷ rest) =
    if (tag == 2) || (tag == 7)
    then (if ltb (length (tag ∷ rest)) 9
        then none
        else some (signed half64 (from_le_bytes (take 8 rest))))
    else none

unfoldable pub read_int64_at : Bytes → ℕ → Option ℤ
unfolding column_offset
read_int64_at bytes col_idx = elim (column_offset bytes col_idx) [
  | none ↦ none
  | some at ↦ int64_here (drop at bytes)
]

abbrev pub compare_ℤ : ℤ → ℤ → Ordering
compare_ℤ a b = if ltb_ℤ a b then Ordering.lt else if eq_ℤ a b then Ordering.eq else Ordering.gt

unfoldable pub compare_column_int64 : Bytes → ℕ → ℤ → Option Ordering
unfolding column_offset
compare_column_int64 bytes col_idx literal = elim (column_offset bytes col_idx) [
  | none ↦ none
  | some at ↦ elim (int64_here (drop at bytes)) [
    | none ↦ none
    | some v ↦ some (compare_ℤ v literal)
  ]
]

module _ {J : Type 0} (libs : Compressors) (json_lib : JsonLibrary J) where
  abbrev pub value_here : Option (Value J × ℕ) → Option (Value J)
  value_here none = none
  value_here (some (v, n)) = some v

  unfoldable pub read_value_at : Bytes → ℕ → Option (Value J)
  unfolding column_offset
  read_value_at bytes col_idx = elim (column_offset bytes col_idx) [
    | none ↦ none
    | some at ↦ value_here (decode_value libs json_lib (drop at bytes))
  ]
