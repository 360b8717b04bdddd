-- ===== src/Tuple/Packed.antt =====
-- A compressed byte sequence in a row is decoded to what was compressed.
use byte_db.Common.{
  ℕ, ◌+◌, ◌==◌, ==_refl, ◌≡◌, ◌≤◌, ◌<◌, refl, ◌∙◌, Option, some, ◌++◌, ltb, if◌then◌else◌, length,
  length-append, take, take-append, take-length, arith, Bytes, ◌⊎◌, inl, inr, Option-cases,
  Bool-cases,
}
use byte_db.Common.LeBytes.{to_le_bytes, from_le_bytes, from_le_bytes-to_le_bytes}
use byte_db.Tuple.Value.{Value}
use byte_db.Tuple.Compress.{Compressors, Algo, compress, decompress, packed, if_size, IsLossless}
use byte_db.Tuple.Codec.{decode_tagged, JsonLibrary, decode_value, comp_size, read_compressed}

-- what each compressor's tag stands for: `small` is unpacked to `b`
abbrev pub unpacks : Compressors → ℕ → Bytes → Bytes → Option Bytes
unpacks libs tag b small =
    if tag == 12 then libs.lz4_decompress small (length b) else libs.zstd_decompress small

pub record IsPacked (libs : Compressors) (b c : Bytes) : Type 0 where
  pub tag : ℕ
  pub small : Bytes
  pub frame : c ≡ packed tag b small
  pub known : (tag ≡ 12) ⊎ (tag ≡ 13)
  pub nonempty : 1 ≤ length small
  pub shorter : length small < length b
  pub back : unpacks libs tag b small ≡ some b

module _ (libs : Compressors) (lossless : IsLossless libs) (b c : Bytes) (algo : Algo) where
  pub compress-IsPacked : compress libs b ≡ some (c, algo) → IsPacked libs b c
  unfolding compress
  compress-IsPacked e = elim (Bool-cases (ltb (length b) 1024)) [
    | inl y ↦ absurd (ground (arith, e))
    | inr n ↦ elim (Bool-cases (ltb (length (libs.lz4_compress b)) (length b))) [
      | inl y ↦ record {
        tag = 12;
        small = libs.lz4_compress b;
        frame = ground (arith, e);
        known = inl refl;
        nonempty = lossless.lz4_some b;
        shorter = ground (arith, y);
        back = lossless.lz4_back b;
      }
      | inr n' ↦ elim (Option-cases (libs.zstd_compress b)) [
        | inl z ↦ absurd (ground (arith, e))
        | inr (small, z) ↦ elim (Bool-cases (ltb (length small) (length b))) [
          | inl y ↦ record {
            tag = 13;
            small = small;
            frame = ground (arith, e);
            known = inr refl;
            nonempty = lossless.zstd_some b small z;
            shorter = ground (arith, y);
            back = lossless.zstd_back b small z;
          }
          | inr n'' ↦ absurd (ground (arith, e))
        ]
      ]
    ]
  ]

module _ (libs : Compressors) (tag : ℕ) (b small post : Bytes) where
  pub length-packed : length (packed tag b small) ≡ 13 + length small
  length-packed = omega arith

  comp_size-packed :
      {J : Type 0} (json_lib : JsonLibrary J)
      → length small < 4294967296
      → comp_size libs json_lib (packed tag b small ++ post) ≡ length small
  comp_size-packed json_lib h = from_le_bytes-to_le_bytes 4 (length small) (omega arith)

  decompress-packed :
      (tag ≡ 12) ⊎ (tag ≡ 13)
      → length small < 4294967296
      → length b < 18446744073709551616
      → decompress libs (packed tag b small) ≡ if_size (length b) (unpacks libs tag b small)
  unfolding decompress
  decompress-packed k h m =
      let orig : from_le_bytes (to_le_bytes 8 (length b)) ≡ length b =
        from_le_bytes-to_le_bytes 8 (length b) (omega arith) in
      let comp : from_le_bytes (to_le_bytes 4 (length small)) ≡ length small =
        from_le_bytes-to_le_bytes 4 (length small) (omega arith) in
      rw (orig, decompress) (rw comp (rw (take-length small) (ground arith)))

  take-packed : take (13 + length small) (packed tag b small ++ post) ≡ packed tag b small
  take-packed =
      let size : 13 + length small ≡ length (packed tag b small) = omega arith in
      rw size (take-append (packed tag b small) post)

module _ {J : Type 0} (libs : Compressors) (json_lib : JsonLibrary J) where
  tagged-packed :
      (tag : ℕ) (rest : Bytes)
      → (tag ≡ 12) ⊎ (tag ≡ 13)
      → decode_tagged libs json_lib tag rest ≡ read_compressed libs json_lib rest
  tagged-packed tag rest (inl e) = rw e refl
  tagged-packed tag rest (inr e) = rw e refl

  if_size-some : (b : Bytes) (o : Option Bytes) → o ≡ some b → if_size (length b) o ≡ some b
  if_size-some b o e = rw e (rw (==_refl (length b)) refl)

  read_packed :
      (rest whole b : Bytes) (n : ℕ)
      → comp_size libs json_lib rest ≡ n
      → 1 ≤ n
      → 13 + n ≤ length rest
      → take (13 + n) rest ≡ whole
      → decompress libs whole ≡ some b
      → read_compressed libs json_lib rest ≡ some (Value.bytes b, 13 + n)
  read_packed rest whole b n c some_bytes fits t d = rw c (rw t (rw d (ground arith)))

  -- a compressed sequence is decoded to the bytes before
  pub decode_value-packed :
      (b c post : Bytes)
      → IsPacked libs b c
      → length b < 4294967296
      → decode_value libs json_lib (c ++ post) ≡ some (Value.bytes b, length c)
  unfolding decode_value
  decode_value-packed b c post p m =
      let tag = p.tag in
      let small = p.small in
      let rest = packed tag b small ++ post in
      let comp = comp_size-packed libs tag b small post json_lib (omega (arith, p.shorter)) in
      let back =
        decompress-packed libs tag b small post p.known (omega (arith, p.shorter)) (omega arith) in
      let size = length-packed libs tag b small post in
      rw (p.frame, size)
        (tagged-packed tag rest p.known
          ∙ read_packed rest (packed tag b small) b (length small) comp p.nonempty
              (omega (arith, length-append (packed tag b small) post, size))
              (take-packed libs tag b small post) (back ∙ if_size-some b _ p.back))
