-- ===== src/Tuple/Compress.antt =====
-- bytedb-core/src/compress.rs: the frame around a compressed byte sequence. The two compressors
-- belong to other libraries and are parameters.
use byte_db.Common.{
  ℕ, ◌+◌, ◌==◌, ◌≡◌, ◌≤◌, Option, none, some, ◌∷◌, ◌++◌, ltb, if◌then◌else◌, length, take, drop,
  get_or, Bytes,
}
use byte_db.Common.LeBytes.{to_le_bytes, from_le_bytes}

pub data Algo : Type 0 where
  lz4 zstd : Algo

pub record Compressors : Type 0 where
  pub lz4_compress : Bytes → Bytes
  pub lz4_decompress : Bytes → ℕ → Option Bytes
  pub zstd_compress : Bytes → Option Bytes
  pub zstd_decompress : Bytes → Option Bytes

abbrev pub min_compress_size : ℕ
min_compress_size = 1024

-- the tag, the size before, the size after, and the compressed bytes
abbrev pub packed : ℕ → Bytes → Bytes → Bytes
packed tag bytes small =
    tag ∷ to_le_bytes 8 (length bytes) ++ (to_le_bytes 4 (length small) ++ small)

abbrev pub if_size : ℕ → Option Bytes → Option Bytes
if_size size none = none
if_size size (some out) = if length out == size then some out else none

module _ (libs : Compressors) where
  unfoldable pub compress : Bytes → Option (Bytes × Algo)
  compress bytes =
      if ltb (length bytes) min_compress_size
      then none
      else let lz4_buf = libs.lz4_compress bytes in
        if ltb (length lz4_buf) (length bytes)
        then some (packed 12 bytes lz4_buf, lz4)
        else elim (libs.zstd_compress bytes) [
          | none ↦ none
          | some zstd_buf ↦
              if ltb (length zstd_buf) (length bytes)
              then some (packed 13 bytes zstd_buf, zstd)
              else none
        ]

  unfoldable pub decompress : Bytes → Option Bytes
  decompress bytes =
      let orig_size = from_le_bytes (take 8 (drop 1 bytes)) in
      let comp_size = from_le_bytes (take 4 (drop 9 bytes)) in
      let compressed = take comp_size (drop 13 bytes) in
      if ltb (length bytes) 13
      then none
      else if ltb (length bytes) (13 + comp_size)
      then none
      else if get_or bytes 0 0 == 12
      then if_size orig_size (libs.lz4_decompress compressed orig_size)
      else if get_or bytes 0 0 == 13
      then if_size orig_size (libs.zstd_decompress compressed)
      else none

-- what the code relies on: what was compressed is given back, and is something
pub record IsLossless (libs : Compressors) : Type 0 where
  pub lz4_back : (b : Bytes) → libs.lz4_decompress (libs.lz4_compress b) (length b) ≡ some b
  pub lz4_some : (b : Bytes) → 1 ≤ length (libs.lz4_compress b)
  pub zstd_back : (b c : Bytes) → libs.zstd_compress b ≡ some c → libs.zstd_decompress c ≡ some b
  pub zstd_some : (b c : Bytes) → libs.zstd_compress b ≡ some c → 1 ≤ length c
