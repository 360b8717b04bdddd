-- ===== src/Wal/LogManager/Frames.antt =====
-- A file of whole frames, and what the loops over the log do at a whole frame.
use byte_db.Common.{
  ℕ, ◌+◌, ◌≤◌, ◌<◌, ◌≡◌, refl, ap, ◌∙◌, false, Option, some, List, [], ◌∷◌, ◌++◌, ==_refl, length,
  take, drop, take-append, drop-append, length-append, arith, Bytes,
}
use byte_db.Common.LeBytes.{to_le_bytes, from_le_bytes-to_le_bytes}
use byte_db.Wal.LogRecord.{LogRecord, Lsn}
use byte_db.Wal.LogManager.{frame, len_at, checksum_at, prev_at, data_at, is_broken}

module _ (hash : Bytes → ℕ) (serialize : LogRecord → Bytes)
    (deserialize : Bytes → Option LogRecord) where
  -- what the log relies on for a record: it is decoded to what was encoded, and is not too long
  pub record IsCoded (r : LogRecord) : Type 0 where
    pub decoded : deserialize (serialize r) ≡ some r
    pub short : length (serialize r) ≤ 67108864

module _ (hash : Bytes → ℕ) (serialize : LogRecord → Bytes) where
  -- the frames of a log from a record number on
  unfoldable pub frames : Lsn → List LogRecord → Bytes
  unfolding frame
  frames n [] = []
  frames n (r ∷ rs) = frame hash n (serialize r) ++ frames (n + 1) rs

module _ (hash : Bytes → ℕ) (n : Lsn) (bytes tail : Bytes) where
  abbrev pub framed : Bytes
  framed = frame hash n bytes ++ tail

  pub length-framed : length framed ≡ 16 + length bytes + length tail
  unfolding frame
  length-framed = omega (arith, length-append bytes tail)

  pub len_at-framed : length bytes ≤ 67108864 → len_at framed ≡ length bytes
  unfolding frame
  len_at-framed h = from_le_bytes-to_le_bytes 4 (length bytes) (omega arith)

  pub checksum_at-framed :
      hash (to_le_bytes 8 n ++ bytes) < 4294967296
      → checksum_at framed ≡ hash (to_le_bytes 8 n ++ bytes)
  unfolding frame
  checksum_at-framed h = from_le_bytes-to_le_bytes 4 (hash (to_le_bytes 8 n ++ bytes)) (omega arith)

  pub prev_at-framed : n < 18446744073709551616 → prev_at framed ≡ n
  unfolding frame
  prev_at-framed h = from_le_bytes-to_le_bytes 8 n (omega arith)

  pub after-framed : drop 16 framed ≡ bytes ++ tail
  unfolding frame
  after-framed = refl

  pub data_at-framed : length bytes ≤ 67108864 → data_at framed ≡ bytes
  data_at-framed h =
      rw (len_at-framed h) (ap (λ b. take (length bytes) b) after-framed ∙ take-append bytes tail)

  pub rest-framed : length bytes ≤ 67108864 → drop (len_at framed) (drop 16 framed) ≡ tail
  rest-framed h =
      rw (len_at-framed h) (ap (λ b. drop (length bytes) b) after-framed ∙ drop-append bytes tail)

  pub is_broken-framed :
      length bytes ≤ 67108864
      → hash (to_le_bytes 8 n ++ bytes) < 4294967296
      → n < 18446744073709551616
      → is_broken hash framed n ≡ false
  is_broken-framed h k m =
      rw (prev_at-framed m, data_at-framed h, checksum_at-framed k)
        (rw (==_refl (hash (to_le_bytes 8 n ++ bytes)), ==_refl n) refl)
