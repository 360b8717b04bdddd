-- ===== src/Wal/LogManager/Repair.antt =====
-- What `scan_and_repair` does with a log that a crash has cut off.
use byte_db.Common.{
  lt→ltb, ℕ, zero, suc, ◌+◌, ◌≤◌, ◌<◌, ◌≡◌, refl, ap, ◌∙◌, true, false, Option, some, List, [], ◌∷◌,
  ◌++◌, is_some, length, take, drop, length-append, take-append, take-take, length-take, arith, All,
  Bytes,
}
use byte_db.Error.{ok}
use mathlib.Core.List.{append_assoc}
use byte_db.Common.LeBytes.{from_le_bytes, from_le_bytes-to_le_bytes}
use byte_db.Wal.LogRecord.{LogRecord, Lsn}
use byte_db.Wal.LogManager.{
  Scan, ended, torn, frame, len_at, data_at, is_broken, scan, repaired, scan_and_repair,
}
use byte_db.Wal.LogManager.Frames.{
  IsCoded, frames, framed, length-framed, len_at-framed, after-framed, data_at-framed, rest-framed,
  is_broken-framed,
}

module _ (hash : Bytes → ℕ) (deserialize : Bytes → Option LogRecord) where
  scan-good :
      (fuel : ℕ) (rest : Bytes) (total n off : ℕ)
      → 16 ≤ length rest
      → len_at rest ≤ 67108864
      → off + 16 + len_at rest ≤ total
      → len_at rest ≤ length (drop 16 rest)
      → is_broken hash rest n ≡ false
      → is_some (deserialize (data_at rest)) ≡ true
      → scan hash deserialize (suc fuel) rest total n n off
        ≡ scan hash deserialize fuel
            (drop (len_at rest) (drop 16 rest))
            total
            (n + 1)
            (n + 1)
            (off + 16 + len_at rest)
  unfolding scan
  scan-good fuel rest total n off a b c d e f = ground arith

  pub scan-torn :
      (fuel : ℕ) (rest : Bytes) (total n off : ℕ)
      → 16 ≤ length rest
      → total < off + 16 + len_at rest
      → scan hash deserialize (suc fuel) rest total n n off ≡ some (torn n off)
  unfolding scan
  scan-torn fuel rest total n off a b = ground arith

  pub scan-short :
      (fuel : ℕ) (rest : Bytes) (total n off : ℕ)
      → length rest < 16
      → scan hash deserialize (suc fuel) rest total n n off ≡ some (ended n)
  unfolding scan
  scan-short fuel rest total n off a = rw (lt→ltb (length rest) 16 a) refl

module _ (hash : Bytes → ℕ) (serialize : LogRecord → Bytes) (deserialize : Bytes → Option LogRecord)
    (narrow : (b : Bytes) → hash b < 4294967296) where
  scan-frame :
      (fuel : ℕ) (r : LogRecord) (tail : Bytes) (total n off : ℕ)
      → IsCoded hash serialize deserialize r
      → n < 18446744073709551616
      → off + 16 + length (serialize r) ≤ total
      → scan hash deserialize (suc fuel) (framed hash n (serialize r) tail) total n n off
        ≡ scan hash deserialize fuel tail total (n + 1) (n + 1) (off + 16 + length (serialize r))
  scan-frame fuel r tail total n off h m fits =
      let b = serialize r in
      let len = len_at-framed hash n b tail h.short in
      scan-good hash deserialize fuel (framed hash n b tail) total n off
        (omega (arith, length-framed hash n b tail)) (omega (arith, len, h.short))
        (omega (arith, len))
        (rw (after-framed hash n b tail) (omega (arith, len, length-append b tail)))
        (is_broken-framed hash n b tail h.short (narrow _) m)
        (rw (data_at-framed hash n b tail h.short) (rw h.decoded refl))
      ∙ rw (rest-framed hash n b tail h.short) (rw len refl)

  -- the whole frames are passed, and then what is left decides
  pub scan-frames :
      (rs : List LogRecord) (fuel n off total : ℕ) (tail : Bytes) (result : Option (Scan Lsn))
      → length rs < fuel
      → All (IsCoded hash serialize deserialize) rs
      → n + length rs < 18446744073709551616
      → off + length (frames hash serialize n rs) ≤ total
      → ((f m o : ℕ)
          → m ≡ n + length rs
          → o ≡ off + length (frames hash serialize n rs)
          → scan hash deserialize (suc f) tail total m m o ≡ result)
      → scan hash deserialize fuel (frames hash serialize n rs ++ tail) total n n off ≡ result
  unfolding frames
  scan-frames rs zero n off total tail result few coded m fits ends = absurd (omega arith)
  scan-frames [] (suc fuel) n off total tail result few coded m fits ends =
      ends fuel n off (omega arith) (omega arith)
  scan-frames (r ∷ rs) (suc fuel) n off total tail result few coded m fits ends =
      let b = serialize r in
      let later = frames hash serialize (n + 1) rs in
      let size = length-framed hash n b later in
      rw (append_assoc (frame hash n b) later tail) (
        scan-frame fuel r (later ++ tail) total n off coded.0 (omega arith) (omega (arith, size))
        ∙ scan-frames rs fuel (n + 1) (off + 16 + length b) total tail result (omega arith) coded.1
            (omega arith) (omega (arith, size))
            (λ f m' o e e'. ends f m' o (omega (arith, e)) (omega (arith, e', size))))

  pub frames-long : (n : ℕ) (xs : List LogRecord) → length xs ≤ length (frames hash serialize n xs)
  unfolding frames
  frames-long n [] = omega arith
  frames-long n (x ∷ xs) = omega (
    arith,
    frames-long (n + 1) xs,
    length-framed hash n (serialize x) (frames hash serialize (n + 1) xs),
  )

  module _ (rs : List LogRecord) (coded : All (IsCoded hash serialize deserialize) rs)
      (few : length rs < 18446744073709551616) where
    abbrev whole : Bytes
    whole = frames hash serialize 0 rs

    -- the end of the file after a cut `c` bytes into the next frame
    abbrev cut : Bytes → ℕ → Bytes
    cut b c = take c (frame hash (length rs) b)

    frame-length : (b : Bytes) → length (frame hash (length rs) b) ≡ 16 + length b
    unfolding frame
    frame-length b = omega arith

    len_at-cut : (b : Bytes) (c : ℕ) → length b ≤ 67108864 → 16 ≤ c → len_at (cut b c) ≡ length b
    unfolding frame
    len_at-cut b c h d =
        ap from_le_bytes (take-take 4 c (frame hash (length rs) b) (omega arith))
        ∙ from_le_bytes-to_le_bytes 4 (length b) (omega arith)

    -- Where a log of whole records ends in one that was cut off anywhere behind its header,
    -- `scan_and_repair` returns the number of the whole records, and the file then holds exactly
    -- those. The encoding gives each whole record back, no record is too long, the checksum has 32
    -- bits, and there are fewer than 2^64 records.
    pub torn_record_repaired :
        (r : LogRecord) (c : ℕ)
        → length (serialize r) ≤ 67108864
        → 16 ≤ c
        → c < 16 + length (serialize r)
        → scan_and_repair hash deserialize (whole ++ cut (serialize r) c)
          ≡ some (ok (length rs), whole)
    unfolding scan_and_repair
    torn_record_repaired r c short behind before =
        let b = serialize r in
        let file = whole ++ cut b c in
        let size = length-append whole (cut b c) in
        let kept = length-take c (frame hash (length rs) b) (omega (arith, frame-length b)) in
        ap (repaired file) (
          scan-frames rs (suc (length file)) 0 0 (length file) (cut b c)
            (some (torn (length rs) (length whole))) (omega (arith, size, frames-long 0 rs)) coded
            (omega arith) (omega (arith, size))
            (λ f m o e e'.
              scan-torn hash deserialize f (cut b c) (length file) m o (omega (arith, kept))
                (omega (arith, e', size, kept, len_at-cut b c short behind))
              ∙ ap (λ x. some (torn x o)) (omega (arith, e))
              ∙ ap (λ y. some (torn (length rs) y)) (omega (arith, e'))))
        ∙ ap (λ x. some (ok (length rs), x)) (take-append whole (cut b c))

    -- Where a log of whole records ends in less than the header of one more, `scan_and_repair`
    -- returns the number of the whole records and leaves the file as it is, the torn bytes at its
    -- end included. The encoding gives each whole record back, none is too long, the checksum has
    -- 32 bits, and there are fewer than 2^64 records.
    pub torn_header_kept :
        (r : LogRecord) (c : ℕ)
        → c < 16
        → scan_and_repair hash deserialize (whole ++ cut (serialize r) c)
          ≡ some (ok (length rs), whole ++ cut (serialize r) c)
    unfolding scan_and_repair
    torn_header_kept r c early =
        let b = serialize r in
        let file = whole ++ cut b c in
        let size = length-append whole (cut b c) in
        let kept = length-take c (frame hash (length rs) b) (omega (arith, frame-length b)) in
        ap (repaired file) (
          scan-frames rs (suc (length file)) 0 0 (length file) (cut b c) (some (ended (length rs)))
            (omega (arith, size, frames-long 0 rs)) coded (omega arith) (omega (arith, size))
            (λ f m o e e'.
              scan-short hash deserialize f (cut b c) (length file) m o (omega (arith, kept))
              ∙ ap (λ x. some (ended x)) (omega (arith, e))))
