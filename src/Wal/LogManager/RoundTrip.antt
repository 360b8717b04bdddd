-- ===== src/Wal/LogManager/RoundTrip.antt =====
-- What was appended to the log, and flushed, is what is read from it.
use mathlib.Core.List.{append_assoc, append-nil}
use byte_db.Common.{
  ℕ, zero, suc, ◌+◌, ◌≤◌, ◌<◌, ◌≡◌, refl, sym, ap, ◌∙◌, false, Option, some, List, [], ◌∷◌, ◌++◌,
  length, take, drop, length-append, take-append-drop, arith, All, Bytes,
}
use byte_db.Error.{ok}
use byte_db.Wal.LogRecord.{LogRecord, Lsn}
use byte_db.Wal.LogManager.{
  LogManager, new_log, flush_writer, write_out, ended, frame, append, len_at, data_at, is_broken,
  scan, repaired, scan_and_repair, read, read_result, read_all_records,
}
use byte_db.Wal.LogManager.Frames.{
  IsCoded, frames, framed, length-framed, len_at-framed, after-framed, data_at-framed, rest-framed,
  is_broken-framed,
}
use byte_db.Wal.LogManager.Repair.{scan-frames, scan-short, frames-long}

-- the records with their numbers, after the number `n`
abbrev pub numbered : Lsn → List LogRecord → List (Lsn × LogRecord)
numbered n [] = []
numbered n (r ∷ rs) = (n + 1, r) ∷ numbered (n + 1) rs

-- what happens to an open log: a record is appended, the writer writes out some bytes of its buffer,
-- or it is flushed
pub data LogEvent : Type 0 where
  appends : LogRecord → LogEvent
  writes_out : ℕ → LogEvent
  flushes : LogEvent

-- the records that were appended
abbrev pub appended : List LogEvent → List LogRecord
appended [] = []
appended (appends r ∷ es) = r ∷ appended es
appended (writes_out n ∷ es) = appended es
appended (flushes ∷ es) = appended es

module _ (hash : Bytes → ℕ) (serialize : LogRecord → Bytes) where
  unfoldable pub run : LogManager → List LogEvent → LogManager
  unfolding append write_out flush_writer
  run lm [] = lm
  run lm (appends r ∷ es) = run (append hash serialize lm r).1 es
  run lm (writes_out n ∷ es) = run (write_out n lm) es
  run lm (flushes ∷ es) = run (flush_writer lm) es

  append-short :
      (lm : LogManager) (r : LogRecord)
      → length (serialize r) ≤ 67108864
      → lm.current_lsn + 1 < 18446744073709551616
      → append hash serialize lm r ≡ (
        ok (lm.current_lsn + 1),
        record lm {
          buffer = lm.buffer ++ frame hash lm.current_lsn (serialize r);
          current_lsn = lm.current_lsn + 1;
        },
      )
  unfolding append
  append-short lm r h m = ground arith

-- the bytes on disk and those that are on their way to it
abbrev contents : LogManager → Bytes
contents lm = lm.file ++ lm.buffer

write_out-contents : (n : ℕ) (lm : LogManager) → contents (write_out n lm) ≡ contents lm
unfolding write_out
write_out-contents n lm =
    append_assoc lm.file (take n lm.buffer) (drop n lm.buffer)
    ∙ ap (λ x. lm.file ++ x) (take-append-drop n lm.buffer)

module _ (hash : Bytes → ℕ) (deserialize : Bytes → Option LogRecord) where
  read-good :
      (fuel : ℕ) (rest : Bytes) (total n off : ℕ) (acc : List (Lsn × LogRecord)) (r : LogRecord)
      → 16 ≤ length rest
      → len_at rest ≤ 67108864
      → len_at rest ≤ length (drop 16 rest)
      → is_broken hash rest n ≡ false
      → deserialize (data_at rest) ≡ some r
      → read hash deserialize (suc fuel) rest total n n off acc
        ≡ read hash deserialize fuel
            (drop (len_at rest) (drop 16 rest))
            total
            (n + 1)
            (n + 1)
            (off + 16 + len_at rest)
            (acc ++ (n + 1, r) ∷ [])
  unfolding read
  read-good fuel rest total n off acc r a b c d e = ground arith

  read-end :
      (fuel total n off : ℕ) (acc : List (Lsn × LogRecord))
      → read hash deserialize (suc fuel) [] total n n off acc ≡ some (ended acc)
  unfolding read
  read-end fuel total n off acc = refl

module _ (hash : Bytes → ℕ) (serialize : LogRecord → Bytes) (deserialize : Bytes → Option LogRecord)
    (narrow : (b : Bytes) → hash b < 4294967296) where
  run-frames :
      (es : List LogEvent) (lm : LogManager)
      → All (IsCoded hash serialize deserialize) (appended es)
      → lm.current_lsn + length (appended es) < 18446744073709551616
      → contents (run hash serialize lm es)
        ≡ contents lm ++ frames hash serialize lm.current_lsn (appended es)
  unfolding run frames write_out flush_writer
  run-frames [] lm coded m = sym (append-nil (contents lm))
  run-frames (appends r ∷ es) lm coded m =
      let f = frame hash lm.current_lsn (serialize r) in
      ap (λ x. contents (run hash serialize x.1 es))
        (append-short hash serialize lm r coded.0.short (omega arith))
      ∙ run-frames es _ coded.1 (omega arith)
      ∙ ap (λ x. x ++ frames hash serialize (lm.current_lsn + 1) (appended es))
          (sym (append_assoc lm.file lm.buffer f))
      ∙ append_assoc (contents lm) f _
  run-frames (writes_out n ∷ es) lm coded m =
      run-frames es (write_out n lm) coded m
      ∙ ap (λ x. x ++ frames hash serialize lm.current_lsn (appended es)) (write_out-contents n lm)
  run-frames (flushes ∷ es) lm coded m =
      run-frames es (flush_writer lm) coded m
      ∙ ap (λ x. x ++ frames hash serialize lm.current_lsn (appended es)) (append-nil (contents lm))

  read-frame :
      (fuel : ℕ) (r : LogRecord) (tail : Bytes) (total n off : ℕ) (acc : List (Lsn × LogRecord))
      → IsCoded hash serialize deserialize r
      → n < 18446744073709551616
      → read hash deserialize (suc fuel) (framed hash n (serialize r) tail) total n n off acc
        ≡ read hash deserialize fuel tail total
            (n + 1)
            (n + 1)
            (off + 16 + length (serialize r))
            (acc ++ (n + 1, r) ∷ [])
  read-frame fuel r tail total n off acc h m =
      let b = serialize r in
      let len = len_at-framed hash n b tail h.short in
      read-good hash deserialize fuel (framed hash n b tail) total n off acc r
        (omega (arith, length-framed hash n b tail)) (omega (arith, len, h.short))
        (rw (after-framed hash n b tail) (omega (arith, len, length-append b tail)))
        (is_broken-framed hash n b tail h.short (narrow _) m)
        (rw (data_at-framed hash n b tail h.short) h.decoded)
      ∙ rw (rest-framed hash n b tail h.short) (rw len refl)

  read-frames :
      (rs : List LogRecord) (fuel n off total : ℕ) (acc : List (Lsn × LogRecord))
      → length rs < fuel
      → All (IsCoded hash serialize deserialize) rs
      → n + length rs < 18446744073709551616
      → read hash deserialize fuel (frames hash serialize n rs) total n n off acc
        ≡ some (ended (acc ++ numbered n rs))
  unfolding frames
  read-frames rs zero n off total acc few coded m = absurd (omega arith)
  read-frames [] (suc fuel) n off total acc few coded m =
      read-end hash deserialize fuel total n off acc
      ∙ ap (λ x. some (ended x)) (sym (append-nil acc))
  read-frames (r ∷ rs) (suc fuel) n off total acc few coded m =
      read-frame fuel r (frames hash serialize (n + 1) rs) total n off acc coded.0 (omega arith)
      ∙ read-frames rs fuel (n + 1) _ total _ (omega arith) coded.1 (omega arith)
      ∙ ap (λ x. some (ended x)) (append_assoc acc ((n + 1, r) ∷ []) (numbered (n + 1) rs))

  scan-whole :
      (rs : List LogRecord) (file : Bytes)
      → All (IsCoded hash serialize deserialize) rs
      → length rs < 18446744073709551616
      → file ≡ frames hash serialize 0 rs
      → scan_and_repair hash deserialize file ≡ some (ok (length rs), file)
  unfolding scan_and_repair
  scan-whole rs file coded m e =
      let whole = frames hash serialize 0 rs in
      let long = frames-long hash serialize deserialize narrow 0 rs in
      let total = length whole in
      let scanned =
        scan-frames hash serialize deserialize narrow rs (suc total) 0 0 total []
          (some (ended (length rs))) (omega (arith, long)) coded (omega arith) (omega arith)
          (λ f k o x y.
            scan-short hash deserialize f [] total k o (omega arith)
            ∙ ap (λ z. some (ended z)) (omega (arith, x))) in
      ap (repaired file) (
        ap (λ f. scan hash deserialize (suc (length f)) f (length f) 0 0 0) e
        ∙ ap (λ f. scan hash deserialize (suc total) f total 0 0 0) (sym (append-nil whole))
        ∙ scanned)

  -- A new log takes any run of appends and flushes, of records that the encoding gives back and
  -- that are not too long, while its writer writes out bytes of its buffer at any time. Once the
  -- writer is then flushed, `read_all_records` returns from the file on disk the records that were
  -- appended, numbered from 1, and `scan_and_repair`, with which the log is opened again, returns
  -- the number of the last one; both leave the file as it is. The checksum has 32 bits, and there
  -- are fewer than 2^64 records.
  pub log_roundtrip :
      (es : List LogEvent)
      → All (IsCoded hash serialize deserialize) (appended es)
      → length (appended es) < 18446744073709551616
      → let file = (flush_writer (run hash serialize new_log es)).file in
        (read_all_records hash deserialize file ≡ some (ok (numbered 0 (appended es)), file))
        × (scan_and_repair hash deserialize file ≡ some (ok (length (appended es)), file))
  unfolding read_all_records flush_writer
  log_roundtrip es coded m =
      let rs = appended es in
      let file = (flush_writer (run hash serialize new_log es)).file in
      let e : file ≡ frames hash serialize 0 rs = run-frames es new_log coded (omega arith) in
      let long = frames-long hash serialize deserialize narrow 0 rs in
      (
        ap (read_result file) (
            ap (λ f. read hash deserialize (suc (length f)) f (length f) 0 0 0 []) e
            ∙ read-frames rs (suc (length (frames hash serialize 0 rs))) 0 0 _ []
                (omega (arith, long)) coded (omega arith)),
        scan-whole rs file coded m e,
      )
