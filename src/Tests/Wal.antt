-- ===== src/Tests/Wal.antt =====
-- Witnesses for the properties of the log, with a small encoding and checksum in place of the
-- libraries'.
use byte_db.Common.{
  ◌&&◌, true, false, contains, ℕ, ◌≡◌, ◌<◌, ◌+◌, ◌%◌, ◌==◌, if◌then◌else◌, ◌++◌, refl, Option, none,
  some, List, [], ◌∷◌, arith, take, All, Bytes,
}
use byte_db.Error.{ok}
use byte_db.Wal.LogRecord.{Lsn, LogRecord}
use byte_db.Wal.LogManager.{new_log, flush_writer, frame, scan_and_repair, read_all_records}
use byte_db.Wal.LogManager.Frames.{IsCoded, frames}
use byte_db.Wal.Recovery.{analyze_records, recover_inner}
use byte_db.Wal.Recovery.Outcome.{recovery_decides, recover_to_lsn_prefix}
use byte_db.Wal.LogManager.Repair.{torn_record_repaired, torn_header_kept}
use byte_db.Wal.LogManager.RoundTrip.{LogEvent, appends, writes_out, run, numbered, log_roundtrip}

abbrev sum : Bytes → ℕ
sum [] = 0
sum (b ∷ bs) = b + sum bs

abbrev checksum : Bytes → ℕ
checksum bs = sum bs % 4294967296

checksum-narrow : (bs : Bytes) → checksum bs < 4294967296
checksum-narrow bs = omega arith

-- only the records that begin and commit a transaction
abbrev encode : LogRecord → Bytes
encode (LogRecord.begin t) = 1 ∷ t ∷ []
encode (LogRecord.commit t) = 2 ∷ t ∷ []
encode _ = []

abbrev decode : Bytes → Option LogRecord
decode (tag ∷ t ∷ []) =
    if tag == 1
    then some (LogRecord.begin t)
    else if tag == 2
    then some (LogRecord.commit t)
    else none
decode _ = none

abbrev history : List LogRecord
history = LogRecord.begin 7 ∷ LogRecord.commit 7 ∷ []

-- the writer writes out the first header and a byte between the two appends
abbrev events : List LogEvent
events =
    appends (LogRecord.begin 7) ∷ writes_out 17 ∷ appends (LogRecord.commit 7) ∷ writes_out 1 ∷ []

history-IsCoded : All (IsCoded checksum encode decode) history
history-IsCoded = (
  record { decoded = refl; short = omega arith },
  (record { decoded = refl; short = omega arith }, tt),
)

torn_record_repaired_example :
    scan_and_repair checksum decode
      (frames checksum encode 0 history ++ take 17 (frame checksum 2 (encode (LogRecord.begin 8))))
    ≡ some (ok 2, frames checksum encode 0 history)
torn_record_repaired_example =
    torn_record_repaired checksum encode decode checksum-narrow history history-IsCoded
      (omega arith) (LogRecord.begin 8) 17 (omega arith) (omega arith) (omega arith)

torn_header_kept_example :
    scan_and_repair checksum decode
      (frames checksum encode 0 history ++ take 5 (frame checksum 2 (encode (LogRecord.begin 8))))
    ≡ some (
      ok 2,
      frames checksum encode 0 history ++ take 5 (frame checksum 2 (encode (LogRecord.begin 8))),
    )
torn_header_kept_example =
    torn_header_kept checksum encode decode checksum-narrow history history-IsCoded (omega arith)
      (LogRecord.begin 8) 5 (omega arith)

log_roundtrip_example :
    let file = (flush_writer (run checksum encode new_log events)).file in
    (read_all_records checksum decode file ≡ some (ok (numbered 0 history), file))
    × (scan_and_repair checksum decode file ≡ some (ok 2, file))
log_roundtrip_example =
    log_roundtrip checksum encode decode checksum-narrow events history-IsCoded (omega arith)

abbrev begun_twice : List (Lsn × LogRecord)
begun_twice = numbered 0 (LogRecord.begin 7 ∷ LogRecord.commit 7 ∷ LogRecord.begin 8 ∷ [])

recovery_decides_example :
    (contains (analyze_records begun_twice).committed_txns 7 ≡ true)
    × ((contains (analyze_records begun_twice).committed_txns 7
          && contains (analyze_records begun_twice).aborted_txns 7)
        ≡ false)
recovery_decides_example = recovery_decides begun_twice 7 (refl, (refl, (refl, tt)))

recover_to_lsn_prefix_example :
    let file = (flush_writer (run checksum encode new_log events)).file in
    recover_inner checksum decode file (some 1)
    ≡ some (ok (analyze_records (numbered 0 (take 1 history))), file)
recover_to_lsn_prefix_example =
    recover_to_lsn_prefix checksum encode decode checksum-narrow events 1 history-IsCoded
      (omega arith)
