-- ===== src/Wal/LogManager.antt =====
-- bytedb-core/src/wal/log_manager.rs: the frames of the log, `append`, `read_all_records` and
-- `scan_and_repair`. What `append` writes goes into the buffer of a `BufWriter`, and from there to the
-- file on disk when the writer is flushed, or earlier, as the writer sees fit; whoever reads the log
-- sees the file on disk alone. Errors of the file system are left out. The checksum and the encoding
-- of records belong to other libraries and are parameters.
pub mod Frames
pub mod Repair
pub mod RoundTrip
use Prim.Native.String.{String}
use byte_db.Common.{
  ◌*◌, ℕ, zero, suc, ◌+◌, ◌-◌, ◌%◌, ◌^◌, Bool, true, false, Option, none, some, List, [], ◌∷◌, ◌++◌,
  not, ltb, leb, ◌==◌, ◌||◌, is_some, is_empty, if◌then◌else◌, length, take, drop, Bytes,
}
use byte_db.Error.{CoreError, Result, ok, err}
use byte_db.Common.LeBytes.{to_le_bytes, from_le_bytes}
use byte_db.Wal.LogRecord.{LogRecord, Lsn}

abbrev pub log_record_header_size : ℕ
log_record_header_size = 16

abbrev pub max_log_record_size : ℕ
max_log_record_size = 64 * 1024 * 1024

-- the file on disk, and what the writer has not yet written to it
pub record LogManager : Type 0 where
  pub file : Bytes
  pub buffer : Bytes
  pub current_lsn : Lsn

-- `new` where there is no file, or an empty one
abbrev pub new_log : LogManager
new_log = record { file = []; buffer = []; current_lsn = 0 }

-- the writer's `flush`, which `flush_through` and `truncate` call
unfoldable pub flush_writer : LogManager → LogManager
flush_writer lm = record lm { file = lm.file ++ lm.buffer; buffer = [] }

-- the writer's own choice to write out some bytes of the buffer, the oldest first
unfoldable pub write_out : ℕ → LogManager → LogManager
write_out n lm = record lm { file = lm.file ++ take n lm.buffer; buffer = drop n lm.buffer }

-- how a pass over the file ends: at its end, at a torn frame, to be cut off at that offset, or at a
-- frame that is broken though others follow
pub data Scan (A : Type 0) : Type 0 where
  ended : A → Scan A
  torn : A → ℕ → Scan A
  corrupted : Lsn → Scan A

-- the fields of a header, and the bytes of the record after it
abbrev pub len_at : Bytes → ℕ
len_at rest = from_le_bytes (take 4 rest)

abbrev pub checksum_at : Bytes → ℕ
checksum_at rest = from_le_bytes (take 4 (drop 4 rest))

abbrev pub prev_at : Bytes → Lsn
prev_at rest = from_le_bytes (take 8 (drop 8 rest))

abbrev pub data_at : Bytes → Bytes
data_at rest = take (len_at rest) (drop 16 rest)

-- the number of the last record, and the file after it
abbrev pub repaired : Bytes → Option (Scan Lsn) → Option (Result Lsn × Bytes)
repaired file none = none
repaired file (some (ended lsn)) = some (ok lsn, file)
repaired file (some (torn lsn offset)) = some (ok lsn, take offset file)
repaired file (some (corrupted lsn)) = some (err (CoreError.wal_corrupted lsn), file)

abbrev pub read_result :
    Bytes
    → Option (Scan (List (Lsn × LogRecord)))
    → Option (Result (List (Lsn × LogRecord)) × Bytes)
read_result file none = none
read_result file (some (ended records)) = some (ok records, file)
read_result file (some (torn records offset)) = some (ok records, take offset file)
read_result file (some (corrupted lsn)) = some (err (CoreError.wal_corrupted lsn), file)

module _ (hash : Bytes → ℕ) where
  -- what `append` writes: the length, the checksum, the number of the record before, the record
  unfoldable pub frame : Lsn → Bytes → Bytes
  frame prev_lsn bytes =
      to_le_bytes 4 (length bytes)
      ++ to_le_bytes 4 (hash (to_le_bytes 8 prev_lsn ++ bytes))
      ++ to_le_bytes 8 prev_lsn
      ++ bytes

  -- the checksum and the chain of record numbers
  abbrev pub is_broken : Bytes → Lsn → Bool
  is_broken rest expected_prev =
      not (hash (to_le_bytes 8 (prev_at rest) ++ data_at rest) == checksum_at rest)
      || not (prev_at rest == expected_prev)

module _ (hash : Bytes → ℕ) (serialize : LogRecord → Bytes) where
  unfoldable pub append : LogManager → LogRecord → Result Lsn × LogManager
  unfolding frame
  append lm entry =
      let bytes = serialize entry in
      if ltb max_log_record_size (length bytes)
      then (err (CoreError.internal "log record too large"), lm)
      else let lsn = (lm.current_lsn + 1) % 2 ^ 64 in
        let prev_lsn = lsn - 1 in
        (ok lsn, record lm { buffer = lm.buffer ++ frame hash prev_lsn bytes; current_lsn = lsn })

module _ (hash : Bytes → ℕ) (deserialize : Bytes → Option LogRecord) where
  -- the loop of `scan_and_repair` on the rest of the file; `none` says that the fuel is used up
  unfoldable pub scan : ℕ → Bytes → ℕ → Lsn → Lsn → ℕ → Option (Scan Lsn)
  scan zero rest total_len lsn expected_prev last_good_offset = none
  scan (suc fuel) rest total_len lsn expected_prev last_good_offset =
      let len = len_at rest in
      let frame_end = last_good_offset + log_record_header_size + len in
      let next = scan fuel (drop len (drop 16 rest)) total_len (lsn + 1) (lsn + 1) frame_end in
      if ltb (length rest) log_record_header_size
      then some (ended lsn)
      else if ltb max_log_record_size len || ltb total_len frame_end
      then some (torn lsn last_good_offset)
      else if ltb (length (drop 16 rest)) len
      then some (torn lsn last_good_offset)
      else if is_broken hash rest expected_prev || not (is_some (deserialize (data_at rest)))
      then some (if leb total_len frame_end then torn lsn last_good_offset else corrupted (lsn + 1))
      else next

  unfoldable pub scan_and_repair : Bytes → Option (Result Lsn × Bytes)
  unfolding scan
  scan_and_repair file = repaired file (scan (suc (length file)) file (length file) 0 0 0)

  -- the loop of `read_all_records` on the rest of the file
  unfoldable pub read :
      ℕ
      → Bytes
      → ℕ
      → Lsn
      → Lsn
      → ℕ
      → List (Lsn × LogRecord)
      → Option (Scan (List (Lsn × LogRecord)))
  read zero rest total_len lsn expected_prev last_good_offset records = none
  read (suc fuel) rest total_len lsn expected_prev last_good_offset records =
      let len = len_at rest in
      let frame_end = last_good_offset + log_record_header_size + len in
      let next = λ (r : LogRecord).
        read fuel (drop len (drop 16 rest)) total_len (lsn + 1) (lsn + 1) frame_end
          (records ++ (lsn + 1, r) ∷ []) in
      if ltb (length rest) log_record_header_size
      then some (ended records)
      else if ltb max_log_record_size len
      then some (torn records last_good_offset)
      else if ltb (length (drop 16 rest)) len
      then some
          (if ltb total_len frame_end then torn records last_good_offset else corrupted (lsn + 1))
      else if is_broken hash rest expected_prev
      then some
          (if leb total_len frame_end then torn records last_good_offset else corrupted (lsn + 1))
      else elim (deserialize (data_at rest)) [
        | some r ↦ next r
        | none ↦
            some (
              if leb total_len frame_end
              then torn records last_good_offset
              else corrupted (lsn + 1))
      ]

  -- on the file on disk: the records, and the file after it
  unfoldable pub read_all_records : Bytes → Option (Result (List (Lsn × LogRecord)) × Bytes)
  unfolding read
  read_all_records file = read_result file (read (suc (length file)) file (length file) 0 0 0 [])

  -- `new` on a file that is there: its number, and the file after the repair
  abbrev pub opened : Option (Result Lsn × Bytes) → Option (Result LogManager)
  opened none = none
  opened (some (ok lsn, file)) = some (ok (record { file = file; buffer = []; current_lsn = lsn }))
  opened (some (err e, file)) = some (err e)

  unfoldable pub open_log : Bytes → Option (Result LogManager)
  unfolding scan_and_repair
  open_log file = if is_empty file then some (ok new_log) else opened (scan_and_repair file)

  abbrev pub checked :
      Option (Result (List (Lsn × LogRecord)) × Bytes) → Option (Result (Unit {0}) × Bytes)
  checked none = none
  checked (some (ok records, file)) = some (ok tt, file)
  checked (some (err e, file)) = some (err e, file)

  -- the result, and the file, which the reading may have cut off
  unfoldable pub verify_chain : Bytes → Option (Result (Unit {0}) × Bytes)
  unfolding read_all_records
  verify_chain file = checked (read_all_records file)

unfoldable pub truncate : LogManager → LogManager
unfolding flush_writer
truncate lm = record (flush_writer lm) { file = []; current_lsn = 0 }
