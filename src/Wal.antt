-- ===== src/Wal.antt =====
-- bytedb-core/src/wal: the write-ahead log. Its records, its format on disk, and the repair of a
-- log that was torn by a crash.
pub mod LogRecord
pub mod LogManager
pub mod Recovery
pub mod GroupCommit
