-- ===== src/Tests.antt =====
-- The theorems at concrete inputs: a small store of byte keys with numbers as tuples, runs of the
-- transaction manager and the lock manager, a short
-- log, and rows of a few values.
mod Mvcc
mod Transactions
mod Locks
mod Wal
mod Tuple
mod Storage
mod Pages
mod Schemas
mod OrderKeys
mod Frames
