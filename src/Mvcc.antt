-- ===== src/Mvcc.antt =====
-- bytedb-core/src/mvcc: multi-version concurrency control. The version chains and what a snapshot
-- sees of them, the transaction manager, and the row locks.
pub mod Visibility
pub mod Chain
pub mod Versions
pub mod Ssi
pub mod Transactions
pub mod Locks
