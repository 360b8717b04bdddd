-- ===== src/Lib.antt =====
-- ByteDB, an embedded SQL database in Rust: a model of the logic of its storage core, and what is
-- proved of it.
--
-- The core (bytedb-core) keeps the versions of every row in a version store, hands out snapshots by
-- a transaction manager, which also tracks the reads and writes of serializable transactions, has a
-- table of row locks, and a log that is written ahead of the data and repaired when it is opened
-- after a crash. The query engine (bytedb-query) calls `begin` and `get_snapshot`, writes by
-- `ensure_base`, `insert`, `try_update` and `try_delete`, reads single rows by `lookup_for_read`,
-- and ends with `commit`, or with `abort` and `rollback_txn`; a worker collects old versions by
-- `gc_with_aborted`. The engine does not use the lock table so far. The rows that it stores are
-- bytes: a row of values is encoded and decoded by the tuple codec, whole or only in the columns
-- that a query needs; the keys of indexes are encoded so that their bytes are in the order of the
-- values. Rows can be checked against a schema by `validate`, which the engine does not call. The
-- storage layer has pages with slots for tuples, a map of the free space on the pages, and a
-- replacer that says which frame of the buffer pool gives way.
--
--   Error                bytedb-core/src/error.rs: the errors and the result type.
--   HashMap              the standard library's hash map, as an association list.
--   Buffer.Replacer      bytedb-core/src/buffer/replacer.rs: `LruKReplacer`. Histories has the
--                        reachable replacers, Victims the property of `evict`.
--   Index.OrderKey       bytedb-core/src/index/order_key.rs: the keys of indexes. Bytewise has the
--                        order of byte sequences, Ordered the properties.
--   Mvcc.Visibility      bytedb-core/src/mvcc/visibility.rs, and `is_visible` of
--                        mvcc/version_store.rs.
--   Mvcc.Chain           mvcc/version_store.rs: what each method does to one chain of versions.
--   Mvcc.Versions        mvcc/version_store.rs: `VersionStore`, its 64 shards and its methods. Its
--                        children: View (a store as a function from keys to chains), Sharded (the
--                        shards are well formed), Passes (the methods that visit every chain), Write
--                        and Outcome (a call that writes, and what it may do to a chain), then the
--                        properties in Isolation, Conflicts, Rollback, Collection, Reads, OwnWrites
--                        and OwnDeletes; Scans has the methods that read every key.
--   Mvcc.Ssi             bytedb-core/src/mvcc/transaction.rs: `SsiState` and the three
--                        `ssi_record_…` methods. Flags, Entries and Later have the lemmas, and
--                        Serializable what one call does.
--   Mvcc.Transactions    mvcc/transaction.rs: `TransactionManager` and its methods. Invariant and
--                        Reach treat the reachable managers as a step relation; Snapshots, Commit
--                        and Dependencies have the other properties, Runs the lemmas on runs of calls,
--                        Queries the methods that change nothing.
--   Mvcc.Locks           bytedb-core/src/mvcc/lock_manager.rs: `LockManager`. Table has one lock's
--                        state, Deadlock the search of `detect_deadlock`. Exclusion and Reach treat the
--                        reachable managers as a step relation, Outcome one round of
--                        `acquire_with_timeout`, Release `release_all`; Cycles, Search and WaitGraph
--                        relate the search to the cycles of the lock table.
--   Storage.Slots        bytedb-core/src/storage/page.rs: the header of a page and the entries of its
--                        directory, in its bytes.
--   Storage.Page         storage/page.rs: the operations on a page. Layout says what a well-formed page
--                        is, Change, View and Rewrite have the lemmas on one entry, Alloc, Delete,
--                        Update, Place and Compact those of each operation, Outcome and Updates relate
--                        them to a directory of tuples, Runs and Success have the properties.
--   Storage.Memory       the array of a page's bytes.
--   Storage.FreeSpace    bytedb-core/src/storage/fsm.rs: `FreeSpaceMap`. Counts and Placed have the
--                        invariant of the buckets, Find the search.
--   Storage.FreeList     bytedb-core/src/storage/freelist.rs.
--   Tuple.Value          bytedb-core/src/tuple/value.rs: values and their types.
--   Tuple.Schema         bytedb-core/src/tuple/schema.rs, and `validate` of tuple/tuple.rs, of which
--                        Validity has the property.
--   Tuple.Compress       bytedb-core/src/compress.rs.
--   Tuple.Codec          bytedb-core/src/tuple/tuple.rs: `encode_value`, `decode_value` and
--                        `skip_value`. Packed and RoundTrip have the lemmas on one value.
--   Tuple.Row            tuple/tuple.rs: rows, and what is read from a row's bytes. The properties are
--                        in Back, Skips and Columns.
--   Wal.LogRecord        bytedb-core/src/wal/log_record.rs.
--   Wal.LogManager       bytedb-core/src/wal/log_manager.rs: `new`, `append`, `read_all_records`,
--                        `scan_and_repair`, `verify_chain` and `truncate`. Frames has the
--                        lemmas on one frame, RoundTrip and Repair the properties.
--   Wal.Recovery         bytedb-core/src/wal/recovery.rs: `recover` and `recover_to_lsn`; the
--                        properties are in Outcome.
--   Wal.GroupCommit      wal/log_manager.rs: `commit` and the parts of `flush_through`.
--   Tests                every property with hypotheses at concrete inputs.
--   Common               lists over the native numbers, Boolean tests, keys, bits, integers,
--                        little-endian numbers, texts.
--
-- State and steps. A struct is a record, a method that changes it a function to the new record. A
-- method that holds its lock throughout is one step, so that a run of several threads is a list of
-- steps. `ssi_record_read` and `ssi_record_write` take two locks one after the other, and are two
-- steps each; the first lock is a shared one, and that two threads hold it at once is not covered.
-- `begin`, `commit`, `abort` and `gc_ssi_recent` of the transaction manager take several locks one
-- after another, the methods of the version store that visit every shard take the shards' locks in
-- turn, and the replacer has a lock per field; there each call is one step all the same, and what
-- other threads do inside one call is not covered. The chain of a key is a list with the oldest
-- version first. The stored `Tuple` is a parameter, `D`, since the store never looks into it. `now`
-- is an argument wherever the source reads the clock. The checksum and the encoding of log records
-- belong to other libraries and are parameters too; a property that needs it assumes that a
-- checksum has 32 bits, and that the records in question are decoded to what was encoded. The log
-- is the bytes of its file on disk and those in the buffer of its `BufWriter`; whoever reads the
-- log sees only the file. A page is a function from positions to bytes; a text is its bytes, a
-- float its bit pattern, and the JSON library and the two compressors are parameters.
--
-- Bounds. `u64` and `usize` counters are natural numbers with `% 2 ^ 64` written at each increment;
-- where a property needs a counter that has not wrapped, it says so. Loops are structural recursions
-- on the lists that they traverse, but for the search of `detect_deadlock`, which takes fuel: each
-- node is pushed and popped at most once, so that twice their number, and one round more, is enough,
-- which the proof of its property shows. The two loops over the log have one round more than the
-- file has bytes, since each round but the last takes 16 bytes or more.
--
-- Not modelled: the buffer pool, the disk manager, the B+ tree, the comparison, printing and parsing
-- of values, the SQL front end, and the server, client and benchmark programs.
pub mod Buffer
pub mod Common
pub mod Error
pub mod HashMap
pub mod Index
pub mod Mvcc
pub mod Storage
pub mod Tuple
pub mod Wal
pub mod Tests
