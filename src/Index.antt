-- ===== src/Index.antt =====
-- bytedb-core/src/index: the keys of indexes.
pub mod OrderKey
