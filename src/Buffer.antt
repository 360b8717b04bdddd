-- ===== src/Buffer.antt =====
-- bytedb-core/src/buffer: which frame of the pool gives way.
pub mod Replacer
