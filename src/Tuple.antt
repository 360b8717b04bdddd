-- ===== src/Tuple.antt =====
-- bytedb-core/src/tuple: values, rows and their encoding, and schemas.
pub mod Value
pub mod Schema
pub mod Compress
pub mod Codec
pub mod Row
pub mod Packed
pub mod RoundTrip
