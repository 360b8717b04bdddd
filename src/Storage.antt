-- ===== src/Storage.antt =====
-- bytedb-core/src/storage: the free space map, the free list and the pages.
pub mod FreeSpace
pub mod FreeList
pub mod Memory
pub mod Slots
pub mod Page
