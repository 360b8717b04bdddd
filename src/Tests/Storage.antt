-- ===== src/Tests/Storage.antt =====
-- Witnesses for the properties of the free space map: two pages of 8192 bytes.
use byte_db.Common.{◌≡◌, ◌≤◌, ℕ, some, arith, nat_key, refl}
use byte_db.Storage.FreeSpace.{
  FreeSpaceMap, new, record_space, forget, find_with_at_least, free_bytes_for,
}
use byte_db.Storage.FreeSpace.Placed.{Reach, start, recorded, forgotten, IsPlaced, Reach-IsPlaced}
use byte_db.Storage.FreeSpace.Find.{find_with_at_least_finds}

-- page 7 is moved to another bucket, page 9 is forgotten
two_pages : FreeSpaceMap
two_pages = forget (record_space (record_space (record_space (new 8192) 7 100) 9 6000) 7 5000) 9

two_pages-Reach : Reach 8192 two_pages
unfolding two_pages
two_pages-Reach = forgotten 9 (
    recorded 7 5000 (omega arith)
      (recorded 9 6000 (omega arith) (recorded 7 100 (omega arith) start)))

Reach-IsPlaced_example : IsPlaced two_pages
Reach-IsPlaced_example = Reach-IsPlaced 8192 two_pages-Reach

find_with_at_least_finds_example :
    (x g : ℕ) × (find_with_at_least two_pages 2000 ≡ some x)
    × (free_bytes_for two_pages x ≡ some g)
    × (2000 ≤ g)
unfolding two_pages free_bytes_for record_space forget new
find_with_at_least_finds_example =
    find_with_at_least_finds 8192 two_pages two_pages-Reach 2000 7 5000 refl (omega arith)
