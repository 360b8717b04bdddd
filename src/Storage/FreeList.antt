-- ===== src/Storage/FreeList.antt =====
-- bytedb-core/src/storage/freelist.rs. Each method holds the lock throughout.
use byte_db.Common.{ℕ, Bool, Option, none, some, List, [], ◌∷◌, ◌++◌, length, is_empty}

pub record FreeList : Type 0 where
  pub free_pages : List ℕ

unfoldable pub new : FreeList
new = record { free_pages = [] }

unfoldable pub push : FreeList → ℕ → FreeList
push l page_id = record { free_pages = l.free_pages ++ page_id ∷ [] }

abbrev pop_front : List ℕ → FreeList × Option ℕ
pop_front [] = (record { free_pages = [] }, none)
pop_front (p ∷ ps) = (record { free_pages = ps }, some p)

unfoldable pub pop : FreeList → FreeList × Option ℕ
pop l = pop_front l.free_pages

abbrev pub count_free : FreeList → ℕ
count_free l = length l.free_pages

abbrev pub has_none : FreeList → Bool
has_none l = is_empty l.free_pages
