-- ===== src/Tests/Directories.antt =====
-- An empty directory.
use dbstorage.Base.{List, ◌<◌, [], ◌∷◌, All, ℕ, ◌≡◌, some, arith, put, replicate, length-replicate}
use dbstorage.Base.Panic.{◌>>=◌}
use dbstorage.Bytes.Signed.{IsI32, pos}
use dbstorage.HashTable.Directory.{
  Directory, from_page, to_page, get, page_ids_size_u32, page_ids_size_u8,
}
use dbstorage.Page.{PageId}
use dbstorage.HashTable.Extendible.{bucket_index, repoint}
use dbstorage.HashTable.Extendible.Laws.{Repointed, get-bucket_index, repoint-Repointed}
use dbstorage.HashTable.Directory.Laws.{IsValid, from_page-to_page}

abbrev blank : Directory
blank = record {
  global_depth = 1;
  local_depths = replicate page_ids_size_u32 0;
  page_ids = replicate page_ids_size_u8 0;
}

blank-IsValid : IsValid blank
blank-IsValid = record {
  depth = omega arith;
  depths = length-replicate {A = ℕ} page_ids_size_u32 0;
  ids = length-replicate {A = ℕ} page_ids_size_u8 0;
}

eight : IsI32 (pos 8)
eight = omega arith

seven : IsI32 (pos 7)
seven = omega arith

from_page-to_page_example :
    (to_page blank >>= from_page)
    ≡ some (record blank { local_depths = put blank.local_depths 508 blank.page_ids })
from_page-to_page_example = from_page-to_page blank blank-IsValid

get-bucket_index_example :
    (bucket_index (λ n. n) 1000 blank < 512)
    × (id : PageId) × (get blank (bucket_index (λ n. n) 1000 blank) ≡ some id)
get-bucket_index_example = get-bucket_index {K = ℕ} (λ n. n) 1000 blank blank-IsValid

-- Two places that a split by bit 2 tells apart.
abbrev places : List ℕ
places = 1 ∷ 3 ∷ []

places-small : All (λ i. i < page_ids_size_u32) places
places-small = (omega arith, (omega arith, tt))

repoint-Repointed_example :
    (dir' : Directory) × (repoint 2 (pos 7) (pos 8) places blank ≡ some dir')
    × Repointed 2 (pos 7) (pos 8) places blank dir'
repoint-Repointed_example =
    repoint-Repointed 2 (pos 7) (pos 8) places blank blank-IsValid seven eight places-small
