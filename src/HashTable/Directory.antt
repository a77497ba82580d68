-- ===== src/HashTable/Directory.antt =====
-- src/hash_table/dir_page.rs: the directory page. `none` is a panic.
pub mod Laws
use dbstorage.Base.{
  ℕ, suc, ◌+◌, ◌-◌, ◌*◌, ◌/◌, ◌%◌, ◌^◌, List, Option, some, none, range, copy_from_slice, get_elem?,
}
use dbstorage.Base.Panic.{◌>>=◌}
use dbstorage.Bytes.Words.{to_be_bytes, from_be_bytes}
use dbstorage.Bytes.Signed.{ℤ, i32_bits, i32_of_bits}
use dbstorage.Page.{PageId, PageBuf, zeroed}

abbrev pub page_ids_size_u32 : ℕ
page_ids_size_u32 = 512

abbrev pub page_ids_size_u8 : ℕ
page_ids_size_u8 = 512 * 4

-- The ends of `LOCAL_DEPTHS` and `PAGE_IDS`, which begin at 4 and at `PAGE_IDS_SIZE_U32`.
abbrev pub local_depths_end : ℕ
local_depths_end = 4 + page_ids_size_u32

abbrev pub page_ids_end : ℕ
page_ids_end = page_ids_size_u32 + page_ids_size_u8

pub record Directory : Type 0 where
  pub global_depth : ℕ
  pub local_depths : List ℕ
  pub page_ids : List ℕ

-- `Directory::from(&PageBuf)`
unfoldable pub from_page : PageBuf → Option Directory
from_page buf = do
  depth ← range buf 0 4
  depths ← range buf 4 local_depths_end
  ids ← range buf page_ids_size_u32 page_ids_end
  some (record { global_depth = from_be_bytes depth; local_depths = depths; page_ids = ids })

-- `PageBuf::from(&Directory)`
unfoldable pub to_page : Directory → Option PageBuf
to_page dir = do
  b₁ ← copy_from_slice zeroed 0 4 (to_be_bytes 4 dir.global_depth)
  b₂ ← copy_from_slice b₁ 4 local_depths_end dir.local_depths
  copy_from_slice b₂ page_ids_size_u32 page_ids_end dir.page_ids

unfoldable pub get : Directory → ℕ → Option PageId
get dir i = do
  bytes ← range dir.page_ids (i * 4) (i * 4 + 4)
  some (i32_of_bits (from_be_bytes bytes))

unfoldable pub insert : Directory → ℕ → PageId → Option Directory
insert dir i id = do
  ids ← copy_from_slice dir.page_ids (i * 4) (i * 4 + 4) (to_be_bytes 4 (i32_bits id))
  some (record dir { page_ids = ids })

unfoldable pub set_global_depth : Directory → ℕ → Directory
set_global_depth dir depth = record dir { global_depth = depth }

-- `+= 1` on a `u32`, wrapping.
unfoldable pub incr_global_depth : Directory → Directory
incr_global_depth dir = record dir { global_depth = (dir.global_depth + 1) % 2 ^ 32 }

-- `(1 << depth) - 1` on a `usize`; a shift takes the amount modulo 64.
unfoldable pub depth_mask : ℕ → ℕ
depth_mask depth = 2 ^ (depth % 64) - 1

unfoldable pub local_depth_mask : Directory → ℕ → Option ℕ
unfolding depth_mask
local_depth_mask dir i = do depth ← get_elem? dir.local_depths i; some (depth_mask depth)

unfoldable pub global_depth_mask : Directory → ℕ
unfolding depth_mask
global_depth_mask dir = depth_mask dir.global_depth

unfoldable pub get_local_high_bit : Directory → ℕ → Option ℕ
get_local_high_bit dir i = do depth ← get_elem? dir.local_depths i; some (2 ^ (depth % 64))
