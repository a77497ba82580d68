-- ===== src/Page.antt =====
-- src/page.rs: a frame's content. The lock around it is not modelled: the calls of the page cache
-- are modelled as they run one at a time.
use dbstorage.Base.{ℕ, zero, suc, ◌*◌, ◌≡◌, refl, ap, Bool, false, List, length, replicate}
use dbstorage.Bytes.Signed.{ℤ, pos, negsuc}

abbrev pub page_size : ℕ
page_size = 4 * 1024

abbrev pub PageId : Type 0
PageId = ℤ

-- `[u8; PAGE_SIZE]`: that the length is `page_size` is a part of the invariants.
abbrev pub PageBuf : Type 0
PageBuf = List ℕ

-- `[0; PAGE_SIZE]`
unfoldable pub zeroed : PageBuf
zeroed = replicate page_size 0

pub record PageInner : Type 0 where
  pub id : PageId
  pub dirty : Bool
  pub content : PageBuf

-- `PageInner::default()`
unfoldable pub default_page : PageInner
default_page = record { id = negsuc 0; dirty = false; content = zeroed }

unfoldable pub reset : PageInner → PageInner
reset p = record { id = pos 0; dirty = false; content = zeroed }

length-replicate {ℓ} : {A : Type ℓ} (n : ℕ) (a : A) → length (replicate n a) ≡ n
length-replicate zero a = refl
length-replicate (suc n) a = ap suc (length-replicate n a)

pub length-zeroed : length zeroed ≡ page_size
unfolding zeroed
length-zeroed = length-replicate {A = ℕ} page_size 0
