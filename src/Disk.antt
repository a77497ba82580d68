-- ===== src/Disk.antt =====
-- src/disk.rs: the trait `Disk` and its implementation `Memory`. `FileSystem` only calls `pread` and
-- `pwrite`; it is another value of the interface.
pub mod MemoryLaws
use dbstorage.Base.{
  ℕ, ◌+◌, ◌-◌, ◌*◌, ◌%◌, ◌≡◌, ◌≢◌, List, Option, some, none, ◌&&◌, leb, ◌==◌, if◌then◌else◌, length,
  replicate, range, copy_from_slice, ErrorKind,
}
use dbstorage.Base.Panic.{◌>>=◌, ◌>>◌, assert}
use dbstorage.Bytes.Signed.{ℤ, pos, negsuc}
use dbstorage.Page.{PageId, PageBuf, page_size}

-- `io::Result`, or a panic.
pub data IoResult {ℓ} (A : Type ℓ) : Type ℓ where
  done : A → IoResult A
  fail : ErrorKind → IoResult A
  panics : IoResult A

pub record Disk (D : Type 0) : Type 0 where
  pub read_page : D → PageId → IoResult PageBuf
  pub write_page : D → PageId → PageBuf → IoResult (Unit {0}) × D

-- What the page cache relies on: a page reads back as it was written last, and a write leaves the
-- other pages alone. Both speak of calls that succeed.
pub record IsLawful {D : Type 0} (k : Disk D) : Type 0 where
  pub read_written :
      (d d' : D) (id : PageId) (buf : PageBuf)
      → length buf ≡ page_size
      → k.write_page d id buf ≡ (done tt, d')
      → k.read_page d' id ≡ done buf
  pub read_other :
      (d d' : D) (id j : PageId) (buf : PageBuf)
      → j ≢ id
      → k.write_page d id buf ≡ (done tt, d')
      → k.read_page d' j ≡ k.read_page d j
  pub read_sized :
      (d : D) (id : PageId) {buf : PageBuf} → k.read_page d id ≡ done buf → length buf ≡ page_size

pub record Memory : Type 0 where
  pub buf : List ℕ
  pub size : ℕ

-- `Memory::new::<SIZE>()`
unfoldable pub new_memory : ℕ → Option Memory
new_memory size = do
  assert (size % page_size == 0)
  some (record { buf = replicate size 0; size = size })

-- `PAGE_SIZE * page_id as usize` and the assertion. A negative id is a `usize` near `2 ^ 64`, at which
-- the product overflows; so does `size - PAGE_SIZE` at size 0.
unfoldable pub offset_of : Memory → PageId → Option ℕ
offset_of m (negsuc n) = none
offset_of m (pos n) = do
  assert (leb page_size m.size && leb (page_size * n) (m.size - page_size))
  some (page_size * n)

abbrev pub from_option {ℓ} : {A : Type ℓ} → Option A → IoResult A
from_option none = panics
from_option (some a) = done a

unfoldable pub read_memory : Memory → PageId → IoResult PageBuf
unfolding offset_of
read_memory m id = from_option (do offset ← offset_of m id; range m.buf offset (offset + page_size))

abbrev pub with_state : Memory → Option Memory → IoResult (Unit {0}) × Memory
with_state m none = (panics, m)
with_state m (some m') = (done tt, m')

unfoldable pub write_memory : Memory → PageId → PageBuf → IoResult (Unit {0}) × Memory
unfolding offset_of
write_memory m id content = with_state m (do
  offset ← offset_of m id
  out ← copy_from_slice m.buf offset (offset + page_size) content
  some (record m { buf = out }))

unfoldable pub memory : Disk Memory
memory = record { read_page = read_memory; write_page = write_memory }
