-- ===== src/PageCache.antt =====
-- src/page_cache.rs: the page cache. Its calls run one at a time here: the locks, which only order
-- them, are not modelled.
pub mod FreeFrames
pub mod Consistency
pub mod Scopes
pub mod Initial
pub mod Load
pub mod Picks
pub mod Calls
pub mod Replace
pub mod Access
pub mod Views
pub mod Progress
pub mod Flush
pub mod Faults
use dbstorage.Base.{
  ℕ, zero, suc, ◌+◌, ◌%◌, ◌^◌, Bool, true, false, Option, some, none, List, [], ◌∷◌, if◌then◌else◌,
  get_elem?, set, length, replicate, Outcome, ok, err, panic, PageCacheError, disk, out_of_memory,
}
use dbstorage.Bytes.Signed.{ℤ, ◌=ℤ◌, i32_bits, i32_of_bits}
use dbstorage.Page.{PageId, PageBuf, PageInner, default_page, reset}
use dbstorage.Disk.{Disk, IoResult, done, fail, panics}
use dbstorage.HashMap.{Entries, lookup, insert, remove, int_key}
use dbstorage.Replacer.{LrukReplacer, evict, record_access, pin, unpin, remove_node}
use dbstorage.Replacer.Nodes.{FrameId}
use FreeFrames.{FreeList, default_free, pop, push}

abbrev pub cache_size : ℕ
cache_size = 64

pub record PageCache (D : Type 0) : Type 0 where
  pub pages : List PageInner
  pub page_table : Entries PageId FrameId
  pub free : FreeList
  pub disk : D
  pub next_page_id : PageId
  pub replacer : LrukReplacer

-- `Pin`: the frame, and the page it was asked for.
pub record Pin : Type 0 where
  pub i : FrameId
  pub id : PageId

-- A call: how it ends, and the cache that it leaves, also when it fails.
abbrev pub Call : Type 0 → Type 0 → Type 0
Call D A = PageCache D → Outcome A × PageCache D

abbrev pub next {ℓ κ λ'} :
    {S : Type ℓ} {A : Type κ} {B : Type λ'}
    → Outcome A × S
    → (A → S → Outcome B × S)
    → Outcome B × S
next (ok a, s) f = f a s
next (err e, s) f = (err e, s)
next (panic, s) f = (panic, s)

infixl 5 ◌>>=◌ ◌>>◌
abbrev pub ◌>>=◌ : {D A B : Type 0} → Call D A → (A → Call D B) → Call D B
◌>>=◌ m f s = next (m s) f

abbrev pub ◌>>◌ : {D B : Type 0} → Call D (Unit {0}) → Call D B → Call D B
m >> k = m >>= λ _. k

abbrev pub pure : {D A : Type 0} → A → Call D A
pure a s = (ok a, s)

-- `map_err(|e| PageCacheError::Disk(e.kind()))`
abbrev pub from_io {ℓ} : {A : Type ℓ} → IoResult A → Outcome A
from_io (done a) = ok a
from_io (fail e) = err (disk e)
from_io panics = panic

-- `PageCache::new`
unfoldable pub new : {D : Type 0} → D → LrukReplacer → PageId → PageCache D
unfolding default_free
new d replacer next_page_id = record {
  pages = replicate cache_size default_page;
  page_table = [];
  free = default_free cache_size;
  disk = d;
  next_page_id = next_page_id;
  replacer = replacer;
}

-- `fetch_add(1)`: the id wraps at the end of `i32`.
unfoldable pub allocate_page : {D : Type 0} → Call D PageId
allocate_page s = (
  ok s.next_page_id,
  record s { next_page_id = i32_of_bits ((i32_bits s.next_page_id + 1) % 2 ^ 32) },
)

-- `evict().ok_or(OutOfMemory)?`
unfoldable pub pick_victim : {D : Type 0} → Option (Option FrameId) → Call D FrameId
pick_victim none s = (panic, s)
pick_victim (some none) s = (err out_of_memory, s)
pick_victim (some (some i)) s = (ok i, s)

-- A frame for a page: a free one, or one that the replacer gives up.
unfoldable pub pick_from : {D : Type 0} → Option (Option FrameId × FreeList) → Call D FrameId
unfolding pick_victim
pick_from none s = (panic, s)
pick_from (some (some i, free)) s = (ok i, record s { free = free })
pick_from (some (none, free)) s = pick_victim (evict s.replacer) s

unfoldable pub pick_frame : {D : Type 0} → Call D FrameId
unfolding pick_from
pick_frame s = pick_from (pop s.free) s

-- An index past the frames is a panic.
unfoldable pub found_page : {D : Type 0} → Option PageInner → Call D PageInner
found_page none s = (panic, s)
found_page (some p) s = (ok p, s)

-- `self.pages[i]`
unfoldable pub page_at : {D : Type 0} → FrameId → Call D PageInner
unfolding found_page
page_at i s = found_page (get_elem? s.pages i) s

-- The three calls on the replacer for a frame that takes a new page.
unfoldable pub take_over : {D : Type 0} → FrameId → Call D (Unit {0})
take_over i s = (ok tt, record s { replacer = pin (record_access (remove_node s.replacer i) i) i })

module _ {D : Type 0} (k : Disk D) where
  -- `self.disk.write_page(page.id, &page.data)`
  unfoldable pub write_out : PageInner → Call D (Unit {0})
  write_out p s =
      let (r, d) = k.write_page s.disk p.id p.content in (from_io r, record s { disk = d })

  unfoldable pub write_back : PageInner → Call D (Unit {0})
  unfolding write_out
  write_back p = if p.dirty then write_out p else pure tt

  -- The frame's old page leaves the table, the new one enters.
  unfoldable pub remap : PageId → PageId → FrameId → Call D (Unit {0})
  remap old id i s = (ok tt, record s { page_table = insert id i (remove old s.page_table) })

  -- The page is reset, and takes its id and its content.
  unfoldable pub fill : PageId → FrameId → PageInner → PageBuf → Call D (Unit {0})
  unfolding reset
  fill id i p content s =
      (ok tt, record s { pages = set s.pages i (record (reset p) { id = id; content = content }) })

  unfoldable pub read_in : PageId → FrameId → PageInner → Call D (Unit {0})
  unfolding fill
  read_in id i p s = next (from_io (k.read_page s.disk id), s) (fill id i p)

  -- The frame is taken over, its page is written back if dirty, and the new page is read in.
  unfoldable pub install : FrameId → PageId → PageInner → Call D Pin
  unfolding take_over write_back remap read_in
  install i id p = do
    take_over i
    write_back p
    remap p.id id i
    read_in id i p
    pure (record { i = i; id = id })

  -- What `try_get_page` does with the frame it got.
  unfoldable pub load : FrameId → PageId → Call D Pin
  unfolding page_at install
  load i id = do p ← page_at i; install i id p

  unfoldable pub try_get_page : PageId → Call D Pin
  unfolding pick_frame load
  try_get_page id = do i ← pick_frame; load i id

  unfoldable pub new_page : Call D Pin
  unfolding allocate_page try_get_page
  new_page = do id ← allocate_page; try_get_page id

  -- A page that is in the cache: its frame is accessed and pinned.
  unfoldable pub hit : FrameId → PageId → Call D Pin
  unfolding page_at
  hit i id s =
      next (page_at i (record s { replacer = pin (record_access s.replacer i) i }))
        λ _ s'. (ok (record { i = i; id = id }), s')

  unfoldable pub fetch_from : Option FrameId → PageId → Call D Pin
  unfolding hit try_get_page
  fetch_from (some i) id = hit i id
  fetch_from none id = try_get_page id

  unfoldable pub fetch_page : PageId → Call D Pin
  unfolding fetch_from
  fetch_page id s = fetch_from (lookup id s.page_table) id s

  -- `Pin::drop`
  unfoldable pub drop_pin : Pin → Call D (Unit {0})
  drop_pin p s = (ok tt, record s { replacer = unpin s.replacer p.i })

  -- `Pin::write` and the macro `writep!` on the whole page. The assertion is that of `Pin::write`.
  unfoldable pub store : Pin → PageBuf → PageInner → Call D (Unit {0})
  store pin content p s =
      if p.id =ℤ pin.id
      then (
        ok tt,
        record s { pages = set s.pages pin.i (record p { content = content; dirty = true }) },
      )
      else (panic, s)

  unfoldable pub write_pin : Pin → PageBuf → Call D (Unit {0})
  unfolding page_at store
  write_pin pin content = do p ← page_at pin.i; store pin content p

  -- `Pin::read`
  unfoldable pub read_pin : Pin → Call D PageBuf
  unfolding page_at
  read_pin pin = do p ← page_at pin.i; pure p.content

  -- A full free list is a panic.
  unfoldable pub with_free : Option FreeList → Call D (Unit {0})
  with_free none s = (panic, s)
  with_free (some free) s = (ok tt, record s { free = free })

  unfoldable pub remove_from : Option FrameId → PageId → Call D (Unit {0})
  unfolding with_free
  remove_from none id s = (ok tt, s)
  remove_from (some i) id s =
      with_free (push s.free i)
        (record s { page_table = remove id s.page_table; replacer = remove_node s.replacer i })

  unfoldable pub remove_page : PageId → Call D (Unit {0})
  unfolding remove_from
  remove_page id s = remove_from (lookup id s.page_table) id s

  unfoldable pub mark_clean : FrameId → PageInner → Call D (Unit {0})
  mark_clean i p s = (ok tt, record s { pages = set s.pages i (record p { dirty = false }) })

  unfoldable pub flush_frame : FrameId → Call D (Unit {0})
  unfolding page_at write_out mark_clean
  flush_frame i = do p ← page_at i; write_out p; mark_clean i p

  unfoldable pub flush_from : Option FrameId → Call D (Unit {0})
  unfolding flush_frame
  flush_from none s = (ok tt, s)
  flush_from (some i) s = flush_frame i s

  unfoldable pub flush_page : PageId → Call D (Unit {0})
  unfolding flush_from
  flush_page id s = flush_from (lookup id s.page_table) s

  -- The loop over the keys of the page table.
  unfoldable pub flush_pages : List (PageId × FrameId) → Call D (Unit {0})
  unfolding flush_page
  flush_pages [] s = (ok tt, s)
  flush_pages ((id, _) ∷ rest) s = next (flush_page id s) λ _ s'. flush_pages rest s'

  unfoldable pub flush_all_pages : Call D (Unit {0})
  unfolding flush_pages
  flush_all_pages s = flush_pages s.page_table s
