-- ===== src/PageCache/Consistency.antt =====
-- What a caller sees through the cache: the content of each page, wherever it stands.
use dbstorage.Base.{◌≡◌, ◌⊎◌, false, Option, some, none, List, get_elem?, length, if◌then◌else◌}
use dbstorage.Bytes.Signed.{negsuc, ◌=ℤ◌}
use dbstorage.Page.{PageId, PageBuf, PageInner, page_size}
use dbstorage.Disk.{Disk, IoResult, done, panics}
use dbstorage.HashMap.{
  Entries, lookup, insert, remove, IsDistinct, lookup-insert, lookup-remove, int_key,
}
use dbstorage.Replacer.Nodes.{FrameId}
use dbstorage.PageCache.{PageCache}

abbrev pub no_page : PageId
no_page = negsuc 0

abbrev pub frame_content : Option PageInner → IoResult PageBuf
frame_content none = panics
frame_content (some p) = done p.content

-- The table after a frame has changed its page.
pub lookup-remap :
    (old id j : PageId) (i : FrameId) (table : Entries PageId FrameId)
    → IsDistinct table
    → lookup j (insert id i (remove old table))
      ≡ (if id =ℤ j then some i else if old =ℤ j then none else lookup j table)
lookup-remap old id j i table d =
    rw (lookup-insert id j i (remove old table), lookup-remove old j table d)

module _ {D : Type 0} (k : Disk D) where
  abbrev pub content_at : Option FrameId → List PageInner → D → PageId → IoResult PageBuf
  content_at none pages d id = k.read_page d id
  content_at (some i) pages d id = frame_content (get_elem? pages i)

  -- The content of a page: that of its frame if it has one, and else what the disk holds.
  abbrev pub content : PageCache D → PageId → IoResult PageBuf
  content s id = content_at (lookup id s.page_table) s.pages s.disk id

  -- The table finds the frame that holds the page; a frame is found by its page's id, or has never
  -- held a page; and a clean frame agrees with the disk.
  pub record IsConsistent (s : PageCache D) : Type 0 where
    pub distinct : IsDistinct s.page_table
    pub mapped :
        (id : PageId) (i : FrameId)
        → lookup id s.page_table ≡ some i
        → (p : PageInner) × (get_elem? s.pages i ≡ some p) × (p.id ≡ id)
    pub owned :
        (i : FrameId) (p : PageInner)
        → get_elem? s.pages i ≡ some p
        → ((p.id ≡ no_page) × (p.dirty ≡ false)) ⊎ (lookup p.id s.page_table ≡ some i)
    pub reserved : lookup no_page s.page_table ≡ none
    pub clean :
        (i : FrameId) (p : PageInner)
        → get_elem? s.pages i ≡ some p
        → lookup p.id s.page_table ≡ some i
        → p.dirty ≡ false
        → k.read_page s.disk p.id ≡ done p.content
    pub sized :
        (i : FrameId) (p : PageInner) → get_elem? s.pages i ≡ some p → length p.content ≡ page_size
