-- ===== src/PageCache/Faults.antt =====
-- Two ways in which the page table and the frames fall apart.
use dbstorage.Base.{
  ◌≡◌, ◌≢◌, ap, ◌∙◌, inl, inr, false, some, none, get_elem?, set, ok, err, disk, ErrorKind,
}
use dbstorage.Page.{PageId, PageBuf, PageInner}
use dbstorage.Bytes.Signed.{=ℤ_cases, =ℤ_refl}
use dbstorage.Disk.{Disk, done, fail}
use dbstorage.HashMap.{lookup, insert, remove, IsDistinct, int_key}
use dbstorage.Replacer.Nodes.{FrameId}
use dbstorage.Replacer.{record_access, pin, remove_node}
use dbstorage.PageCache.{
  PageCache, found_page, page_at, take_over, write_back, remap, fill, read_in, install, load,
}
use dbstorage.PageCache.Consistency.{lookup-remap, content, content_at, frame_content}

module _ {D : Type 0} (k : Disk D) where
  load_at :
      (s : PageCache D) (i : FrameId) (id : PageId) (p : PageInner)
      → get_elem? s.pages i ≡ some p
      → load k i id s ≡ install k i id p s
  unfolding load page_at found_page
  load_at s i id p at = rw at

  -- The disk fails to read the new page into a clean frame: the call reports the error, but the table
  -- now sends the new page to the frame, which still holds the content of the old one.
  pub load-read_failed :
      (s : PageCache D) (i : FrameId) (id : PageId) (p : PageInner) (e : ErrorKind)
      → IsDistinct s.page_table
      → get_elem? s.pages i ≡ some p
      → p.dirty ≡ false
      → k.read_page s.disk id ≡ fail e
      → (s' : PageCache D) × (load k i id s ≡ (err (disk e), s'))
        × (content k s' id ≡ done p.content)
  unfolding install take_over write_back remap read_in
  load-read_failed s i id p e d at tidy bad = (failed, load_at s i id p at ∙ step, shows)
    where
      failed : PageCache D
      failed = record s {
        page_table = insert id i (remove p.id s.page_table);
        replacer = pin (record_access (remove_node s.replacer i) i) i;
      }

      step : install k i id p s ≡ (err (disk e), failed)
      step = rw (tidy, bad)

      shows : content k failed id ≡ done p.content
      shows =
          let new : lookup id failed.page_table ≡ some i =
            lookup-remap p.id id id i s.page_table d ∙ (rw (=ℤ_refl id)) in
          ap (λ o. content_at k o s.pages s.disk id) new ∙ ap frame_content at

  -- The frame taken still carries the id of a page that lives in another frame `j` (as it does once
  -- that page was removed and fetched again elsewhere). The call succeeds, and the live page falls
  -- out of the table without a write: what callers saw of it in frame `j` they now see as the disk
  -- has it.
  pub load-drops :
      (s : PageCache D) (i j : FrameId) (id : PageId) (p live : PageInner) (buf : PageBuf)
      → IsDistinct s.page_table
      → get_elem? s.pages i ≡ some p
      → p.dirty ≡ false
      → lookup p.id s.page_table ≡ some j
      → get_elem? s.pages j ≡ some live
      → id ≢ p.id
      → k.read_page s.disk id ≡ done buf
      → (s' : PageCache D) × (load k i id s ≡ (ok (record { i = i; id = id }), s'))
        × (content k s p.id ≡ done live.content)
        × (content k s' p.id ≡ k.read_page s.disk p.id)
  unfolding install take_over write_back remap read_in fill
  load-drops s i j id p live buf d at tidy mapped at_j other good = (
    after,
    load_at s i id p at ∙ step,
    ap (λ o. content_at k o s.pages s.disk p.id) mapped ∙ ap frame_content at_j,
    ap (λ o. content_at k o after.pages s.disk p.id) gone,
  )
    where
      after : PageCache D
      after = record s {
        pages = set s.pages i (record { id = id; dirty = false; content = buf });
        page_table = insert id i (remove p.id s.page_table);
        replacer = pin (record_access (remove_node s.replacer i) i) i;
      }

      step : install k i id p s ≡ (ok (record { i = i; id = id }), after)
      step = rw (tidy, good)

      gone : lookup p.id after.page_table ≡ none
      gone = elim (=ℤ_cases id p.id) [
        | inl (same, _) ↦ absurd (other same)
        | inr (_, e) ↦ lookup-remap p.id id p.id i s.page_table d ∙ (rw (e, =ℤ_refl p.id))
      ]
