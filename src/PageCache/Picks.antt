-- ===== src/PageCache/Picks.antt =====
-- src/page_cache.rs: how a load takes a frame and its page.
use dbstorage.Base.{◌≡◌, refl, true, false, Option, some, none, get_elem?, Outcome, ok, err, panic}
use dbstorage.Page.{PageId, PageInner}
use dbstorage.Disk.{Disk}
use dbstorage.HashMap.{int_key}
use dbstorage.Replacer.{LrukReplacer, evict}
use dbstorage.Replacer.Nodes.{FrameId}
use dbstorage.PageCache.FreeFrames.{FreeList}
use dbstorage.PageCache.{PageCache, next, pick_victim, pick_from, found_page, page_at}
use dbstorage.PageCache.Consistency.{IsConsistent}

-- A chain succeeds only if its first call does.
pub next-ok :
    {S A B : Type 0} (r : Outcome A × S) (f : A → S → Outcome B × S) {b : B} {s' : S}
    → next r f ≡ (ok b, s')
    → (a : A) × (s : S) × (r ≡ (ok a, s)) × (f a s ≡ (ok b, s'))
next-ok (ok a, s) f h = (a, s, refl, h)
next-ok (err e, s) f h = absurd (cc)
next-ok (panic, s) f h = absurd (cc)

pub true≢false : ¬ (true ≡ false)
true≢false h = cc

module _ {D : Type 0} where
  -- The frames, the table and the disk are what `IsConsistent` speaks of.
  pub relabel :
      (k : Disk D) (s : PageCache D) (free : FreeList) (r : LrukReplacer) (n : PageId)
      → IsConsistent k s
      → IsConsistent k (record s { free = free; replacer = r; next_page_id = n })
  relabel k s free r n v = record {
    distinct = v.distinct;
    mapped = v.mapped;
    owned = v.owned;
    reserved = v.reserved;
    clean = v.clean;
    sized = v.sized;
  }

  pick_victim-ok :
      (o : Option (Option FrameId)) (s : PageCache D) {i : FrameId} {s' : PageCache D}
      → pick_victim o s ≡ (ok i, s')
      → s' ≡ s
  unfolding pick_victim
  pick_victim-ok none s h = absurd (cc)
  pick_victim-ok (some none) s h = absurd (cc)
  pick_victim-ok (some (some i)) s h = cc

  pub pick_from-ok :
      (o : Option (Option FrameId × FreeList)) (s : PageCache D) {i : FrameId} {s' : PageCache D}
      → pick_from o s ≡ (ok i, s')
      → (free : FreeList) × (s' ≡ record s { free = free })
  unfolding pick_from
  pick_from-ok none s h = absurd (cc)
  pick_from-ok (some (some i, free)) s h = (free, cc)
  pick_from-ok (some (none, free)) s h = (s.free, pick_victim-ok (evict s.replacer) s h)

  pub page_at-ok :
      (i : FrameId) (s : PageCache D) {p : PageInner} {s' : PageCache D}
      → page_at i s ≡ (ok p, s')
      → (get_elem? s.pages i ≡ some p) × (s' ≡ s)
  unfolding page_at
  page_at-ok i s h = go (get_elem? s.pages i) h
    where
      go :
          (o : Option PageInner) {p : PageInner} {s' : PageCache D}
          → found_page o s ≡ (ok p, s')
          → (o ≡ some p) × (s' ≡ s)
      go none h = absurd (cc)
      go (some p) h = (cc, cc)
