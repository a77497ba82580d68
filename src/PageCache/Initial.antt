-- ===== src/PageCache/Initial.antt =====
-- `PageCache::new`: a cache of empty frames.
use dbstorage.Base.{
  ℕ, zero, suc, ◌≡◌, refl, false, sym, ap, subst, inl, some, get_elem?, length, replicate,
}
use dbstorage.Page.{PageId, PageInner, page_size, default_page, length-zeroed}
use dbstorage.Disk.{Disk}
use dbstorage.HashMap.{lookup, int_key}
use dbstorage.Replacer.{LrukReplacer}
use dbstorage.PageCache.{new, cache_size}
use dbstorage.PageCache.Consistency.{no_page, content, IsConsistent}

get_elem?-replicate :
    (n : ℕ) (a : PageInner) (i : ℕ) {p : PageInner} → get_elem? (replicate n a) i ≡ some p → p ≡ a
get_elem?-replicate zero a i h = cc
get_elem?-replicate (suc n) a zero h = cc
get_elem?-replicate (suc n) a (suc i) h = get_elem?-replicate n a i h

default_blank : (p : PageInner) → p ≡ default_page → (p.id ≡ no_page) × (p.dirty ≡ false)
unfolding default_page
default_blank p e = (ap (λ (x : PageInner). x.id) e, ap (λ (x : PageInner). x.dirty) e)

length-default : length default_page.content ≡ page_size
unfolding default_page
length-default = length-zeroed

-- A new cache is consistent and shows each page as the disk has it.
pub new-IsConsistent :
    {D : Type 0} (k : Disk D) (d : D) (replacer : LrukReplacer) (next_page_id id : PageId)
    → IsConsistent k (new d replacer next_page_id)
      × (content k (new d replacer next_page_id) id ≡ k.read_page d id)
unfolding new lookup
new-IsConsistent k d replacer next_page_id id = (
  record {
    distinct = tt;
    mapped = λ j i h. cc;
    owned = λ i p h. inl (default_blank p (get_elem?-replicate cache_size default_page i h));
    reserved = refl;
    clean = λ i p h m e. cc;
    sized = λ i p h.
        subst (λ (x : PageInner). length x.content ≡ page_size)
          (sym (get_elem?-replicate cache_size default_page i h)) length-default;
  },
  refl,
)
