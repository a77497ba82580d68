-- ===== src/PageCache/Progress.antt =====
-- src/page_cache.rs: when `fetch_page` cannot fail.
use dbstorage.Base.{
  ℕ, zero, suc, ◌≤◌, ◌<◌, ◌≡◌, ◌≢◌, refl, sym, ap, ◌∙◌, subst, ◌⊎◌, inl, inr, Bool-cases, true,
  false, Option, some, none, get_elem?, length, All, All-append_right, eq→==, dec_lt, arith, ok,
  List, [], ◌∷◌,
}
use dbstorage.Page.{PageId, PageBuf, PageInner}
use dbstorage.Disk.{Disk, IsLawful, IoResult, done}
use dbstorage.HashMap.{lookup, int_key, nat_key}
use dbstorage.Replacer.{pin, record_access, remove_node, evict}
use dbstorage.Replacer.Nodes.{FrameId, LrukNode}
use dbstorage.Replacer.Candidacy
use dbstorage.Replacer.Eviction.{Choice, evict-Choice}
use dbstorage.PageCache.FreeFrames.{FreeList, pop}
use dbstorage.PageCache.FreeFrames.Laws.{frames, frames-pop}
use dbstorage.PageCache.{
  PageCache, Pin, found_page, page_at, pick_victim, pick_from, pick_frame, take_over, write_out,
  write_back, remap, fill, read_in, install, load, try_get_page, fetch_from, fetch_page, read_pin,
}
use dbstorage.PageCache.Consistency.{no_page, content, content_at, IsConsistent}
use dbstorage.PageCache.Access.{hit_lem, fetch_page-hit, fetch_page-read_pin}

-- The free list and the replacer name frames of the cache, and the replacer is one that can choose.
pub record IsHoused {D : Type 0} (s : PageCache D) : Type 0 where
  pub free_within : s.free.tail ≤ length s.free.free
  pub free_frames : All (λ (i : FrameId). i < length s.pages) (frames s.free)
  pub node_frames :
      (i : FrameId) (node : LrukNode) → lookup i s.replacer.nodes ≡ some node → i < length s.pages
  pub valid : Candidacy.IsValid s.replacer
  pub depth : 2 ≤ s.replacer.k

-- There is a free frame, or not every node of the replacer is pinned.
abbrev pub HasFrame : {D : Type 0} → PageCache D → Type 0
HasFrame s = (0 < s.free.tail) ⊎ (¬ All (λ (e : FrameId × LrukNode). e.1.pin ≢ 0) s.replacer.nodes)

-- The disk takes each page that has been changed.
abbrev pub Writes : {D : Type 0} → Disk D → PageCache D → Type 0
Writes {D} k s =
    (i : FrameId) (p : PageInner)
    → get_elem? s.pages i ≡ some p
    → p.dirty ≡ true
    → (d : D) × (k.write_page s.disk p.id p.content ≡ (done tt, d))

frame_there :
    (pages : List PageInner) (i : ℕ)
    → i < length pages
    → (p : PageInner) × (get_elem? pages i ≡ some p)
frame_there [] i h = absurd (omega arith)
frame_there (p ∷ pages) zero h = (p, refl)
frame_there (p ∷ pages) (suc i) h = frame_there pages i (omega arith)

true≢false : ¬ (true ≡ false)
true≢false h = cc

none≢some : {A : Type 0} {a : A} → ¬ (none ≡ some a)
none≢some h = cc

same_buf : {a b : PageBuf} → ◌≡◌ {A = IoResult PageBuf} (done a) (done b) → a ≡ b
same_buf h = cc

module _ {D : Type 0} (s : PageCache D) (housed : IsHoused s) where
  -- What `pick_frame` answers: a frame of the cache.
  abbrev Picked : Type 0
  Picked =
      (i : FrameId) × (free : FreeList) × (pick_frame s ≡ (ok i, record s { free = free }))
      × (i < length s.pages)

  picked_free : 0 < s.free.tail → Picked
  unfolding pick_frame pick_from
  picked_free left =
      let (i, free, e, top) = frames-pop s.free (record { within = housed.free_within }) left in
      (
        i,
        free,
        rw e,
        (All-append_right _ (frames free) (i ∷ []) (subst (All _) top housed.free_frames)).0,
      )

  picked_victim :
      s.free.tail ≡ 0 → ¬ All (λ (e : FrameId × LrukNode). e.1.pin ≢ 0) s.replacer.nodes → Picked
  unfolding pick_frame pick_from pick_victim pop
  picked_victim empty unpinned =
      let (o, e, choice) = evict-Choice s.replacer housed.valid housed.depth in go o e choice
    where
      go : (o : Option FrameId) → evict s.replacer ≡ some o → Choice s.replacer o → Picked
      go none e choice = absurd (unpinned choice)
      go (some i) e (node, found, _, _) =
          (i, s.free, rw (eq→== s.free.tail 0 empty, e), housed.node_frames i node found)

  picked : HasFrame s → Picked
  picked (inl left) = picked_free left
  picked (inr unpinned) = elim (dec_lt 0 s.free.tail) [
    | yes left ↦ picked_free left
    | no empty ↦ picked_victim (omega arith) unpinned
  ]

module _ {D : Type 0} (k : Disk D) (law : IsLawful k) (s : PageCache D) (id : PageId)
    (v : IsConsistent k s) (writes : Writes k s) (buf : PageBuf)
    (shown : content k s id ≡ done buf) where
  -- The page that leaves a frame is written if it was changed, and the page to fetch can still be read.
  module _ (absent : lookup id s.page_table ≡ none) (i : FrameId) (p : PageInner)
      (at : get_elem? s.pages i ≡ some p) where
    stored : k.read_page s.disk id ≡ done buf
    stored = sym (ap (λ o. content_at k o s.pages s.disk id) absent) ∙ shown

    elsewhere : p.dirty ≡ true → id ≢ p.id
    elsewhere dirty same = elim (v.owned i p at) [
      | inl (_, tidy) ↦ true≢false (sym dirty ∙ tidy)
      | inr mine ↦ none≢some (sym absent ∙ ap (λ j. lookup j s.page_table) same ∙ mine)
    ]

    write_back-done :
        (t : PageCache D)
        → t.disk ≡ s.disk
        → (d : D) × (write_back k p t ≡ (ok tt, record t { disk = d }))
          × (k.read_page d id ≡ done buf)
    unfolding write_back write_out
    write_back-done t same = elim (Bool-cases p.dirty) [
      | inl dirty ↦
          let (d, wrote) = writes i p at dirty in
          (
            d,
            rw (dirty, same, wrote),
            law.read_other s.disk d p.id id p.content (elsewhere dirty) wrote ∙ stored,
          )
      | inr clean ↦ (t.disk, rw clean, rw same stored)
    ]

  try_get_page-done :
      IsHoused s
      → HasFrame s
      → lookup id s.page_table ≡ none
      → (q : Pin) × (s' : PageCache D) × (try_get_page k id s ≡ (ok q, s'))
  unfolding try_get_page load page_at found_page install take_over remap read_in fill
  try_get_page-done housed has absent =
      let (i, free, picks, within) = picked s housed has in
      let (p, at) = frame_there s.pages i within in
      let s₁ : PageCache D = record s {
        free = free;
        replacer = pin (record_access (remove_node s.replacer i) i) i;
      } in
      let (d, left, read) = write_back-done absent i p at s₁ refl in
      let ends : (try_get_page k id s).0 ≡ ok (record { i = i; id = id }) =
        rw (picks, at, left, read) refl in
      (record { i = i; id = id }, (try_get_page k id s).1, λ j. (ends j, (try_get_page k id s).1))

  fetched :
      IsHoused s
      → HasFrame s ⊎ ((i : FrameId) × (lookup id s.page_table ≡ some i))
      → (q : Pin) × (s' : PageCache D) × (fetch_page k id s ≡ (ok q, s'))
  unfolding fetch_page fetch_from
  fetched housed (inr (i, e)) = (record { i = i; id = id }, _, fetch_page-hit k s id i v e)
  fetched housed (inl has) = go (lookup id s.page_table) refl
    where
      go :
          (o : Option FrameId)
          → lookup id s.page_table ≡ o
          → (q : Pin) × (s' : PageCache D) × (fetch_from k o id s ≡ (ok q, s'))
      go none e = try_get_page-done housed has e
      go (some i) e = (record { i = i; id = id }, _, hit_lem k s id i v e)

-- Over a lawful disk, in a consistent cache whose free list and replacer name frames of the cache, with k at
-- least 2: if the page has a frame, or there is a free one, or not every node of the replacer is pinned, and if
-- the cache shows the page with some content and the disk takes each page that was changed, then the fetch of
-- the page succeeds; a read through its pin gives that content, the table finds the page in the pin's frame, the
-- cache is consistent, and every page has the content it had.
pub fetch_page-HasFrame :
    {D : Type 0} (k : Disk D) (law : IsLawful k) (s : PageCache D) (id : PageId) (buf : PageBuf)
    → IsConsistent k s
    → IsHoused s
    → HasFrame s ⊎ ((i : FrameId) × (lookup id s.page_table ≡ some i))
    → id ≢ no_page
    → content k s id ≡ done buf
    → Writes k s
    → (q : Pin) × (s' : PageCache D) × (fetch_page k id s ≡ (ok q, s'))
      × (read_pin k q s' ≡ (ok buf, s'))
      × (lookup id s'.page_table ≡ some q.i)
      × IsConsistent k s'
      × ((j : PageId) → content k s' j ≡ content k s j)
fetch_page-HasFrame k law s id buf v housed has real shown writes =
    let (q, s', e) = fetched k law s id v writes buf shown housed has in
    let (out, reads, is, v', there, others) = fetch_page-read_pin k law s id v real e in
    let same : out ≡ buf = same_buf (sym is ∙ shown) in
    (q, s', e, subst (λ b. read_pin k q s' ≡ (ok b, s')) same reads, there, v', others)
