-- ===== src/PageCache/Flush.antt =====
-- `flush_page`: the disk gets the page, and no caller sees a difference.
use dbstorage.Base.{
  ℕ, ◌≡◌, ◌≢◌, refl, sym, ap, ◌∙◌, subst, inl, inr, false, Option, some, none, get_elem?, ok,
}
use dbstorage.Page.{PageId, PageInner}
use dbstorage.Bytes.Signed.{=ℤ_cases}
use dbstorage.Disk.{Disk, IsLawful, done}
use dbstorage.HashMap.{lookup, int_key}
use dbstorage.PageCache.{
  PageCache, page_at, write_out, mark_clean, flush_frame, flush_from, flush_page,
}
use dbstorage.PageCache.Consistency.{content, content_at, frame_content, IsConsistent}
use dbstorage.PageCache.Picks.{next-ok, page_at-ok}
use dbstorage.PageCache.Calls.{write_out-ok}
use dbstorage.PageCache.Load.{some_injective}
use dbstorage.PageCache.Replace.{
  replaced, replaced-IsConsistent, content-replaced_self, content-replaced_ne,
}

module _ {D : Type 0} (k : Disk D) (law : IsLawful k) (s : PageCache D) (id : PageId)
    (v : IsConsistent k s) where
  abbrev Flushed : PageCache D → Type 0
  Flushed s' =
      IsConsistent k s'
      × ((j : PageId) → content k s' j ≡ content k s j)
      × (k.read_page s'.disk id ≡ content k s id)

  module _ (i : ℕ) (mine : lookup id s.page_table ≡ some i) (p : PageInner)
      (at : get_elem? s.pages i ≡ some p) (name : p.id ≡ id) (d' : D)
      (w : k.write_page s.disk p.id p.content ≡ (done tt, d')) where
    p' : PageInner
    p' = record p { dirty = false }

    reads : k.read_page d' p.id ≡ done p.content
    reads = law.read_written s.disk d' p.id p.content (v.sized i p at) w

    mine' : lookup p.id s.page_table ≡ some i
    mine' = subst (λ x. lookup x s.page_table ≡ some i) (sym name) mine

    others : (j : PageId) → j ≢ p.id → k.read_page d' j ≡ k.read_page s.disk j
    others j other = law.read_other s.disk d' p.id j p.content other w

    flushed : PageCache D
    unfolding p' replaced
    flushed = replaced k s i p p' d' v at mine' refl others (λ _. reads) (v.sized i p at)

    before : content k s p.id ≡ done p.content
    before = ap (λ o. content_at k o s.pages s.disk p.id) mine' ∙ ap frame_content at

    flushed-Flushed : Flushed flushed
    unfolding flushed p' replaced
    flushed-Flushed = (
      replaced-IsConsistent k s i p p' d' v at mine' refl others (λ _. reads) (v.sized i p at),
      λ j. elim (=ℤ_cases j p.id) [
        | inl (same, _) ↦
            subst (λ x. content k flushed x ≡ content k s x) (sym same)
              (content-replaced_self k s i p p' d' v at mine' refl others (λ _. reads)
                  (v.sized i p at)
                ∙ sym before)
        | inr (other, _) ↦
            content-replaced_ne k s i p p' d' v at mine' refl others (λ _. reads) (v.sized i p at) j
              other
      ],
      subst (λ x. k.read_page d' x ≡ content k s x) name (reads ∙ sym before),
    )

    flush_end :
        {s₂ : PageCache D}
        → s₂ ≡ record s { disk = d' }
        → {u : Unit {0}} {s' : PageCache D} → mark_clean k i p s₂ ≡ (ok u, s')
        → Flushed s'
    unfolding mark_clean flushed p' replaced
    flush_end {s₂} same {u} {s'} h =
        let e : flushed ≡ s' = cc (same, h) in subst Flushed e flushed-Flushed

  flush_frame-Flushed :
      (i : ℕ)
      → lookup id s.page_table ≡ some i
      → {u : Unit {0}} {s' : PageCache D} → flush_frame k i s ≡ (ok u, s')
      → Flushed s'
  unfolding flush_frame
  flush_frame-Flushed i mine {u} {s'} h =
      let (p, s₁, e, h₁) = next-ok (page_at i s) _ h in
      let (at, same) = page_at-ok i s e in
      let (q, at', name) = v.mapped id i mine in
      let both : q ≡ p = some_injective (sym at' ∙ at) in
      let (u', s₂, e₂, h₂) = next-ok (write_out k p s₁) _ h₁ in
      let (w, same₂) =
        write_out-ok k law p s (subst (λ t. write_out k p t ≡ (ok u', s₂)) same e₂) in
      let d' = (k.write_page s.disk p.id p.content).1 in
      let name' : p.id ≡ id = ap (λ (x : PageInner). x.id) (sym both) ∙ name in
      let wrote : k.write_page s.disk p.id p.content ≡ (done tt, d') = λ j. (w j, d') in
      flush_end i mine p at name' d' wrote same₂ h₂

  flush_from-Flushed :
      (o : Option ℕ)
      → lookup id s.page_table ≡ o
      → {u : Unit {0}} {s' : PageCache D} → flush_from k o s ≡ (ok u, s')
      → Flushed s'
  unfolding flush_from
  flush_from-Flushed none e {s' = s'} h =
      let same : s ≡ s' = cc in
      subst Flushed same (v, λ j. refl, sym (ap (λ o. content_at k o s.pages s.disk id) e))
  flush_from-Flushed (some i) e h = flush_frame-Flushed i e h

-- A flush that succeeds leaves the cache consistent and every page's content as it was, and the disk
-- then holds the flushed page as the cache shows it.
pub flush_page-Flushed :
    {D : Type 0} (k : Disk D) (s : PageCache D) (id : PageId) {u : Unit {0}} {s' : PageCache D}
    → IsLawful k
    → IsConsistent k s
    → flush_page k id s ≡ (ok u, s')
    → IsConsistent k s'
      × ((j : PageId) → content k s' j ≡ content k s j)
      × (k.read_page s'.disk id ≡ content k s id)
unfolding flush_page
flush_page-Flushed k s id law v h = flush_from-Flushed k law s id v (lookup id s.page_table) refl h
