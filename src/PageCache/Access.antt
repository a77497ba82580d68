-- ===== src/PageCache/Access.antt =====
-- `fetch_page`, and reads and writes through the pin that it returns.
use dbstorage.Base.{
  ◌≡◌, ◌≢◌, refl, sym, ap, ◌∙◌, subst, inl, inr, true, false, Option, some, none, get_elem?, length,
  ok, if◌then◌else◌,
}
use dbstorage.Bytes.Signed.{◌=ℤ◌, =ℤ_refl, =ℤ_cases}
use dbstorage.Page.{PageId, PageBuf, PageInner, page_size}
use dbstorage.Disk.{Disk, IsLawful, done}
use dbstorage.HashMap.{lookup, int_key}
use dbstorage.Replacer.{record_access, pin}
use dbstorage.Replacer.Nodes.{FrameId}
use dbstorage.PageCache.{
  PageCache, Pin, found_page, page_at, hit, fetch_from, fetch_page, read_pin, store, write_pin,
}
use dbstorage.PageCache.Consistency.{no_page, content, content_at, frame_content, IsConsistent}
use dbstorage.PageCache.Picks.{relabel}
use dbstorage.PageCache.Calls.{Brought, try_get_page-Brought}
use dbstorage.PageCache.Replace.{
  replaced, replaced-IsConsistent, content-replaced_self, content-replaced_ne,
}

true≢false : ¬ (true ≡ false)
true≢false h = cc

module _ {D : Type 0} (k : Disk D) where
  pub hit_lem :
      (s : PageCache D) (id : PageId) (i : FrameId)
      → IsConsistent k s
      → lookup id s.page_table ≡ some i
      → hit k i id s ≡ (
        ok (record { i = i; id = id }),
        record s { replacer = pin (record_access s.replacer i) i },
      )
  unfolding hit page_at found_page
  hit_lem s id i v e = let (p, at, _) = v.mapped id i e in rw at

  -- A page that has a frame is found there: the call cannot fail, and it moves nothing.
  pub fetch_page-hit :
      (s : PageCache D) (id : PageId) (i : FrameId)
      → IsConsistent k s
      → lookup id s.page_table ≡ some i
      → fetch_page k id s ≡ (
        ok (record { i = i; id = id }),
        record s { replacer = pin (record_access s.replacer i) i },
      )
  unfolding fetch_page fetch_from
  fetch_page-hit s id i v e = rw e (hit_lem s id i v e)

  read_pin-at :
      (q : Pin) (s : PageCache D) (p : PageInner)
      → get_elem? s.pages q.i ≡ some p
      → read_pin k q s ≡ (ok p.content, s)
  unfolding read_pin page_at found_page
  read_pin-at q s p at = rw at

  module _ (law : IsLawful k) (s : PageCache D) (id : PageId) (v : IsConsistent k s)
      (real : id ≢ no_page) where
    fetch_from-Brought :
        (o : Option FrameId)
        → lookup id s.page_table ≡ o
        → {q : Pin} {s' : PageCache D} → fetch_from k o id s ≡ (ok q, s')
        → Brought k law s id q s'
    unfolding fetch_from
    fetch_from-Brought none e h = try_get_page-Brought k law s id v e real h
    fetch_from-Brought (some i) e {q} {s'} h =
        let r = pin (record_access s.replacer i) i in
        let s₁ = record s { replacer = r } in
        let is : hit k i id s ≡ (ok (record { i = i; id = id }), s₁) = hit_lem s id i v e in
        let same : s' ≡ s₁ = cc (is, h) in
        let named : q ≡ record { i = i; id = id } = cc (is, h) in
        subst (λ t. Brought k law s id q t) (sym same)
          (record {
            consistent = relabel k s s.free r s.next_page_id v;
            unchanged = λ j. refl;
            named = ap (λ (x : Pin). x.id) named;
            pinned = e ∙ ap some (sym (ap (λ (x : Pin). x.i) named));
          })

  -- A page that is fetched: no page changes its content, the pin names a frame that holds the page,
  -- and a read through the pin gives the page's content.
  pub fetch_page-read_pin :
      (law : IsLawful k) (s : PageCache D) (id : PageId) {q : Pin} {s' : PageCache D}
      → IsConsistent k s
      → id ≢ no_page
      → fetch_page k id s ≡ (ok q, s')
      → (buf : PageBuf) × (read_pin k q s' ≡ (ok buf, s'))
        × (content k s id ≡ done buf)
        × IsConsistent k s'
        × (lookup id s'.page_table ≡ some q.i)
        × ((j : PageId) → content k s' j ≡ content k s j)
  unfolding fetch_page
  fetch_page-read_pin law s id {q} {s'} v real h =
      let b = fetch_from-Brought law s id v real (lookup id s.page_table) refl h in
      let (p, at, name) = b.consistent.mapped id q.i b.pinned in
      (
        p.content,
        read_pin-at q s' p at,
        sym (b.unchanged id)
            ∙ ap (λ o. content_at k o s'.pages s'.disk id) b.pinned
            ∙ ap frame_content at,
        b.consistent,
        b.pinned,
        b.unchanged,
      )

  module _ (s : PageCache D) (q : Pin) (buf : PageBuf) (v : IsConsistent k s)
      (pinned : lookup q.id s.page_table ≡ some q.i) (size : length buf ≡ page_size) (p : PageInner)
      (at : get_elem? s.pages q.i ≡ some p) (name : p.id ≡ q.id) where
    p' : PageInner
    p' = record p { content = buf; dirty = true }

    mine : lookup p.id s.page_table ≡ some q.i
    mine = subst (λ x. lookup x s.page_table ≡ some q.i) (sym name) pinned

    in_step : p'.dirty ≡ false → k.read_page s.disk p.id ≡ done p'.content
    unfolding p'
    in_step e = absurd (true≢false e)

    written : PageCache D
    unfolding p'
    written = replaced k s q.i p p' s.disk v at mine refl (λ j _. refl) in_step size

    write_pin-written : write_pin k q buf s ≡ (ok tt, written)
    unfolding write_pin page_at found_page store written p' replaced
    write_pin-written = rw at (rw (name, =ℤ_refl q.id))

    written-IsConsistent : IsConsistent k written
    unfolding written p'
    written-IsConsistent =
        replaced-IsConsistent k s q.i p p' s.disk v at mine refl (λ j _. refl) in_step size

    content-written :
        (j : PageId) → content k written j ≡ (if q.id =ℤ j then done buf else content k s j)
    unfolding written p'
    content-written j = elim (=ℤ_cases q.id j) [
      | inl (same, e) ↦
          subst (λ x. content k written x ≡ done buf) (name ∙ same)
            (content-replaced_self k s q.i p p' s.disk v at mine refl (λ j _. refl) in_step size)
          ∙ (rw e)
      | inr (other, e) ↦
          content-replaced_ne k s q.i p p' s.disk v at mine refl (λ j _. refl) in_step size j
            (λ x. other (sym (x ∙ name)))
          ∙ (rw e)
    ]

  -- A write of a whole page through a pin whose page is still in its frame does not fail. The page
  -- has the new content, every other page its old one, and the cache stays consistent.
  pub content-write_pin :
      (s : PageCache D) (q : Pin) (buf : PageBuf) (j : PageId)
      → IsConsistent k s
      → lookup q.id s.page_table ≡ some q.i
      → length buf ≡ page_size
      → (s' : PageCache D) × (write_pin k q buf s ≡ (ok tt, s'))
        × IsConsistent k s'
        × (content k s' j ≡ (if q.id =ℤ j then done buf else content k s j))
  content-write_pin s q buf j v pinned size =
      let (p, at, name) = v.mapped q.id q.i pinned in
      (
        written s q buf v pinned size p at name,
        write_pin-written s q buf v pinned size p at name,
        written-IsConsistent s q buf v pinned size p at name,
        content-written s q buf v pinned size p at name j,
      )
