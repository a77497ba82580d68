-- ===== src/PageCache/Calls.antt =====
-- The calls of the page cache as their callers see them.
use dbstorage.Base.{
  ◌≡◌, ◌≢◌, refl, sym, ap, ◌∙◌, subst, inl, inr, true, false, some, none, get_elem?, Bool-cases,
  Outcome, ok,
}
use dbstorage.Page.{PageId, PageInner}
use dbstorage.Disk.{Disk, IsLawful, IoResult, done, fail, panics}
use dbstorage.HashMap.{lookup, insert, remove, int_key}
use dbstorage.Replacer.{record_access, pin, remove_node}
use dbstorage.Replacer.Nodes.{FrameId}
use dbstorage.PageCache.FreeFrames.{pop}
use dbstorage.PageCache.{
  PageCache, Pin, next, from_io, pick_frame, page_at, take_over, write_out, write_back, remap, fill,
  read_in, install, load, try_get_page,
}
use dbstorage.PageCache.Consistency.{no_page, content, content_at, frame_content, IsConsistent}
use dbstorage.PageCache.Load.{filled, loaded, content-loaded, loaded-IsConsistent, table_new}
use dbstorage.PageCache.Picks.{next-ok, true≢false, relabel, pick_from-ok, page_at-ok}

module _ {D : Type 0} (k : Disk D) (law : IsLawful k) where
  abbrev pub Written : PageInner → PageCache D → IoResult (Unit {0}) × D → PageCache D → Type 0
  Written p s o s' = (o.0 ≡ done tt) × (s' ≡ record s { disk = o.1 })

  write_out_go :
      (p : PageInner) (s : PageCache D) (o : IoResult (Unit {0}) × D) {u : Unit {0}}
      {s' : PageCache D}
      → ◌≡◌ {A = Outcome (Unit {0}) × PageCache D} (from_io o.0, record s { disk = o.1 }) (ok u, s')
      → Written p s o s'
  write_out_go p s (done _, d) h = (refl, cc)
  write_out_go p s (fail e, d) h = absurd (cc)
  write_out_go p s (panics, d) h = absurd (cc)

  pub write_out-ok :
      (p : PageInner) (s : PageCache D) {u : Unit {0}} {s' : PageCache D}
      → write_out k p s ≡ (ok u, s')
      → Written p s (k.write_page s.disk p.id p.content) s'
  unfolding write_out
  write_out-ok p s h = write_out_go p s (k.write_page s.disk p.id p.content) h

  -- Once the frame's old page is written back (if it was dirty), the disk holds what the cache showed
  -- of that page, and the other pages as before.
  abbrev Saved : PageInner → PageCache D → D → Type 0
  Saved p s d' =
      ((j : PageId) → j ≢ p.id → k.read_page d' j ≡ k.read_page s.disk j)
      × (k.read_page d' p.id ≡ content k s p.id)

  module _ (s : PageCache D) (i : FrameId) (p : PageInner) (v : IsConsistent k s)
      (held : get_elem? s.pages i ≡ some p) where
    shown : lookup p.id s.page_table ≡ some i → content k s p.id ≡ done p.content
    shown e = ap (λ o. content_at k o s.pages s.disk p.id) e ∙ ap frame_content held

    Saved-clean : p.dirty ≡ false → Saved p s s.disk
    Saved-clean tidy = (
      λ j _. refl,
      elim (v.owned i p held) [
        | inl (fresh, _) ↦
            subst (λ q. k.read_page s.disk q ≡ content k s q) (sym fresh)
              (sym (ap (λ o. content_at k o s.pages s.disk no_page) v.reserved))
        | inr mine ↦ v.clean i p held mine tidy ∙ sym (shown mine)
      ],
    )

    Saved-dirty :
        p.dirty ≡ true
        → (d' : D) → k.write_page s.disk p.id p.content ≡ (done tt, d')
        → Saved p s d'
    Saved-dirty dirty d' w = elim (v.owned i p held) [
      | inl (_, tidy) ↦ absurd (true≢false (sym dirty ∙ tidy))
      | inr mine ↦ (
        λ j other. law.read_other s.disk d' p.id j p.content other w,
        law.read_written s.disk d' p.id p.content (v.sized i p held) w ∙ sym (shown mine),
      )
    ]

    pub write_back-ok :
        {u : Unit {0}} {s' : PageCache D}
        → write_back k p s ≡ (ok u, s')
        → (d' : D) × (s' ≡ record s { disk = d' }) × Saved p s d'
    unfolding write_back
    write_back-ok h = elim (Bool-cases p.dirty) [
      | inl dirty ↦
          let (w, e) = write_out-ok p s (rw dirty at h) in
          let r = k.write_page s.disk p.id p.content in
          (r.1, e, Saved-dirty dirty r.1 (λ j. (w j, r.1)))
      | inr tidy ↦ (s.disk, clean_state (rw tidy at h), Saved-clean tidy)
    ]
      where
        clean_state :
            {u : Unit {0}} {s' : PageCache D}
            → ◌≡◌ {A = Outcome (Unit {0}) × PageCache D} (ok tt, s) (ok u, s')
            → s' ≡ s
        clean_state q = cc

  from_io-ok :
      {A : Type 0} (r : IoResult A) (s : PageCache D) {a : A} {s' : PageCache D}
      → ◌≡◌ {A = Outcome A × PageCache D} (from_io r, s) (ok a, s')
      → (r ≡ done a) × (s' ≡ s)
  from_io-ok (done a) s h = (cc, cc)
  from_io-ok (fail e) s h = absurd (cc)
  from_io-ok panics s h = absurd (cc)

  -- What a call that brought in page `id` leaves.
  pub record Brought (s : PageCache D) (id : PageId) (q : Pin) (s' : PageCache D) : Type 0 where
    pub consistent : IsConsistent k s'
    pub unchanged : (j : PageId) → content k s' j ≡ content k s j
    pub named : q.id ≡ id
    pub pinned : lookup id s'.page_table ≡ some q.i

  module _ (s : PageCache D) (i : FrameId) (p : PageInner) (id : PageId) (v : IsConsistent k s)
      (held : get_elem? s.pages i ≡ some p) (absent : lookup id s.page_table ≡ none)
      (real : id ≢ no_page) where
    finish :
        (d' : D)
        → Saved p s d'
        → {q : Pin} {s' : PageCache D}
        → next
            (read_in k id i p
              (record s { disk = d'; page_table = insert id i (remove p.id s.page_table) }))
            (λ _ t. (ok (record { i = i; id = id }), t))
          ≡ (ok q, s')
        → Brought s id q s'
    unfolding read_in fill loaded filled
    finish d' (other, old) {q} {s'} h =
        let sA = record s { disk = d'; page_table = insert id i (remove p.id s.page_table) } in
        let (u, t, e, h') = next-ok (read_in k id i p sA) _ h in
        let (buf, t', e', h'') = next-ok (from_io (k.read_page d' id), sA) (fill k id i p) e in
        let (new, at) = from_io-ok (k.read_page d' id) sA e' in
        let s₁ = loaded k s i p id d' buf v held absent other old new in
        let pair : (q ≡ record { i = i; id = id }) × (s' ≡ s₁) = (cc, cc (at, h'', h')) in
        let size = law.read_sized d' id new in
        let v₁ = loaded-IsConsistent k s i p id d' buf v held absent other old new real size in
        subst (λ t. Brought s id q t) (sym pair.1)
          (record {
            consistent = v₁;
            unchanged = content-loaded k s i p id d' buf v held absent other old new;
            named = ap (λ (x : Pin). x.id) pair.0;
            pinned =
                table_new k s i p id d' buf v held absent other old new
                ∙ ap some (sym (ap (λ (x : Pin). x.i) pair.0));
          })

  module _ (s : PageCache D) (i : FrameId) (p : PageInner) (id : PageId) (v : IsConsistent k s)
      (held : get_elem? s.pages i ≡ some p) (absent : lookup id s.page_table ≡ none)
      (real : id ≢ no_page) where
    install-Brought :
        {q : Pin} {s' : PageCache D} → install k i id p s ≡ (ok q, s') → Brought s id q s'
    unfolding install take_over remap
    install-Brought {q} {s'} h =
        let r = pin (record_access (remove_node s.replacer i) i) i in
        let s₁ = record s { replacer = r } in
        let v₁ = relabel k s s.free r s.next_page_id v in
        let (u, s₂, e, h₂) = next-ok (write_back k p s₁) _ h in
        let (d', same, saved) = write_back-ok s₁ i p v₁ held e in
        let b =
          finish s₁ i p id v₁ held absent real d' saved {q = q} {s' = s'}
            (subst (λ t. rest t ≡ (ok q, s')) same h₂) in
        record {
          consistent = b.consistent;
          unchanged = b.unchanged;
          named = b.named;
          pinned = b.pinned;
        }
      where
        rest : PageCache D → Outcome Pin × PageCache D
        rest t =
            next
              (read_in k id i p (record t { page_table = insert id i (remove p.id t.page_table) }))
              (λ _ t. (ok (record { i = i; id = id }), t))

  module _ (s : PageCache D) (id : PageId) (v : IsConsistent k s)
      (absent : lookup id s.page_table ≡ none) (real : id ≢ no_page) where
    load-Brought :
        (i : FrameId) {q : Pin} {s' : PageCache D} → load k i id s ≡ (ok q, s') → Brought s id q s'
    unfolding load
    load-Brought i {q} {s'} h =
        let (p, s₁, e, h₁) = next-ok (page_at i s) (install k i id) h in
        let (held, same) = page_at-ok i s e in
        install-Brought s i p id v held absent real
          (subst (λ t. install k i id p t ≡ (ok q, s')) same h₁)

  -- A page that comes into the cache: whatever frame it takes, no page changes its content, the
  -- table finds the page, and the cache stays consistent.
  pub try_get_page-Brought :
      (s : PageCache D) (id : PageId) {q : Pin} {s' : PageCache D}
      → IsConsistent k s
      → lookup id s.page_table ≡ none
      → id ≢ no_page
      → try_get_page k id s ≡ (ok q, s')
      → Brought s id q s'
  unfolding try_get_page pick_frame
  try_get_page-Brought s id {q} {s'} v absent real h =
      let (i, s₁, e, h₁) = next-ok (pick_frame s) (λ i. load k i id) h in
      let (free, same) = pick_from-ok (pop s.free) s e in
      let t = record s { free = free } in
      let b =
        load-Brought t id (relabel k s free s.replacer s.next_page_id v) absent real i {q = q}
          {s' = s'} (subst (λ t. load k i id t ≡ (ok q, s')) same h₁) in
      record {
        consistent = b.consistent;
        unchanged = b.unchanged;
        named = b.named;
        pinned = b.pinned;
      }
