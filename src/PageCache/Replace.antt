-- ===== src/PageCache/Replace.antt =====
-- A frame whose page changes its content or its flag, and keeps its id.
use dbstorage.Base.{
  ◌≡◌, ◌≢◌, sym, ap, ◌∙◌, subst, ◌⊎◌, inl, inr, false, some, get_elem?, set, length,
  get_elem?-set_self, get_elem?-set_ne, ℕ_discrete, Option-cases,
}
use dbstorage.Page.{PageId, PageInner, page_size}
use dbstorage.Disk.{Disk, done}
use dbstorage.HashMap.{lookup, int_key}
use dbstorage.Replacer.Nodes.{FrameId}
use dbstorage.PageCache.{PageCache}
use dbstorage.PageCache.Consistency.{frame_content, content_at, content, IsConsistent}
use dbstorage.PageCache.Load.{get_elem?-lt, some_injective}

module _ {D : Type 0} (k : Disk D) (s : PageCache D) (i : FrameId) (p p' : PageInner) (d' : D)
    (v : IsConsistent k s) (held : get_elem? s.pages i ≡ some p)
    (mine : lookup p.id s.page_table ≡ some i) (same_id : p'.id ≡ p.id)
    (other_read : (j : PageId) → j ≢ p.id → k.read_page d' j ≡ k.read_page s.disk j)
    (in_step : p'.dirty ≡ false → k.read_page d' p.id ≡ done p'.content)
    (size : length p'.content ≡ page_size) where
  unfoldable pub replaced : PageCache D
  replaced = record s { pages = set s.pages i p'; disk = d' }

  here : get_elem? replaced.pages i ≡ some p'
  unfolding replaced
  here = get_elem?-set_self s.pages i p' (get_elem?-lt s.pages i held)

  elsewhere : (o : FrameId) → o ≢ i → get_elem? replaced.pages o ≡ get_elem? s.pages o
  unfolding replaced
  elsewhere o other = get_elem?-set_ne s.pages p' (λ e. other (sym e))

  frame_cases :
      (o : FrameId) (q : PageInner)
      → get_elem? replaced.pages o ≡ some q
      → ((o ≡ i) × (q ≡ p')) ⊎ ((o ≢ i) × (get_elem? s.pages o ≡ some q))
  frame_cases o q h = elim (ℕ_discrete o i) [
    | yes same ↦ inl (
      same,
      some_injective (sym (subst (λ x. get_elem? replaced.pages x ≡ some q) same h) ∙ here),
    )
    | no other ↦ inr (other, sym (elsewhere o other) ∙ h)
  ]

  mapped_replaced :
      (j : PageId) (o : FrameId)
      → lookup j s.page_table ≡ some o
      → (q : PageInner) × (get_elem? replaced.pages o ≡ some q) × (q.id ≡ j)
  mapped_replaced j o h =
      let (q, at, name) = v.mapped j o h in
      elim (ℕ_discrete o i) [
        | yes same ↦
            let both : q ≡ p =
              some_injective (sym (subst (λ x. get_elem? s.pages x ≡ some q) same at) ∙ held) in
            (
              p',
              subst (λ x. get_elem? replaced.pages x ≡ some p') (sym same) here,
              same_id ∙ ap (λ (x : PageInner). x.id) (sym both) ∙ name,
            )
        | no other ↦ (q, elsewhere o other ∙ at, name)
      ]

  mine' : lookup p'.id s.page_table ≡ some i
  mine' = subst (λ x. lookup x s.page_table ≡ some i) (sym same_id) mine

  -- A page other than that of the frame is in another frame.
  away_of : (j : PageId) (o : FrameId) → lookup j s.page_table ≡ some o → j ≢ p.id → o ≢ i
  away_of j o e other same =
      let (q, at, name) = v.mapped j o e in
      let both : q ≡ p =
        some_injective (sym (subst (λ x. get_elem? s.pages x ≡ some q) same at) ∙ held) in
      other (sym name ∙ ap (λ (x : PageInner). x.id) both)

  -- Two frames have no page in common.
  other_id : (o : FrameId) (q : PageInner) → o ≢ i → lookup q.id s.page_table ≡ some o → q.id ≢ p.id
  other_id o q away e same =
      away (some_injective (sym (subst (λ x. lookup x s.page_table ≡ some o) same e) ∙ mine))

  pub replaced-IsConsistent : IsConsistent k replaced
  unfolding replaced
  replaced-IsConsistent = record {
    distinct = v.distinct;
    mapped = mapped_replaced;
    owned = λ o q h. elim (frame_cases o q h) [
      | inl (same, is) ↦ inr (
          subst (λ (x : PageInner). lookup x.id s.page_table ≡ some o) (sym is)
            (mine' ∙ ap some (sym same)))
      | inr (away, at) ↦ v.owned o q at
    ];
    reserved = v.reserved;
    clean = λ o q h e tidy. elim (frame_cases o q h) [
      | inl (same, is) ↦
          subst (λ (x : PageInner). k.read_page d' x.id ≡ done x.content) (sym is)
            (subst (λ x. k.read_page d' x ≡ done p'.content) (sym same_id)
              (in_step (subst (λ (x : PageInner). x.dirty ≡ false) is tidy)))
      | inr (away, at) ↦ other_read q.id (other_id o q away e) ∙ v.clean o q at e tidy
    ];
    sized = λ o q h. elim (frame_cases o q h) [
      | inl (same, is) ↦ subst (λ (x : PageInner). length x.content ≡ page_size) (sym is) size
      | inr (away, at) ↦ v.sized o q at
    ];
  }

  pub content-replaced_self : content k replaced p.id ≡ done p'.content
  unfolding replaced
  content-replaced_self =
      ap (λ o. content_at k o replaced.pages d' p.id) mine ∙ ap frame_content here

  pub content-replaced_ne : (j : PageId) → j ≢ p.id → content k replaced j ≡ content k s j
  unfolding replaced
  content-replaced_ne j other = elim (Option-cases (lookup j s.page_table)) [
    | inl free ↦
        ap (λ o. content_at k o replaced.pages d' j) free
        ∙ other_read j other
        ∙ sym (ap (λ o. content_at k o s.pages s.disk j) free)
    | inr (o, e) ↦
        ap (λ o. content_at k o replaced.pages d' j) e
        ∙ ap frame_content (elsewhere o (away_of j o e other))
        ∙ sym (ap (λ o. content_at k o s.pages s.disk j) e)
  ]
