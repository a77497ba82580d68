-- ===== src/PageCache/Load.antt =====
-- A frame that takes a new page: no page changes its content.
use dbstorage.Base.{
  ℕ, zero, suc, ◌<◌, ◌≡◌, ◌≢◌, sym, ap, ◌∙◌, subst, ◌⊎◌, inl, inr, false, some, none, List, [], ◌∷◌,
  arith, get_elem?, set, length, if◌then◌else◌, get_elem?-set_self, get_elem?-set_ne, ℕ_discrete,
  Option-cases,
}
use dbstorage.Bytes.Signed.{◌=ℤ◌, =ℤ_cases, =ℤ_refl}
use dbstorage.Page.{PageId, PageBuf, PageInner, page_size}
use dbstorage.Disk.{Disk, done}
use dbstorage.HashMap.{lookup, insert, remove, insert-IsDistinct, remove-IsDistinct, int_key}
use dbstorage.Replacer.Nodes.{FrameId}
use dbstorage.PageCache.{PageCache}
use dbstorage.PageCache.Consistency.{
  no_page, frame_content, lookup-remap, content_at, content, IsConsistent,
}

pub none≢some {ℓ} : {A : Type ℓ} {a : A} → ¬ (none ≡ some a)
none≢some h = cc

pub some_injective {ℓ} : {A : Type ℓ} {a b : A} → some a ≡ some b → a ≡ b
some_injective h = cc

pub get_elem?-lt {ℓ} :
    {A : Type ℓ} (xs : List A) (i : ℕ) {a : A} → get_elem? xs i ≡ some a → i < length xs
get_elem?-lt [] i h = absurd (none≢some h)
get_elem?-lt (x ∷ xs) zero h = omega arith
get_elem?-lt (x ∷ xs) (suc i) h = omega (arith, get_elem?-lt xs i h)

-- A cache whose frame `i` holds `p`, and a page `id` that has no frame yet.
module _ {D : Type 0} (k : Disk D) (s : PageCache D) (i : FrameId) (p : PageInner) (id : PageId)
    (d' : D) (buf : PageBuf) (v : IsConsistent k s) (held : get_elem? s.pages i ≡ some p)
    (absent : lookup id s.page_table ≡ none)
    (other_read : (j : PageId) → j ≢ p.id → k.read_page d' j ≡ k.read_page s.disk j)
    (old_read : k.read_page d' p.id ≡ content k s p.id)
    (new_read : k.read_page d' id ≡ done buf) where
  unfoldable pub filled : PageInner
  filled = record { id = id; dirty = false; content = buf }

  -- The cache after the change.
  unfoldable pub loaded : PageCache D
  unfolding filled
  loaded = record s {
    pages = set s.pages i filled;
    page_table = insert id i (remove p.id s.page_table);
    disk = d';
  }

  table :
      (j : PageId)
      → lookup j loaded.page_table
        ≡ (if id =ℤ j then some i else if p.id =ℤ j then none else lookup j s.page_table)
  unfolding loaded
  table j = lookup-remap p.id id j i s.page_table v.distinct

  -- A page without a frame is read from the disk as it was.
  uncached :
      (j : PageId) → (lookup j s.page_table ≡ none) ⊎ (j ≡ p.id) → k.read_page d' j ≡ content k s j
  uncached j h = elim (=ℤ_cases j p.id) [
    | inl (same, _) ↦ subst (λ q. k.read_page d' q ≡ content k s q) (sym same) old_read
    | inr (other, _) ↦ elim h [
      | inl free ↦ other_read j other ∙ sym (ap (λ o. content_at k o s.pages s.disk j) free)
      | inr same ↦ absurd (other same)
    ]
  ]

  here : i < length s.pages
  here = get_elem?-lt s.pages i held

  frame_here : get_elem? loaded.pages i ≡ some filled
  unfolding loaded
  frame_here = get_elem?-set_self s.pages i filled here

  frame_elsewhere : (j : FrameId) → j ≢ i → get_elem? loaded.pages j ≡ get_elem? s.pages j
  unfolding loaded
  frame_elsewhere j other = get_elem?-set_ne s.pages filled (λ e. other (sym e))

  pub table_new : lookup id loaded.page_table ≡ some i
  table_new = table id ∙ (rw (=ℤ_refl id))

  table_old : p.id ≢ id → lookup p.id loaded.page_table ≡ none
  table_old other = elim (=ℤ_cases id p.id) [
    | inl (same, _) ↦ absurd (other (sym same))
    | inr (_, e) ↦ table p.id ∙ (rw (e, =ℤ_refl p.id))
  ]

  table_else : (j : PageId) → j ≢ id → j ≢ p.id → lookup j loaded.page_table ≡ lookup j s.page_table
  table_else j new old = elim (=ℤ_cases id j) [
    | inl (same, _) ↦ absurd (new (sym same))
    | inr (_, e) ↦ elim (=ℤ_cases p.id j) [
      | inl (same, _) ↦ absurd (old (sym same))
      | inr (_, f) ↦ table j ∙ (rw (e, f))
    ]
  ]

  -- The frame of another page is another frame.
  elsewhere : (j : PageId) (o : FrameId) → lookup j s.page_table ≡ some o → j ≢ p.id → o ≢ i
  elsewhere j o e other same =
      let (q, at, name) = v.mapped j o e in
      let at' : get_elem? s.pages i ≡ some q = subst (λ x. get_elem? s.pages x ≡ some q) same at in
      let both : q ≡ p = some_injective (sym at' ∙ held) in
      other (sym name ∙ ap (λ (x : PageInner). x.id) both)

  content_else : (j : PageId) → j ≢ id → j ≢ p.id → content k loaded j ≡ content k s j
  unfolding loaded
  content_else j new old = elim (Option-cases (lookup j s.page_table)) [
    | inl none' ↦
        ap (λ o. content_at k o loaded.pages loaded.disk j) (table_else j new old ∙ none')
        ∙ uncached j (inl none')
    | inr (o, e) ↦
        ap (λ o. content_at k o loaded.pages loaded.disk j) (table_else j new old ∙ e)
        ∙ ap frame_content (frame_elsewhere o (elsewhere j o e old))
        ∙ sym (ap (λ o. content_at k o s.pages s.disk j) e)
  ]

  -- No page changes its content.
  pub content-loaded : (j : PageId) → content k loaded j ≡ content k s j
  unfolding loaded filled
  content-loaded j = elim (=ℤ_cases j id) [
    | inl (new, _) ↦
        subst (λ q. content k loaded q ≡ content k s q) (sym new)
          (ap (λ o. content_at k o loaded.pages loaded.disk id) table_new
            ∙ ap frame_content frame_here
            ∙ sym new_read
            ∙ uncached id (inl absent))
    | inr (new, _) ↦ elim (=ℤ_cases j p.id) [
      | inl (old, _) ↦
          subst (λ q. content k loaded q ≡ content k s q) (sym old)
            (ap (λ o. content_at k o loaded.pages loaded.disk p.id) (table_old (λ e. new (old ∙ e)))
              ∙ old_read)
      | inr (old, _) ↦ content_else j new old
    ]
  ]

  -- What the table finds after the change: the new page, or a page that it found before.
  found :
      (j : PageId) (o : FrameId)
      → lookup j loaded.page_table ≡ some o
      → ((j ≡ id) × (o ≡ i)) ⊎ ((j ≢ id) × (j ≢ p.id) × (o ≢ i) × (lookup j s.page_table ≡ some o))
  found j o h = elim (=ℤ_cases j id) [
    | inl (new, _) ↦ inl (
      new,
      some_injective
          (sym h ∙ (subst (λ q. lookup q loaded.page_table ≡ some i) (sym new) table_new)),
    )
    | inr (new, _) ↦ elim (=ℤ_cases j p.id) [
      | inl (old, _) ↦ absurd (
          none≢some (
            sym (table_old (λ e. new (old ∙ e)))
            ∙ subst (λ q. lookup q loaded.page_table ≡ some o) old h))
      | inr (old, _) ↦
          let before = sym (table_else j new old) ∙ h in
          inr (new, old, elsewhere j o before old, before)
    ]
  ]

  frame_cases :
      (o : FrameId) (q : PageInner)
      → get_elem? loaded.pages o ≡ some q
      → ((o ≡ i) × (q ≡ filled)) ⊎ ((o ≢ i) × (get_elem? s.pages o ≡ some q))
  frame_cases o q h = elim (ℕ_discrete o i) [
    | yes same ↦ inl (
      same,
      some_injective (sym (subst (λ x. get_elem? loaded.pages x ≡ some q) same h) ∙ frame_here),
    )
    | no other ↦ inr (other, sym (frame_elsewhere o other) ∙ h)
  ]

  mapped_loaded :
      (j : PageId) (o : FrameId)
      → lookup j loaded.page_table ≡ some o
      → (q : PageInner) × (get_elem? loaded.pages o ≡ some q) × (q.id ≡ j)
  unfolding filled
  mapped_loaded j o h = elim (found j o h) [
    | inl (new, at) ↦
        (filled, subst (λ x. get_elem? loaded.pages x ≡ some filled) (sym at) frame_here, sym new)
    | inr (new, old, away, before) ↦
        let (q, at, name) = v.mapped j o before in (q, frame_elsewhere o away ∙ at, name)
  ]

  module _ (real : id ≢ no_page) where
    reserved_loaded : lookup no_page loaded.page_table ≡ none
    reserved_loaded = elim (=ℤ_cases no_page p.id) [
      | inl (same, _) ↦
          subst (λ q. lookup q loaded.page_table ≡ none) (sym same)
            (table_old (λ e. real (sym (same ∙ e))))
      | inr (other, _) ↦ table_else no_page (λ e. real (sym e)) other ∙ v.reserved
    ]

    -- A frame elsewhere keeps its page.
    kept :
        (o : FrameId) (q : PageInner)
        → o ≢ i
        → lookup q.id s.page_table ≡ some o
        → lookup q.id loaded.page_table ≡ some o
    kept o q away before = table_else q.id new old ∙ before
      where
        new : q.id ≢ id
        new same = none≢some (sym absent ∙ subst (λ x. lookup x s.page_table ≡ some o) same before)

        old : q.id ≢ p.id
        old same = elim (v.owned i p held) [
          | inl (fresh, _) ↦
              none≢some
                (sym v.reserved ∙ subst (λ x. lookup x s.page_table ≡ some o) (same ∙ fresh) before)
          | inr mine ↦ away (
              some_injective (sym (subst (λ x. lookup x s.page_table ≡ some o) same before) ∙ mine))
        ]

    owned_loaded :
        (o : FrameId) (q : PageInner)
        → get_elem? loaded.pages o ≡ some q
        → ((q.id ≡ no_page) × (q.dirty ≡ false)) ⊎ (lookup q.id loaded.page_table ≡ some o)
    unfolding filled
    owned_loaded o q h = elim (frame_cases o q h) [
      | inl (same, e) ↦ inr (
          subst (λ (x : PageInner). lookup x.id loaded.page_table ≡ some o) (sym e)
            (table_new ∙ ap some (sym same)))
      | inr (away, at) ↦ elim (v.owned o q at) [
        | inl fresh ↦ inl fresh
        | inr before ↦ inr (kept o q away before)
      ]
    ]

    clean_loaded :
        (o : FrameId) (q : PageInner)
        → get_elem? loaded.pages o ≡ some q
        → lookup q.id loaded.page_table ≡ some o
        → q.dirty ≡ false
        → k.read_page d' q.id ≡ done q.content
    unfolding filled
    clean_loaded o q h e tidy = elim (frame_cases o q h) [
      | inl (same, is) ↦
          subst (λ (x : PageInner). k.read_page d' x.id ≡ done x.content) (sym is) new_read
      | inr (away, at) ↦ elim (found q.id o e) [
        | inl (_, here') ↦ absurd (away here')
        | inr (_, old, _, before) ↦ other_read q.id old ∙ v.clean o q at before tidy
      ]
    ]

    sized_loaded :
        length buf ≡ page_size
        → (o : FrameId) (q : PageInner) → get_elem? loaded.pages o ≡ some q
        → length q.content ≡ page_size
    unfolding filled
    sized_loaded size o q h = elim (frame_cases o q h) [
      | inl (same, is) ↦ subst (λ (x : PageInner). length x.content ≡ page_size) (sym is) size
      | inr (away, at) ↦ v.sized o q at
    ]

    pub loaded-IsConsistent : length buf ≡ page_size → IsConsistent k loaded
    unfolding loaded
    loaded-IsConsistent size = record {
      distinct = insert-IsDistinct id i _ (remove-IsDistinct p.id s.page_table v.distinct);
      mapped = mapped_loaded;
      owned = owned_loaded;
      reserved = reserved_loaded;
      clean = clean_loaded;
      sized = sized_loaded size;
    }
