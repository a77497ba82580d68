-- ===== src/PageCache/Views.antt =====
-- What the frames of the page cache show, read by a page's format, and calls that change one page.
use dbstorage.Base.{
  ◌≡◌, ◌≢◌, refl, sym, ap, ◌∙◌, subst, inl, inr, Option, List, some, none, true, if◌then◌else◌,
  get_elem?, get_elem?-set_self, get_elem?-set_ne, get_elem?-lt, set, length, Outcome, ok,
}
use dbstorage.Base.Panic
use dbstorage.Base.Panic.{>>=-eq-some}
use dbstorage.Bytes.Signed.{◌=ℤ◌, =ℤ_cases, =ℤ_refl}
use dbstorage.Page.{PageId, PageInner, PageBuf, page_size}
use dbstorage.Disk.{Disk}
use dbstorage.HashMap.{lookup, int_key}
use dbstorage.Replacer.{LrukReplacer, record_access, pin, unpin}
use dbstorage.Replacer.Nodes.{FrameId}
use dbstorage.PageCache.{
  PageCache, Pin, Call, ◌>>=◌, fetch_page, read_pin, found_page, page_at, write_pin, store,
  drop_pin,
}
use dbstorage.PageCache.Scopes.{finally, overwrite, write_guard}
use dbstorage.PageCache.Consistency.{IsConsistent}
use dbstorage.PageCache.Picks.{relabel}
use dbstorage.PageCache.Access.{fetch_page-hit, content-write_pin}

module _ {D : Type 0} (disk : Disk D) where
  -- The same cache but for what the replacer has noted.
  abbrev pub noted : PageCache D → LrukReplacer → PageCache D
  noted s r = record s { replacer = r }

  abbrev pub fetched : PageCache D → FrameId → LrukReplacer
  fetched s i = pin (record_access s.replacer i) i

  -- The cache after a frame's page was overwritten.
  abbrev pub written : PageCache D → FrameId → PageInner → PageBuf → PageCache D
  written s i p buf = record s { pages = set s.pages i (record p { content = buf; dirty = true }) }

  -- A page that has a frame is fetched, something is done with it, and it is dropped.
  pub visit :
      {A : Type 0} (s : PageCache D) (id : PageId) (i : FrameId) (f : Pin → Call D A)
      (o : Outcome A) (s' : PageCache D)
      → IsConsistent disk s
      → lookup id s.page_table ≡ some i
      → f (record { i = i; id = id }) (noted s (fetched s i)) ≡ (o, s')
      → (fetch_page disk id >>= λ q. finally disk q (f q)) s ≡ (o, noted s' (unpin s'.replacer i))
  unfolding drop_pin
  visit s id i f o s' v e h = rw (fetch_page-hit disk s id i v e, h) refl

  module _ (s : PageCache D) (q : Pin) (p : PageInner) (held : get_elem? s.pages q.i ≡ some p) where
    pub read_pin-at : read_pin disk q s ≡ (ok p.content, s)
    unfolding read_pin page_at found_page
    read_pin-at = rw held refl

    pub write_guard-at : p.id ≡ q.id → write_guard q s ≡ (ok p, s)
    unfolding write_guard page_at found_page
    write_guard-at name = rw held (rw (name, =ℤ_refl q.id) refl)

    pub overwrite-at : (buf : PageBuf) → overwrite q buf s ≡ (ok tt, written s q.i p buf)
    unfolding overwrite page_at found_page
    overwrite-at buf = rw held refl

    -- It is as consistent as after a write through the pin.
    pub written-IsConsistent :
        (buf : PageBuf)
        → IsConsistent disk s
        → lookup q.id s.page_table ≡ some q.i
        → p.id ≡ q.id
        → length buf ≡ page_size
        → IsConsistent disk (written s q.i p buf)
    unfolding write_pin store page_at found_page
    written-IsConsistent buf v pinned name size =
        let (s', e, v', _) = content-write_pin disk s q buf q.id v pinned size in
        let e' : write_pin disk q buf s ≡ (ok tt, written s q.i p buf) =
          rw held (rw (name, =ℤ_refl q.id) refl) in
        subst (IsConsistent disk) (same e e') v'
      where
        same :
            {o : Outcome (Unit {0}) × PageCache D} {a b : PageCache D}
            → o ≡ (ok tt, a)
            → o ≡ (ok tt, b)
            → a ≡ b
        same x y = cc

module _ {D N : Type 0} (disk : Disk D) (decode : PageBuf → Option N) where
  abbrev read_at : List PageInner → Option FrameId → Option N
  read_at pages o = Panic.◌>>=◌ o λ i. Panic.◌>>=◌ (get_elem? pages i) λ p. decode p.content

  -- What the frame of a page holds.
  abbrev pub view : PageCache D → PageId → Option N
  view s id = read_at s.pages (lookup id s.page_table)

  -- The cache is consistent, the table as before, and the frames show one node changed.
  pub record Updated (s s' : PageCache D) (id : PageId) (node : N) : Type 0 where
    pub consistent : IsConsistent disk s'
    pub table : s'.page_table ≡ s.page_table
    pub nodes : (x : PageId) → view s' x ≡ (if id =ℤ x then some node else view s x)

  -- Where the frame of a page is, and what it holds.
  pub record Frame (s : PageCache D) (id : PageId) (node : N) : Type 0 where
    pub i : FrameId
    pub p : PageInner
    pub framed : lookup id s.page_table ≡ some i
    pub held : get_elem? s.pages i ≡ some p
    pub name : p.id ≡ id
    pub image : decode p.content ≡ some node

  one : (o : Option PageInner) {a b : PageInner} → o ≡ some a → o ≡ some b → a ≡ b
  one o x y = cc

  pub Frame_of :
      (s : PageCache D) (id : PageId) (node : N)
      → IsConsistent disk s
      → view s id ≡ some node
      → Frame s id node
  Frame_of s id node v at =
      let (i, e, at₁) = >>=-eq-some (lookup id s.page_table) _ at in
      let (p, held, image) = >>=-eq-some (get_elem? s.pages i) _ at₁ in
      let (p', held', name') = v.mapped id i e in
      record {
        i = i;
        p = p;
        framed = e;
        held = held;
        name = ap (λ (x : PageInner). x.id) (one (get_elem? s.pages i) held held') ∙ name';
        image = image;
      }

  -- What the replacer notes is not seen.
  pub Updated-noted :
      (s s' : PageCache D) (id : PageId) (node : N) (r : LrukReplacer)
      → Updated s s' id node
      → Updated s (noted disk s' r) id node
  Updated-noted s s' id node r u = record {
    consistent = relabel disk s' s'.free r s'.next_page_id u.consistent;
    table = u.table;
    nodes = u.nodes;
  }

  pub Updated-since :
      (s s' : PageCache D) (id : PageId) (node : N) (r : LrukReplacer)
      → Updated (noted disk s r) s' id node
      → Updated s s' id node
  Updated-since s s' id node r u = record {
    consistent = u.consistent;
    table = u.table;
    nodes = u.nodes;
  }

  -- Nothing changed.
  pub Updated-same :
      (s : PageCache D) (id : PageId) (node : N)
      → IsConsistent disk s
      → view s id ≡ some node
      → Updated s s id node
  Updated-same s id node v at = record {
    consistent = v;
    table = refl;
    nodes = λ x. elim (=ℤ_cases id x) [
      | inl (same, e) ↦ rw e (subst (λ y. view s y ≡ some node) same at)
      | inr (_, e) ↦ rw e refl
    ];
  }

  -- A node is written as it was.
  pub Updated-again :
      (s s' s'' : PageCache D) (id x : PageId) (node other : N)
      → Updated s s' id node
      → Updated s' s'' x other
      → view s' x ≡ some other
      → Updated s s'' id node
  Updated-again s s' s'' id x node other u w at = record {
    consistent = w.consistent;
    table = w.table ∙ u.table;
    nodes = λ y. elim (=ℤ_cases x y) [
      | inl (same, e) ↦
          w.nodes y ∙ (rw e (sym (subst (λ z. view s' z ≡ some other) same at) ∙ u.nodes y))
      | inr (_, e) ↦ w.nodes y ∙ (rw e (u.nodes y))
    ];
  }

  -- A node that can be written is written through a pin that is held.
  module _ (s : PageCache D) (id : PageId) (i : FrameId) (p : PageInner) (node : N)
      (v : IsConsistent disk s) (framed : lookup id s.page_table ≡ some i)
      (held : get_elem? s.pages i ≡ some p) (name : p.id ≡ id) where
    other_frame :
        (image : PageBuf) (x : PageId) (o : Option FrameId)
        → lookup x s.page_table ≡ o
        → id ≢ x
        → read_at (written disk s i p image).pages o ≡ read_at s.pages o
    other_frame image x none e other = refl
    other_frame image x (some j) e other =
        let (p', held', name') = v.mapped x j e in
        let apart : i ≢ j = λ same. other (
          sym name
          ∙ ap (λ (y : PageInner). y.id)
              (one (get_elem? s.pages i) held (ap (get_elem? s.pages) same ∙ held'))
          ∙ name') in
        rw
          (get_elem?-set_ne s.pages {i = i} {j = j} (record p { content = image; dirty = true })
            apart)
          refl

    pub written-Updated :
        (image : PageBuf)
        → length image ≡ page_size
        → decode image ≡ some node
        → Updated s (written disk s i p image) id node
    written-Updated image size back = record {
      consistent =
          written-IsConsistent disk s (record { i = i; id = id }) p held image v framed name size;
      table = refl;
      nodes = λ x. elim (=ℤ_cases id x) [
        | inl (same, e) ↦
            let x' : PageInner = record p { content = image; dirty = true } in
            let there : get_elem? (set s.pages i x') i ≡ some x' =
              get_elem?-set_self s.pages i x' (get_elem?-lt s.pages i held) in
            rw (e, sym (ap (λ y. lookup y s.page_table) same) ∙ framed, there, back) refl
        | inr (other, e) ↦ rw e (other_frame image x (lookup x s.page_table) refl other)
      ];
    }
