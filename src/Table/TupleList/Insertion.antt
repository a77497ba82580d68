-- ===== src/Table/TupleList/Insertion.antt =====
-- src/table/list.rs: a tuple that is inserted into the last page of a table is read back, and all others as
-- before.
use dbstorage.Base.{
  ℕ, ◌^◌, ◌<◌, ◌≡◌, refl, sym, ap, ◌∙◌, subst, inl, inr, false, Option, some, List, arith, leb,
  length, get_elem?, get_elem?-lt, All, ok,
}
use mathlib.Core.Option.{some_inj}
use dbstorage.Base.Panic
use dbstorage.Base.Panic.{>>=-eq-some}
use dbstorage.Bytes.Signed.{=ℤ_cases, =ℤ_refl, IsI32}
use dbstorage.Page.{PageId, page_size}
use dbstorage.Disk.{Disk}
use dbstorage.Replacer.{LrukReplacer, unpin}
use dbstorage.PageCache.{PageCache, Pin}
use dbstorage.PageCache.Consistency.{IsConsistent}
use dbstorage.PageCache.Picks.{relabel}
use dbstorage.PageCache.Scopes.{write_guard}
use dbstorage.PageCache.Views
use dbstorage.Table.Slot.{RId, TupleMeta}
use dbstorage.Table.Node
use dbstorage.Table.Node.{Node, Tuple, from_page, low_water}
use dbstorage.Table.Node.Laws
use dbstorage.Table.Node.Laws.{Fits}
use dbstorage.Table.Node.SlotArray.{Plain}
use dbstorage.Table.Node.RoundTrip.{from_page-to_page_table}
use dbstorage.Table.TupleList.{
  TupleList, read_node, guard, write_node, store_node, insert_answer, insert, get,
}

-- A page of tuples that can be written: well formed, with its numbers in range, no slot marked as deleted.
pub record IsTidy (n : Node) : Type 0 where
  pub valid : Laws.IsValid n
  pub plain : All Plain n.slots
  pub next_ok : IsI32 n.next_page_id
  pub small : n.deleted_tuples_len < 2 ^ 32

module _ {D : Type 0} (disk : Disk D) where
  abbrev pub table_node : PageCache D → PageId → Option Node
  table_node = Views.view disk from_page

  -- The tuple of a record id, in the frame of its page.
  abbrev pub stored : PageCache D → RId → Option (TupleMeta × Tuple)
  stored s r =
      Panic.◌>>=◌ (table_node s r.page_id)
        λ n. Panic.◌>>=◌ (Node.get n r) λ t. some (t.0, record t.1 { rid = r })

  -- It is what `get` answers.
  pub get-stored :
      (s : PageCache D) (r : RId) (t : TupleMeta × Tuple)
      → IsConsistent disk s
      → stored s r ≡ some t
      → (a : LrukReplacer) × (get disk r s ≡ (ok (some t), Views.noted disk s a))
  unfolding get read_node
  get-stored s r t v h =
      let (n, at, h₁) = >>=-eq-some (table_node s r.page_id) _ h in
      let (u, got, h₂) = >>=-eq-some (Node.get n r) _ h₁ in
      let f = Views.Frame_of disk from_page s r.page_id n v at in
      let a = Views.fetched disk s f.i in
      let s₁ = Views.noted disk s a in
      (
        unpin a f.i,
        Views.visit disk s r.page_id f.i _ (ok (some t)) s₁ v f.framed (
            rw
              (
                Views.read_pin-at disk s₁ (record { i = f.i; id = r.page_id }) f.p f.held,
                f.image,
                got,
              )
              (ap (λ o. (ok o, s₁)) h₂)),
      )

  -- The insertion of a tuple into a node with room, and the page that is written for it.
  module _ (n : Node) (t : List ℕ) (meta : TupleMeta) (tidy : IsTidy n) (fits : Fits n t)
      (live : meta.deleted ≡ false) (filled : 0 < length t) where
    abbrev grown : Node
    grown = Laws.inserted n t meta tidy.valid fits

    grown-image :
        (image : List ℕ) × (Node.to_page grown ≡ some image)
        × (length image ≡ page_size)
        × (from_page image ≡ some (record grown { page = image }))
        × ((r : RId)
            → r.slot_id < length grown.slots
            → Node.get (record grown { page = image }) r ≡ Node.get grown r)
    grown-image =
        let (next, deleted) = Laws.inserted_fields n t meta tidy.valid fits in
        let mark = Laws.low_water-inserted n t meta tidy.valid fits in
        from_page-to_page_table grown (Laws.inserted-IsValid n t meta tidy.valid fits)
          (Laws.inserted-All n t meta tidy.valid fits Plain tidy.plain
            (omega (arith, tidy.valid.mark), omega (arith, tidy.valid.mark, fits), live))
          (subst IsI32 (sym next) tidy.next_ok) (subst (λ m. m < 2 ^ 32) (sym deleted) tidy.small)
          (λ _. omega (arith, mark, fits, tidy.valid.mark))

    insert-Updated :
        (s : PageCache D) (l : TupleList)
        → IsConsistent disk s
        → table_node s l.last_page_id ≡ some n
        → (s' : PageCache D) × (image : List ℕ) × (insert disk l t meta s
            ≡ (ok (some (record { page_id = l.last_page_id; slot_id = length n.slots }), l), s'))
          × Views.Updated disk from_page s s' l.last_page_id (record grown { page = image })
          × ((r : RId)
              → r.slot_id < length grown.slots
              → Node.get (record grown { page = image }) r ≡ Node.get grown r)
    unfolding insert write_node guard insert_answer store_node write_guard
    insert-Updated s l v at =
        let f = Views.Frame_of disk from_page s l.last_page_id n v at in
        let a = Views.fetched disk s f.i in
        let s₁ = Views.noted disk s a in
        let v₁ = relabel disk s s.free a s.next_page_id v in
        let q : Pin = record { i = f.i; id = l.last_page_id } in
        let (image, wrote, size, back, same) = grown-image in
        let s₂ = Views.written disk s₁ f.i f.p image in
        let guarded : guard disk q s₁ ≡ (ok f.p, s₁) =
          Views.write_guard-at disk s₁ q f.p f.held f.name in
        let u =
          Views.written-Updated disk from_page s₁ l.last_page_id f.i f.p
            (record grown { page = image }) v₁ f.framed f.held f.name image size back in
        (
          Views.noted disk s₂ (unpin s₂.replacer f.i),
          image,
          Views.visit disk s l.last_page_id f.i _ _ s₂ v f.framed (
              rw
                (
                  guarded,
                  f.image,
                  Laws.insert-inserted n t meta tidy.valid fits,
                  wrote,
                  Views.overwrite-at disk s₁ q f.p f.held image,
                )
                refl),
          Views.Updated-noted disk from_page s s₂ l.last_page_id _ _
              (Views.Updated-since disk from_page s s₂ l.last_page_id _ _ u),
          same,
        )

  get-slot :
      (n : Node) (r : RId) {u : TupleMeta × Tuple}
      → Node.get n r ≡ some u
      → r.slot_id < length n.slots
  unfolding Node.get
  get-slot n r h =
      let (_, _, h₁) = >>=-eq-some (Panic.assert (leb r.slot_id (Node.len n))) _ h in
      let (x, at, _) = >>=-eq-some (get_elem? n.slots r.slot_id) _ h₁ in
      get_elem?-lt n.slots r.slot_id at

  -- In a consistent cache with a frame that holds the table's last page, a well-formed page with its numbers in
  -- range and no slot marked as deleted: a live tuple of at least one byte that fits there is inserted with
  -- no error as the page's next slot, the cache stays consistent, `get` then reads the tuple under its record id,
  -- and every tuple of a page with a frame as before.
  pub get-insert_tuple :
      (s : PageCache D) (l : TupleList) (n : Node) (t : List ℕ) (meta : TupleMeta)
      → IsConsistent disk s
      → table_node s l.last_page_id ≡ some n
      → IsTidy n
      → Fits n t
      → meta.deleted ≡ false
      → 0 < length t
      → (s' : PageCache D) × (insert disk l t meta s
          ≡ (ok (some (record { page_id = l.last_page_id; slot_id = length n.slots }), l), s'))
        × IsConsistent disk s'
        × ((a : LrukReplacer) × (get disk
                (record { page_id = l.last_page_id; slot_id = length n.slots })
                s'
              ≡ (
                ok (
                    some (
                      meta,
                      record {
                        rid = record { page_id = l.last_page_id; slot_id = length n.slots };
                        content = t;
                      },
                    )),
                Views.noted disk s' a,
              )))
        × ((r : RId) (o : TupleMeta × Tuple)
            → stored s r ≡ some o
            → (a : LrukReplacer) × (get disk r s' ≡ (ok (some o), Views.noted disk s' a)))
  get-insert_tuple s l n t meta v at tidy fits live filled =
      let (s', image, inserted, u, same) = insert-Updated n t meta tidy fits live filled s l v at in
      let valid = tidy.valid in
      let new : Node = Laws.inserted n t meta valid fits in
      let rid : RId = record { page_id = l.last_page_id; slot_id = length n.slots } in
      let more = Laws.size-inserted n t meta valid fits in
      let here : table_node s' l.last_page_id ≡ some (record new { page = image }) =
        u.nodes l.last_page_id ∙ (rw (=ℤ_refl l.last_page_id) refl) in
      (
        s',
        inserted,
        u.consistent,
        get-stored s' rid _ u.consistent (
            rw (here, same rid (omega arith) ∙ Laws.get-inserted_self n t meta valid fits rid refl)
              refl),
        λ r o found. get-stored s' r o u.consistent (elim (=ℤ_cases l.last_page_id r.page_id) [
          | inl (page, _) ↦
              let (m, at', h₁) = >>=-eq-some (table_node s r.page_id) _ found in
              let is : n ≡ m = some_inj.0 (sym at ∙ ap (table_node s) page ∙ at') in
              let h₂ : (Panic.◌>>=◌ (Node.get n r) λ t. some (t.0, record t.1 { rid = r }))
                  ≡ some o =
                subst
                  (λ x.
                    (Panic.◌>>=◌ (Node.get x r) λ t. some (t.0, record t.1 { rid = r })) ≡ some o)
                  (sym is) h₁ in
              let (w, got, h₃) = >>=-eq-some (Node.get n r) _ h₂ in
              let lt = get-slot n r got in
              rw
                (
                  sym (ap (table_node s') page) ∙ here,
                  same r (omega arith) ∙ Laws.get-inserted_old n t meta valid fits r lt,
                )
                h₂
          | inr (other, e) ↦
              let there : table_node s' r.page_id ≡ table_node s r.page_id =
                u.nodes r.page_id ∙ (rw e refl) in
              rw there found
        ]),
      )
