-- ===== src/Table/Node/Laws.antt =====
-- What is inserted into a page is read back, and nothing else moves.
use dbstorage.Base.{
  ℕ, ◌+◌, ◌-◌, ◌*◌, ◌%◌, ◌^◌, ◌≤◌, ◌<◌, ◌≡◌, refl, ap, ◌∙◌, true, false, some, none, List, [], ◌∷◌,
  ◌++◌, arith, length, get_elem?, put, range, slice, last-snoc, All, All-append, All-mono,
  get_elem?-All, get_elem?-append_left, get_elem?-append_self, length-append, copy_from_slice,
  copy_from_slice_lem, range_lem, length-put, slice-put_self, range-put_after, leb, ltb, le→leb,
  not-le→leb, lt→ltb, not-lt→ltb,
}
use dbstorage.Page.{page_size}
use dbstorage.Table.Slot.{Slot, TupleMeta, RId, slot_size}
use dbstorage.Table.Node.{
  Node, header_size, len, low_water, offset_or_end, next_tuple_offset, add_tuple, insert_at, insert,
  get,
}

-- Every tuple lies between the mark and the end of the page; the slots lie below the mark.
pub record IsValid (n : Node) : Type 0 where
  pub sized : length n.page ≡ page_size
  pub tuples : All (λ (s : Slot). (low_water n ≤ s.offset) × (s.offset + s.len ≤ page_size)) n.slots
  pub slots_fit : header_size + slot_size * length n.slots ≤ low_water n
  pub mark : low_water n ≤ page_size

-- The tuple and one more slot fit into the free part.
abbrev pub Fits : Node → List ℕ → Type 0
Fits n t = header_size + slot_size * (length n.slots + 1) + length t ≤ low_water n

module _ (n : Node) (t : List ℕ) (meta : TupleMeta) (v : IsValid n) where
  len-small : len n ≡ length n.slots
  unfolding len
  len-small = omega (arith, v.slots_fit, v.mark)

  module _ (fits : Fits n t) where
    offset : ℕ
    offset = low_water n - length t

    slot : Slot
    unfolding offset
    slot = record { offset = offset; len = length t; meta = meta }

    pub inserted : Node
    unfolding slot offset
    inserted = record n { slots = n.slots ++ (slot ∷ []); page = put n.page offset t }

    room : (offset + length t ≡ low_water n) × (offset < 2 ^ 32) × (length t < 2 ^ 32)
    unfolding offset
    room = (omega arith, omega (arith, v.mark), omega (arith, v.mark))

    pub insert-inserted : insert n t meta ≡ some (some (length n.slots), inserted)
    unfolding insert next_tuple_offset insert_at add_tuple inserted slot offset
    insert-inserted =
        let high : header_size + slot_size * (len n + 1) ≤ low_water n - length t =
          omega (arith, len-small) in
        let e₁ : (low_water n - length t) % 2 ^ 32 ≡ low_water n - length t = omega (arith, room) in
        let e₂ : length t % 2 ^ 32 ≡ length t = omega (arith, room) in
        let e₃ : (low_water n + 2 ^ 64 - length t) % 2 ^ 64 ≡ low_water n - length t =
          omega (arith, room, v.mark) in
        rw (
          e₃,
          not-lt→ltb (low_water n - length t) (header_size + slot_size * (len n + 1))
              (λ q. absurd (omega arith)),
          copy_from_slice_lem n.page (low_water n - length t) (low_water n - length t + length t) t
              refl (omega (arith, v.sized, v.mark, room)),
          e₁,
          e₂,
          len-small,
        )

    pub low_water-inserted : low_water inserted ≡ low_water n - length t
    unfolding low_water inserted slot offset
    low_water-inserted = ap offset_or_end (last-snoc n.slots slot)

    pub size-inserted : length inserted.slots ≡ length n.slots + 1
    unfolding inserted
    size-inserted = omega (arith, length-append n.slots (slot ∷ []))

    -- The other fields stay; a property of the old slots and of the new one is one of all.
    pub inserted_fields :
        (inserted.next_page_id ≡ n.next_page_id)
        × (inserted.deleted_tuples_len ≡ n.deleted_tuples_len)
    unfolding inserted
    inserted_fields = (refl, refl)

    pub inserted-All :
        (P : Slot → Type 0)
        → All P n.slots
        → P (record { offset = low_water n - length t; len = length t; meta = meta })
        → All P inserted.slots
    unfolding inserted slot offset
    inserted-All P h p = All-append P n.slots (slot ∷ []) h (p, tt)

    page-inserted : length inserted.page ≡ page_size
    unfolding inserted slot
    page-inserted = length-put n.page offset t ∙ v.sized

    pub inserted-IsValid : IsValid inserted
    unfolding inserted slot
    inserted-IsValid = record {
      sized = page-inserted;
      tuples =
          All-append _ n.slots (slot ∷ [])
            (All-mono _ _ n.slots (λ s h. (omega (arith, low_water-inserted, room, h.0), h.1))
              v.tuples)
            ((omega (arith, low_water-inserted), omega (arith, room, v.mark)), tt);
      slots_fit = omega (arith, size-inserted, low_water-inserted, room);
      mark = omega (arith, low_water-inserted, room, v.mark);
    }

    len-inserted : len inserted ≡ length n.slots + 1
    unfolding len
    len-inserted = omega (arith, size-inserted, v.slots_fit, v.mark)

    slot_at : get_elem? inserted.slots (length n.slots) ≡ some slot
    unfolding inserted
    slot_at = get_elem?-append_self n.slots slot

    tuple_at : range inserted.page offset (offset + length t) ≡ some t
    unfolding inserted
    tuple_at =
        let width : offset + length t - offset ≡ length t = omega arith in
        range_lem inserted.page offset (offset + length t) (omega arith)
          (omega (arith, room, v.mark, page-inserted))
        ∙ ap some (
            ap (slice inserted.page offset) width
            ∙ slice-put_self n.page offset t (omega (arith, room, v.mark, v.sized)))

    pub get-inserted_self :
        (r : RId)
        → r.slot_id ≡ length n.slots
        → get inserted r ≡ some (meta, record { rid = r; content = t })
    unfolding get slot
    get-inserted_self r e =
        let at : get_elem? inserted.slots r.slot_id ≡ some slot =
          ap (get_elem? inserted.slots) e ∙ slot_at in
        rw (le→leb r.slot_id (len inserted) (omega (arith, len-inserted)), at, tuple_at)

    pub get-inserted_old : (r : RId) → r.slot_id < length n.slots → get inserted r ≡ get n r
    unfolding get inserted
    get-inserted_old r lt =
        let (s, at, bounds) = get_elem?-All _ n.slots r.slot_id v.tuples lt in
        let at' : get_elem? inserted.slots r.slot_id ≡ some s =
          get_elem?-append_left n.slots (slot ∷ []) r.slot_id lt ∙ at in
        rw (
          le→leb r.slot_id (len inserted) (omega (arith, len-inserted)),
          le→leb r.slot_id (len n) (omega (arith, len-small)),
          at',
          at,
          range-put_after n.page offset t s.offset (s.offset + s.len)
              (omega (arith, room, bounds.0)),
        )

-- A tuple that fits is inserted, as the last slot. It is read back under the new slot's id with its
-- meta data, and the page keeps its shape.
pub get-insert_self :
    (n : Node) (t : List ℕ) (meta : TupleMeta) (r : RId)
    → IsValid n
    → Fits n t
    → r.slot_id ≡ length n.slots
    → (n' : Node) × (insert n t meta ≡ some (some (length n.slots), n'))
      × IsValid n'
      × (get n' r ≡ some (meta, record { rid = r; content = t }))
get-insert_self n t meta r v fits e = (
  inserted n t meta v fits,
  insert-inserted n t meta v fits,
  inserted-IsValid n t meta v fits,
  get-inserted_self n t meta v fits r e,
)

-- The insertion of a tuple that fits leaves every older tuple as it was.
pub get-insert_old :
    (n : Node) (t : List ℕ) (meta : TupleMeta) (r : RId)
    → IsValid n
    → Fits n t
    → r.slot_id < length n.slots
    → (n' : Node) × (insert n t meta ≡ some (some (length n.slots), n')) × (get n' r ≡ get n r)
get-insert_old n t meta r v fits lt = (
  inserted n t meta v fits,
  insert-inserted n t meta v fits,
  get-inserted_old n t meta v fits r lt,
)

-- A tuple no longer than the free part and the slots together, which does not fit, is refused with
-- the node unchanged; for a longer tuple there is `insert_underflow`.
pub insert_refused :
    (n : Node) (t : List ℕ) (meta : TupleMeta)
    → IsValid n
    → ¬ Fits n t
    → length t ≤ low_water n
    → insert n t meta ≡ some (none, n)
unfolding insert next_tuple_offset insert_at
insert_refused n t meta v big le =
    let low : low_water n - length t < header_size + slot_size * (len n + 1) =
      omega (arith, len-small n t meta v) in
    let e : (low_water n + 2 ^ 64 - length t) % 2 ^ 64 ≡ low_water n - length t =
      omega (arith, v.mark) in
    rw (e, lt→ltb (low_water n - length t) (header_size + slot_size * (len n + 1)) low)

-- A tuple that is longer than all that lies below the tuples of a valid page, and shorter than 2^63 bytes, is
-- not refused, so that the caller never gets to try a new page: the subtraction wraps to an offset that passes
-- the test, and the write to that offset leaves the page.
pub insert_underflow :
    (n : Node) (t : List ℕ) (meta : TupleMeta)
    → IsValid n
    → low_water n < length t
    → length t < 2 ^ 63
    → (next_tuple_offset n t ≡ some (low_water n + 2 ^ 64 - length t)) × (insert n t meta ≡ none)
unfolding insert next_tuple_offset insert_at add_tuple copy_from_slice
insert_underflow n t meta v longer small =
    let at : ℕ = low_water n + 2 ^ 64 - length t in
    let wrapped : at % 2 ^ 64 ≡ at = omega arith in
    let passes : ltb at (header_size + slot_size * (len n + 1)) ≡ false =
      not-lt→ltb at (header_size + slot_size * (len n + 1))
        (λ q. absurd (omega (arith, len-small n t meta v, v.slots_fit, v.mark))) in
    let outside : leb (at + length t) (length n.page) ≡ false =
      not-le→leb (at + length t) (length n.page) (omega (arith, v.sized, v.mark)) in
    let ahead : leb at (at + length t) ≡ true = le→leb at (at + length t) (omega arith) in
    (rw (wrapped, passes), rw (wrapped, passes, ahead, outside))
