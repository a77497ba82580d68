-- ===== src/Table/Node/RoundTrip.antt =====
-- src/table/node.rs: a page of tuples is written and read back.
use mathlib.Core.List.{append_assoc}
use dbstorage.Base.{
  ℕ, ◌+◌, ◌-◌, ◌*◌, ◌%◌, ◌^◌, ◌≤◌, ◌<◌, ◌≡◌, refl, sym, ap, ◌∙◌, Option, some, none, List, [], ◌++◌,
  arith, length, length-append, drop, length-drop, put, put-append_right, slice, slice-slice,
  slice-put_inside, length-put, length-slice, range, range_lem, range-append_before,
  range-append_middle, range-append_end, copy_from_slice, copy_from_slice_lem, copy-append, All,
  last, get_elem?-All, lt→ltb,
}
use dbstorage.Bytes.Words.{to_be_bytes, length-to_be_bytes, from_be_bytes-to_be_bytes}
use dbstorage.Bytes.Signed.{IsI32, i32_bits, i32_bits-lt, i32_of_bits-i32_bits}
use dbstorage.Page.{PageBuf, page_size, zeroed, length-zeroed}
use dbstorage.Table.Slot.{Slot, slot_size, RId}
use dbstorage.Table.Node.{
  Node, header_size, write_slots, read_slots, copy_tuples, to_page, from_page, low_water,
  offset_or_end, get, len,
}
use dbstorage.Table.Node.Laws.{IsValid}
use dbstorage.Table.Node.SlotArray.{Plain, slots_back, no_last, nonempty_of_last}

module _ (n : Node) (v : IsValid n) (plain : All Plain n.slots) (next_ok : IsI32 n.next_page_id)
    (small : n.deleted_tuples_len < 2 ^ 32) where
  next_bytes : List ℕ
  next_bytes = to_be_bytes 4 (i32_bits n.next_page_id)

  count : List ℕ
  count = to_be_bytes 4 (length n.slots % 2 ^ 32)

  deleted : List ℕ
  deleted = to_be_bytes 4 n.deleted_tuples_len

  -- The fields before the slots.
  header : List ℕ
  header = next_bytes ++ (count ++ deleted)

  widths :
      (length next_bytes ≡ 4) × (length count ≡ 4) × (length deleted ≡ 4) × (length header ≡ 12)
  unfolding next_bytes count deleted header
  widths =
      let a = length-to_be_bytes 4 (i32_bits n.next_page_id) in
      let b = length-to_be_bytes 4 (length n.slots % 2 ^ 32) in
      let c = length-to_be_bytes 4 n.deleted_tuples_len in
      (
        a,
        b,
        c,
        omega (arith, length-append next_bytes (count ++ deleted), length-append count deleted),
      )

  header_written :
      (b₁ : PageBuf) × (b₂ : PageBuf) × (left : List ℕ) × (copy_from_slice zeroed 0 4 next_bytes
        ≡ some b₁)
      × (copy_from_slice b₁ 4 8 count ≡ some b₂)
      × (copy_from_slice b₂ 8 header_size deleted ≡ some (header ++ left))
      × (length left ≡ 4084)
  unfolding header
  header_written =
      let l₀ : length zeroed ≡ 4096 = length-zeroed in
      let (w, x, y, z) = widths in
      let r₁ : List ℕ = drop (length next_bytes) zeroed in
      let l₁ : length r₁ ≡ length zeroed - length next_bytes =
        length-drop (length next_bytes) zeroed in
      let r₂ : List ℕ = drop (length count) r₁ in
      let l₂ : length r₂ ≡ length r₁ - length count = length-drop (length count) r₁ in
      let r₃ : List ℕ = drop (length deleted) r₂ in
      let l₃ : length r₃ ≡ length r₂ - length deleted = length-drop (length deleted) r₂ in
      let p₁ : copy_from_slice zeroed 0 4 next_bytes ≡ some (next_bytes ++ r₁) =
        copy-append [] zeroed next_bytes 0 4 refl (omega arith) (omega arith) in
      let p₂ : copy_from_slice (next_bytes ++ r₁) 4 8 count ≡ some (next_bytes ++ (count ++ r₂)) =
        copy-append next_bytes r₁ count 4 8 (omega arith) (omega arith) (omega arith) in
      let p₃ : copy_from_slice ((next_bytes ++ count) ++ r₂) 8 header_size deleted
          ≡ some ((next_bytes ++ count) ++ (deleted ++ r₃)) =
        copy-append (next_bytes ++ count) r₂ deleted 8 header_size
          (omega (arith, length-append next_bytes count)) (omega arith) (omega arith) in
      (
        next_bytes ++ r₁,
        (next_bytes ++ count) ++ r₂,
        r₃,
        p₁,
        p₂ ∙ ap some (sym (append_assoc next_bytes count r₂)),
        p₃
            ∙ ap some (
                append_assoc next_bytes count (deleted ++ r₃)
                ∙ ap (◌++◌ next_bytes) (sym (append_assoc count deleted r₃))
                ∙ sym (append_assoc next_bytes (count ++ deleted) r₃)),
        omega arith,
      )

  header_read :
      (rest : List ℕ)
      → (range (header ++ rest) 0 4 ≡ some next_bytes)
        × (range (header ++ rest) 4 8 ≡ some count)
        × (range (header ++ rest) 8 header_size ≡ some deleted)
        × (range (header ++ rest) header_size (length (header ++ rest)) ≡ some rest)
  unfolding header
  header_read rest =
      let (w, x, y, z) = widths in
      (
        range-append_before header rest 0 4 (omega arith) (omega arith)
            ∙ range-append_middle [] next_bytes (count ++ deleted) 0 4 refl (omega arith),
        range-append_before header rest 4 8 (omega arith) (omega arith)
            ∙ range-append_middle next_bytes count deleted 4 8 (omega arith) (omega arith),
        range-append_before header rest 8 header_size (omega arith) (omega arith)
            ∙ ap (λ l. range l 8 header_size) (sym (append_assoc next_bytes count deleted))
            ∙ range-append_end (next_bytes ++ count) deleted 8 header_size
                (omega (arith, length-append next_bytes count)) (omega arith),
        range-append_end header rest header_size (length (header ++ rest)) (sym z)
            (length-append header rest ∙ omega arith),
      )

  -- A page that begins with the header and the bytes of the slots is read as the node.
  from_page_lem :
      (img left : List ℕ)
      → ((zs ws : List ℕ)
          → read_slots (zs ++ (img ++ ws)) (length zs) (length n.slots) ≡ some n.slots)
      → from_page (header ++ (img ++ left)) ≡ some (record n { page = header ++ (img ++ left) })
  unfolding from_page next_bytes count deleted
  from_page_lem img left again =
      let (a, b, c, d) = header_read (img ++ left) in
      let few : length n.slots % 2 ^ 32 ≡ length n.slots = omega (arith, v.slots_fit, v.mark) in
      rw
        (
          a,
          b,
          c,
          d,
          from_be_bytes-to_be_bytes 4 (i32_bits n.next_page_id)
              (i32_bits-lt n.next_page_id next_ok),
          i32_of_bits-i32_bits n.next_page_id next_ok,
          from_be_bytes-to_be_bytes 4 n.deleted_tuples_len small,
          from_be_bytes-to_be_bytes 4 (length n.slots % 2 ^ 32) (omega arith),
          few,
          again [] left,
        )
        refl

  -- What is kept of the tuples: all from the last slot's offset on.
  Kept : PageBuf → Type 0
  Kept image = (a l : ℕ) → low_water n ≤ a → a + l ≤ page_size → slice image a l ≡ slice n.page a l

  tuples_copied :
      (img left : List ℕ) (o : Option Slot)
      → last n.slots ≡ o
      → (0 < length n.slots → low_water n < page_size)
      → length img ≡ slot_size * length n.slots
      → length (header ++ (img ++ left)) ≡ page_size
      → (left' : List ℕ) × (copy_tuples n.page (header ++ (img ++ left)) o
          ≡ some (header ++ (img ++ left')))
        × (length (header ++ (img ++ left')) ≡ page_size)
        × (0 < length n.slots → Kept (header ++ (img ++ left')))
  unfolding copy_tuples Kept low_water
  tuples_copied img left none e below size whole =
      (left, refl, whole, λ h. absurd (omega (arith, no_last n.slots e)))
  tuples_copied img left (some s) e below size whole =
      let w : ℕ = s.offset in
      let mark : low_water n ≡ w = ap offset_or_end e in
      let some_slot = nonempty_of_last n.slots e in
      let low = below some_slot in
      let tuples : List ℕ = slice n.page w (page_size - w) in
      let t : length tuples ≡ page_size - w =
        length-slice n.page w (page_size - w) (omega (arith, v.sized)) in
      let (_, _, _, twelve) = widths in
      let before : List ℕ = header ++ (img ++ left) in
      let p : ℕ = w - (length header + length img) in
      let split : w ≡ length header + (length img + p) = omega (arith, v.slots_fit) in
      let image : put before w tuples ≡ header ++ (img ++ put left p tuples) =
        ap (λ q. put before q tuples) split
        ∙ put-append_right header (img ++ left) (length img + p) tuples
        ∙ ap (◌++◌ header) (put-append_right img left p tuples) in
      (
        put left p tuples,
        rw
            (
              lt→ltb w page_size (omega arith),
              range_lem n.page w page_size (omega arith) (omega (arith, v.sized)),
              copy_from_slice_lem before w page_size tuples (omega arith) (omega arith),
            )
            (ap some image),
        ap length (sym image) ∙ length-put before w tuples ∙ whole,
        λ _ a l high end.
            let d : ℕ = a - w in
            let there : a ≡ w + d = omega arith in
            ap (λ f. slice f a l) (sym image)
            ∙ ap (λ q. slice (put before w tuples) q l) there
            ∙ slice-put_inside before w tuples d l (omega arith) (omega arith)
            ∙ slice-slice n.page w (page_size - w) d l (omega arith)
            ∙ ap (λ q. slice n.page q l) (sym there),
      )

  get-Kept :
      (image : PageBuf) (r : RId)
      → length image ≡ page_size
      → Kept image
      → r.slot_id < length n.slots
      → get (record n { page = image }) r ≡ get n r
  unfolding get len Kept
  get-Kept image r size kept lt =
      let few : length n.slots % 2 ^ 32 ≡ length n.slots = omega (arith, v.slots_fit, v.mark) in
      let (s, at, bounds) = get_elem?-All _ n.slots r.slot_id v.tuples lt in
      let width : s.offset + s.len - s.offset ≡ s.len = omega arith in
      let same : range image s.offset (s.offset + s.len)
          ≡ range n.page s.offset (s.offset + s.len) =
        range_lem image s.offset (s.offset + s.len) (omega arith) (omega (arith, bounds.1))
        ∙ ap some (kept s.offset (s.offset + s.len - s.offset) bounds.0 (omega (arith, bounds.1)))
        ∙ sym (
            range_lem n.page s.offset (s.offset + s.len) (omega arith)
              (omega (arith, bounds.1, v.sized))) in
      rw (at, same) refl

  -- A well-formed page of which no slot is marked as deleted, with its numbers in range and some byte of
  -- tuples if it has a slot, is written without a panic, to a page of the right size, and is read back with
  -- the same fields, and every tuple of it as before.
  pub from_page-to_page_table :
      (0 < length n.slots → low_water n < page_size)
      → (image : PageBuf) × (to_page n ≡ some image)
        × (length image ≡ page_size)
        × (from_page image ≡ some (record n { page = image }))
        × ((r : RId) → r.slot_id < length n.slots → get (record n { page = image }) r ≡ get n r)
  unfolding to_page next_bytes count deleted
  from_page-to_page_table below =
      let (b₁, b₂, rest, head₁, head₂, head₃, room) = header_written in
      let (_, _, _, twelve) = widths in
      let (img, left, slots, size, both, again) =
        slots_back n.slots header rest plain (omega (arith, v.slots_fit, v.mark)) in
      let slots' : write_slots (header ++ rest) header_size n.slots
          ≡ some (header ++ (img ++ left)) =
        ap (λ q. write_slots (header ++ rest) q n.slots) (sym twelve) ∙ slots in
      let (left', copied, whole, kept) =
        tuples_copied img left (last n.slots) refl below size
          (omega (arith, length-append header (img ++ left), length-append img left)) in
      (
        header ++ (img ++ left'),
        rw (head₁, head₂, head₃, slots') copied,
        whole,
        from_page_lem img left' again,
        λ r lt. get-Kept (header ++ (img ++ left')) r whole (kept (omega arith)) lt,
      )
