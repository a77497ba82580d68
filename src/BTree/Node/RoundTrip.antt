-- ===== src/BTree/Node/RoundTrip.antt =====
-- src/btree/node.rs: a node is read back from the page that is written for it.
use mathlib.Core.List.{append_assoc}
use dbstorage.Base.{
  copy-append, drop-append, ℕ, ◌+◌, ◌-◌, ◌≤◌, ◌<◌, ◌≡◌, ◌%◌, ◌^◌, refl, sym, ap, ◌∙◌, Bool, true,
  false, not, ltb, some, List, [], ◌∷◌, ◌++◌, arith, length, length-append, drop, length-drop,
  range, put, copy_from_slice, range-append_middle, replicate, length-replicate, All,
}
use dbstorage.Base.Panic.{◌>>=◌}
use dbstorage.Bytes.Words.{
  to_be_bytes, from_be_bytes, length-to_be_bytes, from_be_bytes-to_be_bytes,
}
use dbstorage.Bytes.Signed.{IsI32, i32_bits}
use dbstorage.Page.{PageBuf, page_size}
use dbstorage.Storable.{Storable, i32}
use dbstorage.Storable.Laws.{i32-IsLawful}
use dbstorage.BTree.Slot.{Slot}
use dbstorage.BTree.Slot.Laws.{put-nil}
use dbstorage.BTree.Node.{NodeType, internal, leaf, Node, node_type_from, node_type_byte}
use dbstorage.BTree.Node.Image.{
  KeyCodec, values_start, is_zeros, bool_byte, write_header, to_page, from_page,
}
use dbstorage.BTree.Node.Written.{
  Readable, total_size, Encodes, encoded, write_slots-Encodes, read_slots-Encodes,
}

node_type_from-node_type_byte : (t : NodeType) → node_type_from (node_type_byte t) ≡ some t
unfolding node_type_from node_type_byte
node_type_from-node_type_byte internal = refl
node_type_from-node_type_byte leaf = refl

flag_read : (b : Bool) → ltb 0 (bool_byte b) ≡ b
flag_read true = refl
flag_read false = refl

nonzero : (t : NodeType) (more : List ℕ) → not (is_zeros (node_type_byte t ∷ more)) ≡ true
unfolding is_zeros node_type_byte
nonzero internal more = refl
nonzero leaf more = refl

-- Three writes of four bytes, one behind the other.
three_copies :
    (x y : ℕ) (a b c rest : List ℕ)
    → length a ≡ 4
    → length b ≡ 4
    → length c ≡ 4
    → 12 ≤ length rest
    → (left : List ℕ) × ((copy_from_slice (x ∷ y ∷ rest) 2 6 a >>= λ r.
          copy_from_slice r 6 10 b >>= λ r'. copy_from_slice r' 10 14 c)
        ≡ some ((x ∷ y ∷ (a ++ (b ++ c))) ++ left))
      × (length left + 12 ≡ length rest)
three_copies x y a b c rest la lb lc long =
    let r₁ : List ℕ = drop (length a) rest in
    let l₁ : length r₁ ≡ length rest - length a = length-drop (length a) rest in
    let r₂ : List ℕ = drop (length b) r₁ in
    let l₂ : length r₂ ≡ length r₁ - length b = length-drop (length b) r₁ in
    let r₃ : List ℕ = drop (length c) r₂ in
    let l₃ : length r₃ ≡ length r₂ - length c = length-drop (length c) r₂ in
    let p₁ : copy_from_slice (x ∷ y ∷ rest) 2 6 a ≡ some (x ∷ y ∷ (a ++ r₁)) =
      copy-append (x ∷ y ∷ []) rest a 2 6 refl (omega arith) (omega arith) in
    let p₂ : copy_from_slice (x ∷ y ∷ (a ++ r₁)) 6 10 b ≡ some (x ∷ y ∷ (a ++ (b ++ r₂))) =
      copy-append (x ∷ y ∷ a) r₁ b 6 10 (omega arith) (omega arith) (omega arith) in
    let p₃ : copy_from_slice (x ∷ y ∷ ((a ++ b) ++ r₂)) 10 14 c
        ≡ some (x ∷ y ∷ ((a ++ b) ++ (c ++ r₃))) =
      copy-append (x ∷ y ∷ (a ++ b)) r₂ c 10 14 (omega (arith, length-append a b)) (omega arith)
        (omega arith) in
    let shape : (a ++ b) ++ (c ++ r₃) ≡ (a ++ (b ++ c)) ++ r₃ =
      sym (append_assoc (a ++ b) c r₃) ∙ ap (λ l. l ++ r₃) (append_assoc a b c) in
    (
      r₃,
      rw (p₁, p₂)
          (ap (λ l. copy_from_slice (x ∷ y ∷ l) 10 14 c) (sym (append_assoc a b r₂))
            ∙ p₃
            ∙ ap (λ l. some (x ∷ y ∷ l)) shape),
      omega arith,
    )

module _ {T V : Type 0} (keys : KeyCodec T) (vs : Storable V) (n : Node T V) where
  count : List ℕ
  count = to_be_bytes 4 (length n.values % 2 ^ 32)

  next_bytes : List ℕ
  next_bytes = to_be_bytes 4 (i32_bits n.next)

  id_bytes : List ℕ
  id_bytes = to_be_bytes 4 (i32_bits n.id)

  -- The fields before the entries.
  header : List ℕ
  header = node_type_byte n.t ∷ bool_byte n.is_root ∷ (count ++ (next_bytes ++ id_bytes))

  widths :
      (length count ≡ 4) × (length next_bytes ≡ 4) × (length id_bytes ≡ 4) × (length header ≡ 14)
  unfolding count next_bytes id_bytes header
  widths =
      let a = length-to_be_bytes 4 (length n.values % 2 ^ 32) in
      let b = length-to_be_bytes 4 (i32_bits n.next) in
      let c = length-to_be_bytes 4 (i32_bits n.id) in
      (
        a,
        b,
        c,
        omega (
          arith,
          length-append count (next_bytes ++ id_bytes),
          length-append next_bytes id_bytes,
        ),
      )

  write_header_lem :
      (rest : List ℕ)
      → 12 ≤ length rest
      → (left : List ℕ) × (write_header keys vs n (0 ∷ 0 ∷ rest) ≡ some (header ++ left))
        × (length left + 12 ≡ length rest)
  unfolding write_header header put count next_bytes id_bytes
  write_header_lem rest long =
      let t : ℕ = node_type_byte n.t in
      let b : ℕ = bool_byte n.is_root in
      let (left, e, size) =
        three_copies t b count next_bytes id_bytes rest widths.0 widths.1 widths.2 long in
      (left, rw (put-nil rest) e, size)

  count_read : length n.values < 2 ^ 32 → from_be_bytes count ≡ length n.values
  unfolding count
  count_read few =
      let small : length n.values % 2 ^ 32 ≡ length n.values = omega arith in
      rw small (from_be_bytes-to_be_bytes 4 (length n.values) (omega arith))

  -- Reading the page that starts with those fields and the bytes of the entries.
  from_page_lem :
      (img left : List ℕ)
      → All (Readable keys vs) n.values
      → Encodes keys vs n.values img
      → length n.values < 2 ^ 32
      → IsI32 n.next
      → IsI32 n.id
      → from_page keys vs (header ++ (img ++ left)) ≡ some n
  unfolding from_page header i32 node_type_from node_type_byte next_bytes id_bytes
  from_page_lem img left ok enc few next_ok id_ok =
      let x : ℕ = node_type_byte n.t in
      let y : ℕ = bool_byte n.is_root in
      let z : List ℕ = img ++ left in
      let shape : header ++ z ≡ x ∷ y ∷ (count ++ (next_bytes ++ (id_bytes ++ z))) =
        ap (λ l. x ∷ y ∷ l)
          (append_assoc count (next_bytes ++ id_bytes) z
            ∙ ap (◌++◌ count) (append_assoc next_bytes id_bytes z)) in
      let len : range (header ++ z) 2 6 ≡ some count =
        ap (λ l. range l 2 6) shape
        ∙ range-append_middle (x ∷ y ∷ []) count (next_bytes ++ (id_bytes ++ z)) 2 6 refl
            (omega (arith, widths)) in
      let next : range (header ++ z) 6 10 ≡ some next_bytes =
        ap (λ l. range l 6 10) shape
        ∙ range-append_middle (x ∷ y ∷ count) next_bytes (id_bytes ++ z) 6 10
            (omega (arith, widths)) (omega (arith, widths)) in
      let id : range (header ++ z) 10 14 ≡ some id_bytes =
        ap (λ l. range l 10 14)
          (shape ∙ ap (λ l. x ∷ y ∷ l) (sym (append_assoc count next_bytes (id_bytes ++ z))))
        ∙ range-append_middle (x ∷ y ∷ (count ++ next_bytes)) id_bytes z 10 14
            (omega (arith, widths, length-append count next_bytes)) (omega (arith, widths)) in
      let slots : drop values_start (header ++ z) ≡ z =
        ap (λ m. drop m (header ++ z)) (sym widths.3) ∙ drop-append header z in
      rw
        (
          len,
          next,
          i32-IsLawful.inverse n.next next_ok,
          id,
          i32-IsLawful.inverse n.id id_ok,
          slots,
          count_read few,
          node_type_from-node_type_byte n.t,
          read_slots-Encodes keys vs n.values img left ok enc,
          flag_read n.is_root,
        )
        refl

  length-total_size : (slots : List (Slot T V)) → length slots ≤ total_size keys vs slots
  length-total_size [] = omega arith
  length-total_size (s ∷ slots) = omega (arith, length-total_size slots)

  -- A node that fits in a page, whose pointers are `i32`s and whose entries are read back from their bytes, is
  -- written without a panic, to a page of the right size, and is read back from it without a change.
  pub from_page-to_page_node :
      All (Readable keys vs) n.values
      → values_start + total_size keys vs n.values ≤ page_size
      → IsI32 n.next
      → IsI32 n.id
      → (page : PageBuf) × (to_page keys vs n ≡ some page)
        × (length page ≡ page_size)
        × (from_page keys vs page ≡ some n)
  unfolding to_page header
  from_page-to_page_node ok fits next_ok id_ok =
      let (img, enc, size) = encoded keys vs n.values ok in
      let blank : List ℕ = replicate 4094 0 in
      let zeros : length blank ≡ 4094 = length-replicate {A = ℕ} 4094 0 in
      let (room, head, width) = write_header_lem blank (omega (arith, zeros)) in
      let (left, slots, rest) =
        write_slots-Encodes keys vs n.values img header room values_start enc (sym widths.3)
          (omega (arith, zeros)) in
      let few = length-total_size n.values in
      (
        header ++ (img ++ left),
        rw (head, slots, nonzero n.t _) refl,
        omega (arith, zeros, widths, length-append header (img ++ left), length-append img left),
        from_page_lem img left ok enc (omega arith) next_ok id_ok,
      )
