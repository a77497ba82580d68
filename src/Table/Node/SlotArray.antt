-- ===== src/Table/Node/SlotArray.antt =====
-- src/table/node.rs: the slots of a page of tuples are written and read back.
use mathlib.Core.List.{append_assoc}
use dbstorage.Base.{
  ℕ, suc, ◌+◌, ◌-◌, ◌*◌, ◌^◌, ◌≤◌, ◌<◌, ◌≡◌, refl, sym, ap, ◌∙◌, false, some, none, List, [], ◌∷◌,
  ◌++◌, arith, length, length-append, drop, length-drop, length-put, range-append_middle,
  copy_from_slice, copy_from_slice_inv, copy-append, replicate, All, last,
}
use dbstorage.Base.Panic.{>>=-eq-some}
use dbstorage.Bytes.Words.{to_be_bytes}
use dbstorage.Table.Slot.{Slot, slot_size, slot_bytes, slot_from}
use dbstorage.Table.Slot.Laws
use dbstorage.Table.Slot.Laws.{slot_from-slot_bytes}
use dbstorage.Table.Node.{write_slots, read_slots}

length-slot_bytes : (s : Slot) {b : List ℕ} → slot_bytes s ≡ some b → length b ≡ slot_size
unfolding slot_bytes
length-slot_bytes s h =
    let blank : List ℕ = replicate slot_size 0 in
    let (b₁, e₁, h₁) = >>=-eq-some (copy_from_slice blank 0 4 (to_be_bytes 4 s.offset)) _ h in
    let (b₂, e₂, h₂) = >>=-eq-some (copy_from_slice b₁ 4 8 (to_be_bytes 4 s.len)) _ h₁ in
    let (_, _, p₁) = copy_from_slice_inv blank 0 4 _ e₁ in
    let (_, _, p₂) = copy_from_slice_inv b₁ 4 8 _ e₂ in
    let (_, _, p₃) = copy_from_slice_inv b₂ 8 slot_size _ h₂ in
    ap length p₃
    ∙ length-put b₂ 8 _
    ∙ ap length p₂
    ∙ length-put b₁ 4 _
    ∙ ap length p₁
    ∙ length-put blank 0 _

-- A slot that keeps its place on the page and its mark.
abbrev pub Plain : Slot → Type 0
Plain s = (s.offset < 2 ^ 32) × (s.len < 2 ^ 32) × (s.meta.deleted ≡ false)

slot_back :
    (s : Slot)
    → Plain s
    → (b : List ℕ) × (slot_bytes s ≡ some b) × (length b ≡ slot_size) × (slot_from b ≡ some s)
slot_back s (o, l, live) =
    let v : Laws.IsValid s = record { offset_word = o; len_word = l } in
    let (b, e, q) = >>=-eq-some (slot_bytes s) _ (slot_from-slot_bytes s v) in
    (
      b,
      e,
      length-slot_bytes s e,
      q ∙ ap (λ x. some (record s { meta = record { deleted = x } })) (sym live),
    )

-- The slots behind a first part of the page, and read from it again.
pub slots_back :
    (slots : List Slot) (xs ys : List ℕ)
    → All Plain slots
    → slot_size * length slots ≤ length ys
    → (img : List ℕ) × (left : List ℕ) × (write_slots (xs ++ ys) (length xs) slots
        ≡ some (xs ++ (img ++ left)))
      × (length img ≡ slot_size * length slots)
      × (length left + length img ≡ length ys)
      × ((zs ws : List ℕ) → read_slots (zs ++ (img ++ ws)) (length zs) (length slots) ≡ some slots)
unfolding write_slots read_slots
slots_back [] xs ys ok room = ([], ys, refl, omega arith, omega arith, λ zs ws. refl)
slots_back (s ∷ slots) xs ys ok room =
    let (b, wrote, wide, back) = slot_back s ok.0 in
    let rest : List ℕ = drop (length b) ys in
    let short : length rest ≡ length ys - length b = length-drop (length b) ys in
    let (img, left, more, size, both, again) = slots_back slots (xs ++ b) rest ok.1 (omega arith) in
    let at : length (xs ++ b) ≡ length xs + slot_size = omega (arith, length-append xs b) in
    (
      b ++ img,
      left,
      rw
          (
            wrote,
            copy-append xs ys b (length xs) (length xs + slot_size) refl (omega arith)
                (omega arith),
          )
          (ap (λ l. write_slots l (length xs + slot_size) slots) (sym (append_assoc xs b rest))
            ∙ ap (λ m. write_slots ((xs ++ b) ++ rest) m slots) (sym at)
            ∙ more
            ∙ ap some
                (append_assoc xs b (img ++ left) ∙ ap (◌++◌ xs) (sym (append_assoc b img left)))),
      omega (arith, length-append b img),
      omega (arith, length-append b img),
      λ zs ws.
          let whole : zs ++ ((b ++ img) ++ ws) ≡ zs ++ (b ++ (img ++ ws)) =
            ap (◌++◌ zs) (append_assoc b img ws) in
          let behind : length (zs ++ b) ≡ length zs + slot_size =
            omega (arith, length-append zs b) in
          let others : read_slots (zs ++ (b ++ (img ++ ws))) (length zs + slot_size) (length slots)
              ≡ some slots =
            ap (λ l. read_slots l (length zs + slot_size) (length slots))
              (sym (append_assoc zs b (img ++ ws)))
            ∙ ap (λ m. read_slots ((zs ++ b) ++ (img ++ ws)) m (length slots)) (sym behind)
            ∙ again (zs ++ b) ws in
          ap (λ l. read_slots l (length zs) (suc (length slots))) whole
          ∙ (rw
              (
                range-append_middle zs b (img ++ ws) (length zs) (length zs + slot_size) refl
                    (omega arith),
                back,
                others,
              )
              refl),
    )

pub no_last : (xs : List Slot) → last xs ≡ none → length xs ≡ 0
unfolding last
no_last [] h = refl
no_last (x ∷ []) h = cc
no_last (x ∷ y ∷ xs) h = absurd (omega (arith, no_last (y ∷ xs) h))

pub nonempty_of_last : (xs : List Slot) {s : Slot} → last xs ≡ some s → 0 < length xs
unfolding last
nonempty_of_last [] h = cc
nonempty_of_last (x ∷ xs) h = omega arith
