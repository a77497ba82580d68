-- ===== src/Table/Slot/Laws.antt =====
-- Slots and record ids as bytes.
use dbstorage.Base.{
  ℕ, ◌^◌, ◌<◌, ◌≡◌, refl, ap, sym, ◌∙◌, Bool, true, false, some, List, [], ◌∷◌, ◌++◌, arith, length,
  slice, put, range, copy_from_slice_lem, range_lem, length-put, slice-put_self, range-put_before,
  length-append, replicate, All-append, slice-append_left, slice-append_right,
}
use dbstorage.Base.Panic.{◌>>=◌}
use dbstorage.Bytes.Words.{
  to_be_bytes, from_be_bytes, length-to_be_bytes, to_be_bytes-IsBytes, from_be_bytes-to_be_bytes,
}
use dbstorage.Bytes.Signed.{IsI32, i32_bits, i32_of_bits, i32_bits-lt, i32_of_bits-i32_bits}
use dbstorage.Storable.Laws.{IsLawful}
use dbstorage.Table.Slot.{
  Slot, slot_from, slot_bytes, meta_from, bool_byte, slot_size, rid, rid_from_bytes, rid_into_bytes,
}

pub record IsValid (s : Slot) : Type 0 where
  pub offset_word : s.offset < 2 ^ 32
  pub len_word : s.len < 2 ^ 32

never_deleted : (b : Bool) → meta_from (bool_byte b ∷ []) ≡ some (record { deleted = false })
unfolding meta_from range slice from_be_bytes
never_deleted true = refl
never_deleted false = refl

module _ (s : Slot) (v : IsValid s) where
  offset_bytes : List ℕ
  offset_bytes = to_be_bytes 4 s.offset

  len_bytes : List ℕ
  len_bytes = to_be_bytes 4 s.len

  blank : List ℕ
  blank = replicate slot_size 0

  b₁ : List ℕ
  b₁ = put blank 0 offset_bytes

  b₂ : List ℕ
  b₂ = put b₁ 4 len_bytes

  b₃ : List ℕ
  b₃ = put b₂ 8 (bool_byte s.meta.deleted ∷ [])

  sizes :
      (length offset_bytes ≡ 4)
      × (length len_bytes ≡ 4)
      × (length blank ≡ 9)
      × (length b₁ ≡ 9)
      × (length b₂ ≡ 9)
      × (length b₃ ≡ 9)
  unfolding offset_bytes len_bytes blank b₁ b₂ b₃
  sizes =
      let one = length-put blank 0 offset_bytes in
      let two = length-put b₁ 4 len_bytes in
      let three = length-put b₂ 8 (bool_byte s.meta.deleted ∷ []) in
      (
        length-to_be_bytes 4 s.offset,
        length-to_be_bytes 4 s.len,
        refl,
        one,
        two ∙ one,
        three ∙ two ∙ one,
      )

  pub slot_image : List ℕ
  slot_image = b₃

  pub length-slot_image : length slot_image ≡ slot_size
  unfolding slot_image
  length-slot_image = sizes.5

  pub slot_bytes-image : slot_bytes s ≡ some slot_image
  unfolding slot_bytes slot_image b₃ b₂ b₁ blank offset_bytes len_bytes
  slot_bytes-image =
      rw
        (
          copy_from_slice_lem blank 0 4 offset_bytes (omega (arith, sizes)) (omega (arith, sizes)),
          copy_from_slice_lem b₁ 4 8 len_bytes (omega (arith, sizes)) (omega (arith, sizes)),
        )
        (copy_from_slice_lem b₂ 8 slot_size (bool_byte s.meta.deleted ∷ []) (omega arith)
          (omega (arith, sizes)))

  offset-image : range slot_image 0 4 ≡ some offset_bytes
  unfolding slot_image b₃ b₂ b₁
  offset-image =
      range-put_before b₂ 8 (bool_byte s.meta.deleted ∷ []) 0 4 (omega arith) (omega arith)
      ∙ range-put_before b₁ 4 len_bytes 0 4 (omega arith) (omega arith)
      ∙ range_lem b₁ 0 4 (omega arith) (omega (arith, sizes))
      ∙ (rw (← sizes.0) (ap some (slice-put_self blank 0 offset_bytes (omega (arith, sizes)))))

  len-image : range slot_image 4 8 ≡ some len_bytes
  unfolding slot_image b₃ b₂
  len-image =
      range-put_before b₂ 8 (bool_byte s.meta.deleted ∷ []) 4 8 (omega arith) (omega arith)
      ∙ range_lem b₂ 4 8 (omega arith) (omega (arith, sizes))
      ∙ ap some
          (ap (slice b₂ 4) (sym sizes.1) ∙ slice-put_self b₁ 4 len_bytes (omega (arith, sizes)))

  flag-image : range slot_image 8 slot_size ≡ some (bool_byte s.meta.deleted ∷ [])
  unfolding slot_image b₃
  flag-image =
      range_lem slot_image 8 slot_size (omega arith) (omega (arith, sizes))
      ∙ ap some (slice-put_self b₂ 8 (bool_byte s.meta.deleted ∷ []) (omega (arith, sizes)))

-- A slot that is written and read back has its offset and its length. Its deletion mark is gone: `true`
-- is written as 1, and only a byte above 1 is read as `true`.
pub slot_from-slot_bytes :
    (s : Slot)
    → IsValid s
    → (slot_bytes s >>= slot_from) ≡ some (record s { meta = record { deleted = false } })
unfolding slot_from offset_bytes len_bytes
slot_from-slot_bytes s v = rw (
  slot_bytes-image s v,
  offset-image s v,
  len-image s v,
  flag-image s v,
  never_deleted s.meta.deleted,
  from_be_bytes-to_be_bytes 4 s.offset v.offset_word,
  from_be_bytes-to_be_bytes 4 s.len v.len_word,
)

rid_lem :
    (a b : List ℕ)
    → length a ≡ 4
    → length b ≡ 4
    → rid_from_bytes (a ++ b)
      ≡ some (record { page_id = i32_of_bits (from_be_bytes a); slot_id = from_be_bytes b })
unfolding rid_from_bytes
rid_lem a b p q = rw (
  range_lem (a ++ b) 0 4 (omega arith) (omega (arith, length-append a b)),
  range_lem (a ++ b) 4 8 (omega arith) (omega (arith, length-append a b)),
  ap (slice (a ++ b) 0) (sym p) ∙ slice-append_left a b,
  ap (λ n. slice (a ++ b) n 4) (sym p)
      ∙ ap (slice (a ++ b) (length a)) (sym q)
      ∙ slice-append_right a b,
)

pub rid-IsLawful : IsLawful rid (λ r. IsI32 r.page_id × (r.slot_id < 2 ^ 32))
unfolding rid rid_into_bytes
rid-IsLawful = record {
  sized = λ r. omega (
    arith,
    length-append (to_be_bytes 4 (i32_bits r.page_id)) (to_be_bytes 4 r.slot_id),
    length-to_be_bytes 4 (i32_bits r.page_id),
    length-to_be_bytes 4 r.slot_id,
  );
  bytes = λ r.
      All-append _ (to_be_bytes 4 (i32_bits r.page_id)) (to_be_bytes 4 r.slot_id)
        (to_be_bytes-IsBytes 4 (i32_bits r.page_id)) (to_be_bytes-IsBytes 4 r.slot_id);
  inverse = λ r h.
      rid_lem (to_be_bytes 4 (i32_bits r.page_id)) (to_be_bytes 4 r.slot_id)
        (length-to_be_bytes 4 (i32_bits r.page_id)) (length-to_be_bytes 4 r.slot_id)
      ∙ (rw (
        from_be_bytes-to_be_bytes 4 (i32_bits r.page_id) (i32_bits-lt r.page_id h.0),
        i32_of_bits-i32_bits r.page_id h.0,
        from_be_bytes-to_be_bytes 4 r.slot_id h.1,
      ));
}
