-- ===== src/HashTable/Directory/Laws.antt =====
-- Page ids in the directory, and the directory on its page.
use dbstorage.Base.{
  ℕ, ◌+◌, ◌-◌, ◌*◌, ◌^◌, ◌<◌, ◌≡◌, ◌≢◌, refl, ap, ◌∙◌, ◌⊎◌, inl, inr, List, some, arith, length,
  slice, put, range, copy_from_slice_lem, range_lem, length-put, slice-put_self, slice-put_within,
  range-put_before, range-put_after, ◌==◌, if◌then◌else◌, ℕ_discrete, eq→==, ne→==,
}
use dbstorage.Base.Panic.{◌>>=◌}
use dbstorage.Bytes.Words.{to_be_bytes, length-to_be_bytes, from_be_bytes-to_be_bytes}
use dbstorage.Bytes.Signed.{IsI32, i32_bits, i32_bits-lt, i32_of_bits-i32_bits}
use dbstorage.Page.{PageId, PageBuf, page_size, zeroed, length-zeroed}
use dbstorage.HashTable.Directory.{
  Directory, from_page, to_page, get, insert, page_ids_size_u32, page_ids_size_u8, local_depths_end,
  page_ids_end,
}

pub record IsValid (dir : Directory) : Type 0 where
  pub depth : dir.global_depth < 2 ^ 32
  pub depths : length dir.local_depths ≡ page_ids_size_u32
  pub ids : length dir.page_ids ≡ page_ids_size_u8

module _ (dir : Directory) (i : ℕ) (id : PageId) (v : IsValid dir) (lt : i < page_ids_size_u32)
    (word : IsI32 id) where
  bytes : List ℕ
  bytes = to_be_bytes 4 (i32_bits id)

  four : length bytes ≡ 4
  unfolding bytes
  four = length-to_be_bytes 4 (i32_bits id)

  inserted : Directory
  inserted = record dir { page_ids = put dir.page_ids (i * 4) bytes }

  insert-inserted : insert dir i id ≡ some inserted
  unfolding insert inserted bytes
  insert-inserted = rw (
      copy_from_slice_lem dir.page_ids (i * 4) (i * 4 + 4) bytes (omega (arith, four))
        (omega (arith, v.ids)))

  get-inserted_self : get inserted i ≡ some id
  unfolding get inserted bytes
  get-inserted_self =
      let width : i * 4 + 4 - i * 4 ≡ length bytes = omega (arith, four) in
      rw (
        range_lem inserted.page_ids (i * 4) (i * 4 + 4) (omega arith)
            (omega (arith, v.ids, length-put dir.page_ids (i * 4) bytes)),
        width,
        slice-put_self dir.page_ids (i * 4) bytes (omega (arith, four, v.ids)),
        from_be_bytes-to_be_bytes 4 (i32_bits id) (i32_bits-lt id word),
        i32_of_bits-i32_bits id word,
      )

  range-inserted_ne :
      (j : ℕ)
      → j ≢ i
      → range inserted.page_ids (j * 4) (j * 4 + 4) ≡ range dir.page_ids (j * 4) (j * 4 + 4)
  unfolding inserted
  range-inserted_ne j other = elim (ℕ_cases j i other) [
    | inl before ↦
        range-put_before dir.page_ids (i * 4) bytes (j * 4) (j * 4 + 4) (omega arith) (omega arith)
    | inr after ↦
        range-put_after dir.page_ids (i * 4) bytes (j * 4) (j * 4 + 4) (omega (arith, four))
  ]
    where
      ℕ_cases : (j i : ℕ) → j ≢ i → (j < i) ⊎ (i < j)
      ℕ_cases j i h = ground arith

-- Within the directory's 512 places an insertion does not panic. The place has the new page id, and
-- any other place has its old one.
pub get-insert :
    (dir : Directory) (i j : ℕ) (id : PageId)
    → IsValid dir
    → i < page_ids_size_u32
    → IsI32 id
    → (dir' : Directory) × (insert dir i id ≡ some dir')
      × IsValid dir'
      × (get dir' j ≡ (if j == i then some id else get dir j))
unfolding get inserted
get-insert dir i j id v lt word = (
  inserted dir i id v lt word,
  insert-inserted dir i id v lt word,
  record {
    depth = v.depth;
    depths = v.depths;
    ids = length-put dir.page_ids (i * 4) (bytes dir i id v lt word) ∙ v.ids;
  },
  elim (ℕ_discrete j i) [
    | yes same ↦ rw (same, eq→== i i refl) (get-inserted_self dir i id v lt word)
    | no other ↦ rw (ne→== j i other, range-inserted_ne dir i id v lt word j other)
  ],
)

module _ (dir : Directory) (v : IsValid dir) where
  depth_bytes : List ℕ
  depth_bytes = to_be_bytes 4 dir.global_depth

  with_depth : PageBuf
  with_depth = put zeroed 0 depth_bytes

  with_depths : PageBuf
  with_depths = put with_depth 4 dir.local_depths

  image : PageBuf
  image = put with_depths page_ids_size_u32 dir.page_ids

  four_bytes : length depth_bytes ≡ 4
  unfolding depth_bytes
  four_bytes = length-to_be_bytes 4 dir.global_depth

  length-with_depth : length with_depth ≡ page_size
  unfolding with_depth
  length-with_depth = length-put zeroed 0 depth_bytes ∙ length-zeroed

  length-with_depths : length with_depths ≡ page_size
  unfolding with_depths
  length-with_depths = length-put with_depth 4 dir.local_depths ∙ length-with_depth

  length-image : length image ≡ page_size
  unfolding image
  length-image = length-put with_depths page_ids_size_u32 dir.page_ids ∙ length-with_depths

  to_page-image : to_page dir ≡ some image
  unfolding to_page image with_depths with_depth depth_bytes
  to_page-image =
      rw
        (
          copy_from_slice_lem zeroed 0 4 depth_bytes (omega (arith, four_bytes))
              (omega (arith, length-zeroed)),
          copy_from_slice_lem with_depth 4 local_depths_end dir.local_depths
              (omega (arith, v.depths)) (omega (arith, length-with_depth)),
        )
        (copy_from_slice_lem with_depths page_ids_size_u32 page_ids_end dir.page_ids
          (omega (arith, v.ids)) (omega (arith, length-with_depths)))

  depth-image : range image 0 4 ≡ some depth_bytes
  unfolding image with_depths with_depth
  depth-image =
      range-put_before with_depths page_ids_size_u32 dir.page_ids 0 4 (omega arith) (omega arith)
      ∙ range-put_before with_depth 4 dir.local_depths 0 4 (omega arith) (omega arith)
      ∙ range_lem with_depth 0 4 (omega arith) (omega (arith, length-with_depth))
      ∙ (rw (← four_bytes) (
          ap some (slice-put_self zeroed 0 depth_bytes (omega (arith, four_bytes, length-zeroed)))))

  depths-image : range image 4 local_depths_end ≡ some (put dir.local_depths 508 dir.page_ids)
  unfolding image with_depths
  depths-image =
      range_lem image 4 local_depths_end (omega arith) (omega (arith, length-image))
      ∙ ap some (
          slice-put_within with_depths page_ids_size_u32 dir.page_ids 4 512 (omega arith)
          ∙ ap (λ xs. put xs 508 dir.page_ids) own)
    where
      own : slice with_depths 4 512 ≡ dir.local_depths
      own = rw (← v.depths) (
          slice-put_self with_depth 4 dir.local_depths (omega (arith, v.depths, length-with_depth)))

  ids-image : range image page_ids_size_u32 page_ids_end ≡ some dir.page_ids
  unfolding image
  ids-image =
      range_lem image page_ids_size_u32 page_ids_end (omega arith) (omega (arith, length-image))
      ∙ ap some (
          rw (← v.ids) (
            slice-put_self with_depths page_ids_size_u32 dir.page_ids
              (omega (arith, v.ids, length-with_depths))))

-- A directory that is written to its page and read back has its depth and its page ids. Its last four
-- local depths are lost: `LOCAL_DEPTHS` ends at byte 516 and `PAGE_IDS` begins at byte 512, so the
-- first page id is written over them.
pub from_page-to_page :
    (dir : Directory)
    → IsValid dir
    → (to_page dir >>= from_page)
      ≡ some (record dir { local_depths = put dir.local_depths 508 dir.page_ids })
unfolding from_page depth_bytes
from_page-to_page dir v = rw (
  to_page-image dir v,
  depth-image dir v,
  depths-image dir v,
  ids-image dir v,
  from_be_bytes-to_be_bytes 4 dir.global_depth v.depth,
)
