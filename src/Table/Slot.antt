-- ===== src/Table/Slot.antt =====
-- src/table/tuple.rs: `RId`, `TupleMeta` and `Slot` with their bytes. `none` is a panic.
pub mod Laws
use dbstorage.Base.{
  ℕ, ◌^◌, Bool, Option, some, none, List, [], ◌∷◌, ◌++◌, ltb, if◌then◌else◌, range, copy_from_slice,
  replicate,
}
use dbstorage.Base.Panic.{◌>>=◌}
use dbstorage.Bytes.Words.{to_be_bytes, from_be_bytes}
use dbstorage.Bytes.Signed.{ℤ, i32_bits, i32_of_bits}
use dbstorage.Page.{PageId}
use dbstorage.Storable.{Storable}

pub record RId : Type 0 where
  pub page_id : PageId
  pub slot_id : ℕ

unfoldable pub rid_from_bytes : List ℕ → Option RId
rid_from_bytes bytes = do
  page ← range bytes 0 4
  slot ← range bytes 4 8
  some (record { page_id = i32_of_bits (from_be_bytes page); slot_id = from_be_bytes slot })

-- `ret[0..4]` and `ret[4..8]` are all of `ret`.
unfoldable pub rid_into_bytes : RId → List ℕ
rid_into_bytes r = to_be_bytes 4 (i32_bits r.page_id) ++ to_be_bytes 4 r.slot_id

unfoldable pub rid : Storable RId
unfolding rid_from_bytes rid_into_bytes
rid = record { size_of = 8; into_bytes = rid_into_bytes; from_bytes = rid_from_bytes }

pub record TupleMeta : Type 0 where
  pub deleted : Bool

-- `u8::from_be_bytes(value[0..1]) > 1`
unfoldable pub meta_from : List ℕ → Option TupleMeta
meta_from value = do b ← range value 0 1; some (record { deleted = ltb 1 (from_be_bytes b) })

abbrev pub slot_size : ℕ
slot_size = 9

pub record Slot : Type 0 where
  pub offset : ℕ
  pub len : ℕ
  pub meta : TupleMeta

-- `Slot::from(&[u8])`
unfoldable pub slot_from : List ℕ → Option Slot
unfolding meta_from
slot_from buf = do
  offset ← range buf 0 4
  len ← range buf 4 8
  flag ← range buf 8 slot_size
  meta ← meta_from flag
  some (record { offset = from_be_bytes offset; len = from_be_bytes len; meta = meta })

-- `value.meta.deleted as u8`
abbrev pub bool_byte : Bool → ℕ
bool_byte b = if b then 1 else 0

-- `TupleInfoBuf::from(&Slot)`
unfoldable pub slot_bytes : Slot → Option (List ℕ)
slot_bytes value = do
  b₁ ← copy_from_slice (replicate slot_size 0) 0 4 (to_be_bytes 4 value.offset)
  b₂ ← copy_from_slice b₁ 4 8 (to_be_bytes 4 value.len)
  copy_from_slice b₂ 8 slot_size (bool_byte value.meta.deleted ∷ [])
