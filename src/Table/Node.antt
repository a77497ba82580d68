-- ===== src/Table/Node.antt =====
-- src/table/node.rs: a page of tuples. The node keeps a pointer to the page it was read from and
-- writes tuples through it, so that page is a field of the state here. `none` is a panic, or an access
-- outside the page.
pub mod Laws
pub mod SlotArray
pub mod RoundTrip
use dbstorage.Base.{
  ℕ, zero, suc, ◌+◌, ◌-◌, ◌*◌, ◌%◌, ◌^◌, Bool, Option, some, none, List, [], ◌∷◌, ◌++◌, ltb, leb,
  not, if◌then◌else◌, length, get_elem?, range, copy_from_slice, last,
}
use dbstorage.Base.Panic.{◌>>=◌, ◌>>◌, assert}
use dbstorage.Bytes.Words.{to_be_bytes, from_be_bytes}
use dbstorage.Bytes.Signed.{ℤ, i32_bits, i32_of_bits}
use dbstorage.Page.{PageId, PageBuf, page_size, zeroed}
use dbstorage.Table.Slot.{Slot, TupleMeta, RId, slot_size, slot_from, slot_bytes}

pub record Node : Type 0 where
  pub page : PageBuf
  pub next_page_id : PageId
  pub deleted_tuples_len : ℕ
  pub slots : List Slot

-- `Tuple` of src/table/tuple.rs
pub record Tuple : Type 0 where
  pub rid : RId
  pub content : List ℕ

abbrev pub header_size : ℕ
header_size = 12

-- The `while rem > 0` loop of `Node::from`, over `left`.
unfoldable pub read_slots : List ℕ → ℕ → ℕ → Option (List Slot)
read_slots left from zero = some []
read_slots left from (suc rem) = do
  bytes ← range left from (from + slot_size)
  slot ← slot_from bytes
  rest ← read_slots left (from + slot_size) rem
  some (slot ∷ rest)

-- `Node::from(&PageBuf)`
unfoldable pub from_page : PageBuf → Option Node
unfolding read_slots
from_page buf = do
  next ← range buf 0 4
  tuples_len ← range buf 4 8
  deleted ← range buf 8 header_size
  left ← range buf header_size (length buf)
  slots ← read_slots left 0 (from_be_bytes tuples_len)
  some (record {
    page = buf;
    next_page_id = i32_of_bits (from_be_bytes next);
    deleted_tuples_len = from_be_bytes deleted;
    slots = slots;
  })

-- The loop over the slots of `PageBuf::from(&Node)`.
unfoldable pub write_slots : PageBuf → ℕ → List Slot → Option PageBuf
write_slots ret from [] = some ret
write_slots ret from (slot ∷ rest) = do
  bytes ← slot_bytes slot
  ret' ← copy_from_slice ret from (from + slot_size) bytes
  write_slots ret' (from + slot_size) rest

-- The tuples, from the last slot's offset to the end of the page.
unfoldable pub copy_tuples : PageBuf → PageBuf → Option Slot → Option PageBuf
copy_tuples page ret none = some ret
copy_tuples page ret (some slot) = do
  assert (ltb slot.offset page_size)
  tuples ← range page slot.offset page_size
  copy_from_slice ret slot.offset page_size tuples

-- `PageBuf::from(&Node)`
unfoldable pub to_page : Node → Option PageBuf
unfolding write_slots copy_tuples
to_page table = do
  b₁ ← copy_from_slice zeroed 0 4 (to_be_bytes 4 (i32_bits table.next_page_id))
  b₂ ← copy_from_slice b₁ 4 8 (to_be_bytes 4 (length table.slots % 2 ^ 32))
  b₃ ← copy_from_slice b₂ 8 header_size (to_be_bytes 4 table.deleted_tuples_len)
  b₄ ← write_slots b₃ header_size table.slots
  copy_tuples table.page b₄ (last table.slots)

-- `len()`, as a `u32`.
unfoldable pub len : Node → ℕ
len n = length n.slots % 2 ^ 32

abbrev pub offset_or_end : Option Slot → ℕ
offset_or_end none = page_size
offset_or_end (some slot) = slot.offset

-- Where the tuples begin.
unfoldable pub low_water : Node → ℕ
low_water n = offset_or_end (last n.slots)

-- The subtraction wraps around, as in a release build.
unfoldable pub next_tuple_offset : Node → List ℕ → Option ℕ
unfolding low_water len
next_tuple_offset n tuple_data =
    let tuple_offset = (low_water n + 2 ^ 64 - length tuple_data) % 2 ^ 64 in
    let size = header_size + slot_size * (len n + 1) in
    if ltb tuple_offset size then none else some tuple_offset

-- The slot is pushed, and the tuple is written into the page.
unfoldable pub add_tuple : Node → List ℕ → TupleMeta → ℕ → Option (Option ℕ × Node)
add_tuple n tuple_data meta offset = do
  page ← copy_from_slice n.page offset (offset + length tuple_data) tuple_data
  let slot : Slot = record {
    offset = offset % 2 ^ 32;
    len = length tuple_data % 2 ^ 32;
    meta = meta;
  }
  some (some (len n), record n { slots = n.slots ++ (slot ∷ []); page = page })

unfoldable pub insert_at : Node → List ℕ → TupleMeta → Option ℕ → Option (Option ℕ × Node)
unfolding add_tuple
insert_at n tuple_data meta none = some (none, n)
insert_at n tuple_data meta (some offset) = add_tuple n tuple_data meta offset

-- `None`, the node unchanged, if the tuple does not fit.
unfoldable pub insert : Node → List ℕ → TupleMeta → Option (Option ℕ × Node)
unfolding next_tuple_offset insert_at
insert n tuple_data meta = insert_at n tuple_data meta (next_tuple_offset n tuple_data)

unfoldable pub get : Node → RId → Option (TupleMeta × Tuple)
unfolding len
get n r_id = do
  assert (leb r_id.slot_id (len n))
  slot ← get_elem? n.slots r_id.slot_id
  tuple_data ← range n.page slot.offset (slot.offset + slot.len)
  some (slot.meta, record { rid = r_id; content = tuple_data })
