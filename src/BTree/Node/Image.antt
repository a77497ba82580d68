-- ===== src/BTree/Node/Image.antt =====
-- src/btree/node.rs and src/btree/slot.rs: a node's page. `none` is a panic.
use dbstorage.Base.{
  ℕ, zero, suc, ◌+◌, ◌%◌, ◌^◌, Bool, true, false, not, ◌&&◌, Option, some, List, [], ◌∷◌, ltb, ◌==◌,
  length, drop, put, range, copy_from_slice, replicate, get_elem?,
}
use dbstorage.Base.Panic.{◌>>=◌, ◌>>◌, assert}
use dbstorage.Bytes.Words.{to_be_bytes, from_be_bytes}
use dbstorage.Bytes.Signed.{i32_bits}
use dbstorage.Page.{PageBuf, page_size}
use dbstorage.Storable.{Storable, read_i32}
use dbstorage.Catalog.Schema.{Schema}
use dbstorage.Table.Node.{Tuple}
use dbstorage.Table.Tuples.{from_buf}
use dbstorage.BTree.Slot.{Slot, either_size, either_bytes, either_from}
use dbstorage.BTree.Node.{Node, node_type_from, node_type_byte}

-- What a node's page needs of a key: its bytes, and `Tuple::from`, which takes what it needs from the front
-- and may panic.
pub record KeyCodec (T : Type 0) : Type 0 where
  pub bytes : T → List ℕ
  pub read : List ℕ → Option T

-- The keys of the tree are tuples of a schema.
unfoldable pub tuple_codec : Schema → KeyCodec Tuple
unfolding from_buf
tuple_codec schema = record { bytes = λ t. t.content; read = λ buf. from_buf buf schema }

abbrev pub values_start : ℕ
values_start = 14

unfoldable pub is_zeros : List ℕ → Bool
is_zeros [] = true
is_zeros (b ∷ bs) = b == 0 && is_zeros bs

abbrev pub bool_byte : Bool → ℕ
bool_byte true = 1
bool_byte false = 0

module _ {T V : Type 0} (keys : KeyCodec T) (s : Storable V) where
  -- `Slot::size`
  unfoldable pub slot_size : Slot T V → ℕ
  slot_size slot = length (keys.bytes slot.key) + either_size s

  -- `BytesMut::from(&Slot<V>)`
  unfoldable pub slot_bytes : Slot T V → Option (List ℕ)
  slot_bytes slot = do
    let k = keys.bytes slot.key
    ret ← copy_from_slice (replicate (length k + either_size s) 0) 0 (length k) k
    e ← either_bytes s slot.either
    copy_from_slice ret (length k) (length k + either_size s) e

  -- The loop that writes the entries.
  unfoldable pub write_slots : List (Slot T V) → ℕ → PageBuf → Option PageBuf
  unfolding slot_size slot_bytes
  write_slots [] from ret = some ret
  write_slots (v ∷ vs) from ret = do
    bytes ← slot_bytes v
    ret' ← copy_from_slice ret from (from + slot_size v) bytes
    write_slots vs (from + slot_size v) ret'

  -- The fields before the entries.
  unfoldable pub write_header : Node T V → PageBuf → Option PageBuf
  write_header n buf = do
    let ret = put (put buf 0 (node_type_byte n.t ∷ [])) 1 (bool_byte n.is_root ∷ [])
    ret ← copy_from_slice ret 2 6 (to_be_bytes 4 (length n.values % 2 ^ 32))
    ret ← copy_from_slice ret 6 10 (to_be_bytes 4 (i32_bits n.next))
    copy_from_slice ret 10 14 (to_be_bytes 4 (i32_bits n.id))

  -- `PageBuf::from(&Node)`
  unfoldable pub to_page : Node T V → Option PageBuf
  unfolding write_header write_slots is_zeros
  to_page n = do
    ret ← write_header n (replicate page_size 0)
    ret ← write_slots n.values values_start ret
    assert (not (is_zeros ret))
    some ret

  -- The loop that reads the entries, as many as the page counts.
  unfoldable pub read_slots : ℕ → List ℕ → Option (List (Slot T V))
  read_slots zero left = some []
  read_slots (suc rem) left = do
    key ← keys.read left
    let size = length (keys.bytes key)
    bytes ← range left size (size + either_size s)
    either ← either_from s bytes
    more ← read_slots rem (drop (size + either_size s) left)
    some (record { key = key; either = either } ∷ more)

  -- `Node::from(&PageBuf, &Schema)`
  unfoldable pub from_page : PageBuf → Option (Node T V)
  unfolding read_slots
  from_page buf = do
    kind ← get_elem? buf 0
    t ← node_type_from kind
    root ← get_elem? buf 1
    len ← range buf 2 6
    next_bytes ← range buf 6 10
    next ← read_i32 next_bytes
    id_bytes ← range buf 10 14
    id ← read_i32 id_bytes
    values ← read_slots (from_be_bytes len) (drop values_start buf)
    some (record { t = t; is_root = ltb 0 root; next = next; id = id; values = values })
