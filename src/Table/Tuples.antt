-- ===== src/Table/Tuples.antt =====
-- src/table/tuple.rs: `Tuple` over a schema, and `Comparand`, by which keys are compared. `none` is a
-- panic.
pub mod Order
pub mod Lexicographic
pub mod Keys
pub mod KeyOrder
use Prim.Native.Nat.{Ordering}
use dbstorage.Base.{
  ℕ, ◌+◌, ◌%◌, ◌^◌, Bool, true, false, ◌&&◌, Option, some, none, List, [], ◌∷◌, ◌++◌, length, range,
  slice, ◌==◌, copy_from_slice,
}
use dbstorage.Base.Panic.{◌>>=◌, ◌>>◌, assert}
use dbstorage.Bytes.Words.{to_be_bytes, from_be_bytes}
use dbstorage.Bytes.Signed.{◌=ℤ◌, ℤ, pos, int_bits, int_of_bits}
use dbstorage.Catalog.Schema.{ColumnType, Column, Schema, size_of}
use dbstorage.Table.Slot.{RId}
use dbstorage.Table.Node.{Tuple}
use dbstorage.Table.Value.{
  compare_ℤ, Value, Utf8, tiny_int, bool, int, big_int, varchar, value_from, compare_values,
}
use dbstorage.Table.Builder.{Variable, build_from, add, build}
use dbstorage.Table.Builder

-- `..Default::default()` of a tuple.
abbrev pub default_rid : RId
default_rid = record { page_id = pos 0; slot_id = 0 }

abbrev pub with_bytes : List ℕ → Tuple
with_bytes bytes = record { rid = default_rid; content = bytes }

-- The variable part of one column: nothing, unless it is a `varchar`.
unfoldable pub variable_part : List ℕ → Column → ℕ → Option (List Variable)
variable_part buf column start = elim column.ty [
  | ColumnType.varchar ↦ (do
    at ← range buf column.offset (column.offset + 2)
    len ← range buf (column.offset + 2) (column.offset + 4)
    var ← range buf (from_be_bytes at) (from_be_bytes at + from_be_bytes len)
    some (record { content = var; offset_offset = start } ∷ []))
  | _ ↦ some []
]

-- The loop over the columns of `Tuple::from`, with what it has put so far.
unfoldable pub copy_columns :
    List ℕ → List Column → List ℕ → List Variable → Option (List ℕ × List Variable)
unfolding variable_part size_of
copy_columns buf [] ret vars = some (ret, vars)
copy_columns buf (c ∷ cs) ret vars = do
  piece ← range buf c.offset (c.offset + size_of c.ty)
  more ← variable_part buf c (length ret)
  copy_columns buf cs (ret ++ piece) (vars ++ more)

-- `Tuple::from(&[u8], &Schema)`
unfoldable pub from_buf : List ℕ → Schema → Option Tuple
unfolding copy_columns build_from
from_buf buf schema = do
  parts ← copy_columns buf schema.columns [] []
  bytes ← build_from parts.0 parts.1
  some (with_bytes bytes)

-- `Tuple::size`
unfoldable pub tuple_size : Tuple → ℕ
tuple_size t = length t.content

-- `impl Into<Tuple> for i32`
unfoldable pub from_i32 : ℤ → Option Tuple
unfolding add build
from_i32 z = do bytes ← build (add Builder.new (int z)); some (with_bytes bytes)

-- One more, wrapping.
unfoldable pub succ_int : ℕ → ℤ → ℤ
unfolding int_bits int_of_bits
succ_int w z = int_of_bits w ((int_bits w z + 1) % 256 ^ w)

module _ (text : Utf8) where
  unfoldable pub get_value : Tuple → Column → Option Value
  unfolding value_from
  get_value t column = value_from text column t.content

  -- A text whose first character is one further: the first bytes of the `u32` of that character go to
  -- the front.
  unfoldable pub next_text : List ℕ → Option ℕ → Option Value
  next_text v none = some (varchar (0 ∷ []))
  next_text v (some c) = do
    assert (text.is_char (c + 1))
    let len = text.len_utf8 (c + 1)
    v' ← copy_from_slice v 0 len (slice (to_be_bytes 4 (c + 1)) 0 len)
    some (varchar v')

  unfoldable pub next_value : Value → Option Value
  unfolding succ_int next_text
  next_value (tiny_int v) = some (tiny_int (succ_int 1 v))
  next_value (bool _) = some (bool true)
  next_value (int v) = some (int (succ_int 4 v))
  next_value (big_int v) = some (big_int (succ_int 8 v))
  next_value (varchar v) = next_text v (text.first_char v)

  unfoldable pub add_columns :
      Tuple → List Column → Builder.TupleBuilder → Option Builder.TupleBuilder
  unfolding get_value add
  add_columns t [] b = some b
  add_columns t (c ∷ cs) b = do v ← get_value t c; add_columns t cs (add b v)

  unfoldable pub next_of : Tuple → List Column → Option Tuple
  unfolding get_value next_value add add_columns build
  next_of t [] = none
  next_of t (c ∷ cs) = do
    v ← get_value t c
    v' ← next_value v
    b ← add_columns t cs (add Builder.new v')
    bytes ← build b
    some (with_bytes bytes)

  -- `Tuple::next`; with no column the assertion fails.
  unfoldable pub next : Tuple → Schema → Option Tuple
  unfolding next_of
  next t schema = next_of t schema.columns

  -- `Tuple::increment`: the tuple that takes the place of this one.
  unfoldable pub increment : Tuple → Schema → Option Tuple
  unfolding next
  increment t schema = next t schema

  -- The loop of `Comparand::cmp`.
  unfoldable pub compare_columns : List Column → Tuple → Tuple → Option Ordering
  unfolding get_value
  compare_columns [] a b = some Ordering.eq
  compare_columns (c ∷ cs) a b = do
    lhs ← get_value a c
    rhs ← get_value b c
    elim (compare_values lhs rhs) [
      | Ordering.lt ↦ some Ordering.lt
      | Ordering.gt ↦ some Ordering.gt
      | Ordering.eq ↦ compare_columns cs a b
    ]

  -- `Comparand::cmp`
  unfoldable pub cmp : Schema → Tuple → Tuple → Option Ordering
  unfolding compare_columns
  cmp schema a b = compare_columns schema.columns a b

unfoldable pub same_bytes : List ℕ → List ℕ → Bool
same_bytes [] [] = true
same_bytes (a ∷ as') (b ∷ bs) = a == b && same_bytes as' bs
same_bytes _ _ = false

-- `Comparand::eq`: the bytes, not the values.
unfoldable pub eq : Tuple → Tuple → Bool
unfolding same_bytes
eq a b = same_bytes a.content b.content

-- `Comparand` of an `i32`.
unfoldable pub cmp_int : ℤ → ℤ → Ordering
unfolding compare_ℤ
cmp_int a b = compare_ℤ a b

unfoldable pub eq_int : ℤ → ℤ → Bool
eq_int a b = a =ℤ b
