-- ===== src/Table/Value.antt =====
-- src/table/tuple.rs: the values of columns, and how they are read and compared. `none` is a panic.
pub mod Order
use Prim.Native.Nat.{compare, Ordering}
use dbstorage.Base.{
  ℕ, ◌+◌, Bool, true, false, Option, some, List, [], ◌∷◌, ltb, leb, ◌==◌, if◌then◌else◌, length,
  range,
}
use dbstorage.Base.Panic.{◌>>=◌, ◌>>◌, assert}
use dbstorage.Bytes.Words.{from_be_bytes}
use dbstorage.Bytes.Signed.{ℤ, int_of_bits, ltb_ℤ, ◌=ℤ◌}
use dbstorage.Catalog.Schema.{ColumnType, Column, size_of}

-- A `String` is its bytes.
pub data Value : Type 0 where
  tiny_int : ℤ → Value
  bool : Bool → Value
  int : ℤ → Value
  big_int : ℤ → Value
  varchar : List ℕ → Value

-- What the code uses of the standard library's text: which bytes are UTF-8, the first character of such
-- bytes, the code points and their lengths in UTF-8.
pub record Utf8 : Type 0 where
  pub is_utf8 : List ℕ → Bool
  pub first_char : List ℕ → Option ℕ
  pub is_char : ℕ → Bool
  pub len_utf8 : ℕ → ℕ

module _ (text : Utf8) where
  -- The first `match` of `Value::from`: the bytes of the value.
  unfoldable pub value_bytes : Column → List ℕ → Option (List ℕ)
  unfolding size_of
  value_bytes column bytes = elim column.ty [
    | ColumnType.varchar ↦ (do
      at ← range bytes column.offset (column.offset + 2)
      len ← range bytes (column.offset + 2) (column.offset + 4)
      let offset = from_be_bytes at
      let size = from_be_bytes len
      assert (leb (offset + size) (length bytes))
      range bytes offset (offset + size))
    | _ ↦ (do
      assert (leb (column.offset + size_of column.ty) (length bytes))
      range bytes column.offset (column.offset + size_of column.ty))
  ]

  -- The second.
  unfoldable pub value_of : ColumnType → List ℕ → Option Value
  value_of ColumnType.tiny_int bytes = do
    assert (length bytes == 1)
    some (tiny_int (int_of_bits 1 (from_be_bytes bytes)))
  value_of ColumnType.bool bytes = do
    assert (length bytes == 1)
    some (bool (ltb 0 (from_be_bytes bytes)))
  value_of ColumnType.int bytes = do
    assert (length bytes == 4)
    some (int (int_of_bits 4 (from_be_bytes bytes)))
  value_of ColumnType.big_int bytes = do
    assert (length bytes == 8)
    some (big_int (int_of_bits 8 (from_be_bytes bytes)))
  value_of ColumnType.varchar bytes = do assert (text.is_utf8 bytes); some (varchar bytes)

  -- `Value::from`
  unfoldable pub value_from : Column → List ℕ → Option Value
  unfolding value_bytes value_of
  value_from column bytes = do b ← value_bytes column bytes; value_of column.ty b

-- `i8::cmp`, `i32::cmp`, `i64::cmp`
unfoldable pub compare_ℤ : ℤ → ℤ → Ordering
compare_ℤ a b = if a =ℤ b then Ordering.eq else if ltb_ℤ a b then Ordering.lt else Ordering.gt

unfoldable pub bit_of : Bool → ℕ
bit_of true = 1
bit_of false = 0

-- `String::cmp`: byte by byte.
unfoldable pub compare_bytes : List ℕ → List ℕ → Ordering
compare_bytes [] [] = Ordering.eq
compare_bytes [] (b ∷ bs) = Ordering.lt
compare_bytes (a ∷ as') [] = Ordering.gt
compare_bytes (a ∷ as') (b ∷ bs) = elim (compare a b) [
  | Ordering.lt ↦ Ordering.lt
  | Ordering.gt ↦ Ordering.gt
  | Ordering.eq ↦ compare_bytes as' bs
]

-- The place of the variant, by which the derived order compares first.
unfoldable pub variant : Value → ℕ
variant (tiny_int _) = 0
variant (bool _) = 1
variant (int _) = 2
variant (big_int _) = 3
variant (varchar _) = 4

-- The derived `Ord`.
unfoldable pub compare_values : Value → Value → Ordering
unfolding compare_ℤ compare_bytes variant bit_of
compare_values (tiny_int a) (tiny_int b) = compare_ℤ a b
compare_values (bool a) (bool b) = compare (bit_of a) (bit_of b)
compare_values (int a) (int b) = compare_ℤ a b
compare_values (big_int a) (big_int b) = compare_ℤ a b
compare_values (varchar a) (varchar b) = compare_bytes a b
compare_values a b = compare (variant a) (variant b)
