-- ===== src/Table/Builder.antt =====
-- src/table/tuple.rs: `TupleBuilder`. `none` is a panic.
pub mod Laws
pub mod Layout
pub mod Reading
pub mod RoundTrip
use dbstorage.Base.{
  ℕ, ◌+◌, ◌%◌, ◌^◌, Bool, true, false, Option, some, none, List, [], ◌∷◌, ◌++◌, length,
  copy_from_slice,
}
use dbstorage.Base.Panic.{◌>>=◌}
use dbstorage.Bytes.Words.{to_be_bytes}
use dbstorage.Bytes.Signed.{int_bits}
use dbstorage.Table.Value.{Value, tiny_int, bool, int, big_int, varchar, bit_of}

pub record Variable : Type 0 where
  pub content : List ℕ
  pub offset_offset : ℕ

pub record TupleBuilder : Type 0 where
  pub bytes : List ℕ
  pub variable : List Variable

-- `TupleBuilder::new`
unfoldable pub new : TupleBuilder
new = record { bytes = []; variable = [] }

-- `TupleBuilder::with_capacity`: the capacity is no part of the value.
unfoldable pub with_capacity : ℕ → TupleBuilder
unfolding new
with_capacity size = new

-- What a value adds to the fixed part. Of a `varchar` these are two bytes for its offset, which stays 0
-- until `build`, and two for its length: `resize` to four zeros, and a write to their second half.
unfoldable pub fixed : Value → List ℕ
unfolding bit_of
fixed (tiny_int v) = to_be_bytes 1 (int_bits 1 v)
fixed (bool v) = to_be_bytes 1 (bit_of v)
fixed (int v) = to_be_bytes 4 (int_bits 4 v)
fixed (big_int v) = to_be_bytes 8 (int_bits 8 v)
fixed (varchar v) = 0 ∷ 0 ∷ to_be_bytes 2 (length v % 2 ^ 16)

-- What it adds to the variable part.
unfoldable pub variable_of : ℕ → Value → List Variable
variable_of offset (varchar v) = record { content = v; offset_offset = offset } ∷ []
variable_of offset (tiny_int v) = []
variable_of offset (bool v) = []
variable_of offset (int v) = []
variable_of offset (big_int v) = []

unfoldable pub add : TupleBuilder → Value → TupleBuilder
unfolding fixed variable_of
add b v = record {
  bytes = b.bytes ++ fixed v;
  variable = b.variable ++ variable_of (length b.bytes) v;
}

-- The loop of `build`.
unfoldable pub build_from : List ℕ → List Variable → Option (List ℕ)
build_from bytes [] = some bytes
build_from bytes (v ∷ vs) = do
  bytes' ←
      copy_from_slice bytes v.offset_offset (v.offset_offset + 2)
        (to_be_bytes 2 (length bytes % 2 ^ 16))
  build_from (bytes' ++ v.content) vs

unfoldable pub build : TupleBuilder → Option (List ℕ)
unfolding build_from
build b = build_from b.bytes b.variable

-- `add` of one value after another.
unfoldable pub add_all : TupleBuilder → List Value → TupleBuilder
unfolding add
add_all b [] = b
add_all b (v ∷ vs) = add_all (add b v) vs
