-- ===== src/Tests/Records.antt =====
-- src/table/tuple.rs at concrete inputs: a tuple with an integer, a text and a truth value.
use Prim.Native.Nat.{Ordering}
use dbstorage.Base.{
  ℕ, ◌≡◌, ◌≢◌, refl, Bool, true, false, some, none, List, [], ◌∷◌, arith, ltb, if◌then◌else◌,
}
use dbstorage.Bytes.Words.{to_be_bytes}
use dbstorage.Bytes.Signed.{negsuc}
use dbstorage.Catalog.Schema.{ColumnType, Column, Schema, size_of, from_pairs, place_columns}
use dbstorage.Table.Value.{
  Value, compare_values, compare_ℤ, compare_bytes, bit_of, Utf8, bool, int, varchar,
}
use dbstorage.Table.Builder.{fixed, new, add_all, build}
use dbstorage.Table.Builder.Layout.{Laid, Typed, tuple_length, Reads}
use dbstorage.Table.Tuples.{with_bytes, cmp}
use dbstorage.BTree.Order.{IsOrder}
use dbstorage.Table.Tuples.KeyOrder.{TupleKey, tuple_keys, tuple_keys-IsOrder}
use dbstorage.Table.Tuples.Order.{lexicographic, cmp-build}
use dbstorage.Table.Builder.RoundTrip

-- Texts of ASCII characters.
abbrev ascii_only : List ℕ → Bool
ascii_only [] = true
ascii_only (b ∷ bs) = if ltb b 128 then ascii_only bs else false

abbrev ascii : Utf8
ascii = record {
  is_utf8 = ascii_only;
  first_char = λ bs. elim bs [ [] ↦ none | b ∷ _ ↦ some b ];
  is_char = λ c. ltb c 128;
  len_utf8 = λ _. 1;
}

abbrev person : List Column
person =
    record { name = "age"; ty = ColumnType.int; offset = 0 }
    ∷ record { name = "name"; ty = ColumnType.varchar; offset = 4 }
    ∷ record { name = "active"; ty = ColumnType.bool; offset = 8 }
    ∷ []

abbrev ann : List Value
ann = int (negsuc 4) ∷ varchar (97 ∷ 110 ∷ 110 ∷ []) ∷ bool true ∷ []

person_placed :
    (from_pairs
      (("age", ColumnType.int) ∷ ("name", ColumnType.varchar) ∷ ("active", ColumnType.bool) ∷ []))
    ≡ record { columns = person; size = 9 }
unfolding from_pairs place_columns
person_placed = refl

person-Laid : Laid 0 person
unfolding size_of
person-Laid = (refl, (refl, (refl, tt)))

ann-Typed : Typed ascii person ann
ann-Typed = (refl, omega arith, (refl, (omega arith, refl), (refl, tt, tt)))

short : tuple_length ann ≡ 12
unfolding fixed bit_of to_be_bytes
short = refl

build-value_from_example :
    (out : List ℕ) × (build (add_all new ann) ≡ some out) × Reads ascii out person ann
build-value_from_example =
    RoundTrip.build-value_from ascii person ann person-Laid ann-Typed (omega (arith, short))

abbrev bob : List Value
bob = int (negsuc 4) ∷ varchar (98 ∷ 111 ∷ 98 ∷ []) ∷ bool false ∷ []

bob-Typed : Typed ascii person bob
bob-Typed = (refl, omega arith, (refl, (omega arith, refl), (refl, tt, tt)))

short_too : tuple_length bob ≡ 12
unfolding fixed bit_of to_be_bytes
short_too = refl

cmp-build_example :
    (a : List ℕ) × (b : List ℕ) × (build (add_all new ann) ≡ some a)
    × (build (add_all new bob) ≡ some b)
    × (cmp ascii (record { columns = person; size = 9 }) (with_bytes a) (with_bytes b)
        ≡ some Ordering.lt)
unfolding lexicographic compare_values compare_ℤ compare_bytes
cmp-build_example =
    cmp-build ascii (record { columns = person; size = 9 }) ann bob person-Laid ann-Typed bob-Typed
      (omega (arith, short)) (omega (arith, short_too))

abbrev people : Schema
people = record { columns = person; size = 9 }

tuple_keys-IsOrder_example :
    ((a b : TupleKey ascii people) → cmp ascii people (with_bytes a.0) (with_bytes b.0) ≢ none)
    × IsOrder (tuple_keys ascii people (λ a. some a))
tuple_keys-IsOrder_example = tuple_keys-IsOrder ascii people person-Laid (λ a. some a)
