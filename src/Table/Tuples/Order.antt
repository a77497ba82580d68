-- ===== src/Table/Tuples/Order.antt =====
-- src/table/tuple.rs: how `Comparand` orders the tuples that `TupleBuilder` makes.
use Prim.Native.Nat.{Ordering}
use dbstorage.Base.{ℕ, ◌<◌, ◌^◌, ◌≡◌, refl, some, List, [], ◌∷◌}
use dbstorage.Catalog.Schema.{Column, Schema}
use dbstorage.Table.Node.{Tuple}
use dbstorage.Table.Value.{Value, Utf8, compare_values}
use dbstorage.Table.Builder.{new, add_all, build}
use dbstorage.Table.Builder.Layout.{Laid, Typed, Reads, tuple_length}
use dbstorage.Table.Builder.RoundTrip.{build-value_from}
use dbstorage.Table.Tuples.{with_bytes, get_value, compare_columns, cmp}

-- The first values that differ decide.
unfoldable pub lexicographic : List Value → List Value → Ordering
lexicographic (v ∷ vs) (w ∷ ws) = elim (compare_values v w) [
  | Ordering.lt ↦ Ordering.lt
  | Ordering.gt ↦ Ordering.gt
  | Ordering.eq ↦ lexicographic vs ws
]
lexicographic _ _ = Ordering.eq

compare_columns-Reads :
    (text : Utf8) (a b : Tuple) (cs : List Column) (vs ws : List Value)
    → Reads text a.content cs vs
    → Reads text b.content cs ws
    → compare_columns text cs a b ≡ some (lexicographic vs ws)
unfolding compare_columns lexicographic get_value
compare_columns-Reads text a b [] [] [] ra rb = refl
compare_columns-Reads text a b [] (v ∷ vs) ws ra rb = absurd ra
compare_columns-Reads text a b [] [] (w ∷ ws) ra rb = absurd rb
compare_columns-Reads text a b (c ∷ cs) [] ws ra rb = absurd ra
compare_columns-Reads text a b (c ∷ cs) (v ∷ vs) [] ra rb = absurd rb
compare_columns-Reads text a b (c ∷ cs) (v ∷ vs) (w ∷ ws) ra rb =
    rw (ra.0, rb.0)
      (decide (compare_values v w) (compare_columns-Reads text a b cs vs ws ra.1 rb.1))
  where
    decide :
        (o : Ordering)
        → compare_columns text cs a b ≡ some (lexicographic vs ws)
        → elim o [
          | Ordering.lt ↦ some Ordering.lt
          | Ordering.gt ↦ some Ordering.gt
          | Ordering.eq ↦ compare_columns text cs a b
        ]
          ≡ some (elim o [
            | Ordering.lt ↦ Ordering.lt
            | Ordering.gt ↦ Ordering.gt
            | Ordering.eq ↦ lexicographic vs ws
          ])
    decide Ordering.lt rest = refl
    decide Ordering.gt rest = refl
    decide Ordering.eq rest = rest

-- If the columns of a schema follow one another from offset 0 on, and two lists of values are of the columns'
-- types, in range, and below 64 KiB each, then both tuples are built without a panic, and `Comparand` orders
-- them, without a panic, as the values in the order of the columns: the first that differ decide.
pub cmp-build :
    (text : Utf8) (schema : Schema) (vs ws : List Value)
    → Laid 0 schema.columns
    → Typed text schema.columns vs
    → Typed text schema.columns ws
    → tuple_length vs < 2 ^ 16
    → tuple_length ws < 2 ^ 16
    → (a : List ℕ) × (b : List ℕ) × (build (add_all new vs) ≡ some a)
      × (build (add_all new ws) ≡ some b)
      × (cmp text schema (with_bytes a) (with_bytes b) ≡ some (lexicographic vs ws))
unfolding cmp
cmp-build text schema vs ws laid typed_v typed_w short_v short_w =
    let (a, e, ra) = build-value_from text schema.columns vs laid typed_v short_v in
    let (b, q, rb) = build-value_from text schema.columns ws laid typed_w short_w in
    (
      a,
      b,
      e,
      q,
      compare_columns-Reads text (with_bytes a) (with_bytes b) schema.columns vs ws ra rb,
    )
