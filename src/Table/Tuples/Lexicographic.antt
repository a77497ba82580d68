-- ===== src/Table/Tuples/Lexicographic.antt =====
-- src/table/tuple.rs: the order of `Comparand` on the values of the columns of a schema is a total order.
use Prim.Native.Nat.{compare, Ordering}
use dbstorage.Base.{ℕ, ◌≡◌, refl, sym, ◌∙◌, subst, Bool, true, false, List, [], ◌∷◌}
use dbstorage.Base.Comparisons.{
  opposite, IsComparison, Every, compare-IsComparison, and_then_self, and_then-same,
  and_then-turned, and_then_trans,
}
use dbstorage.Bytes.Signed.{ℤ}
use dbstorage.Catalog.Schema.{ColumnType, Column}
use dbstorage.Table.Value.{
  Value, Utf8, tiny_int, bool, int, big_int, varchar, bit_of, compare_values,
}
use dbstorage.Table.Value.Order.{compare_ℤ-IsComparison, compare_bytes-IsComparison, through}
use dbstorage.Table.Builder.Layout.{type_of, Typed}
use dbstorage.Table.Tuples.Order.{lexicographic}

-- What a value of a type is made of.
abbrev Content : ColumnType → Type 0
Content ColumnType.tiny_int = ℤ
Content ColumnType.bool = Bool
Content ColumnType.int = ℤ
Content ColumnType.big_int = ℤ
Content ColumnType.varchar = List ℕ

abbrev made_of : (t : ColumnType) → Content t → Value
made_of ColumnType.tiny_int z = tiny_int z
made_of ColumnType.bool b = bool b
made_of ColumnType.int z = int z
made_of ColumnType.big_int z = big_int z
made_of ColumnType.varchar w = varchar w

held : (v : Value) → (p : Content (type_of v)) × (made_of (type_of v) p ≡ v)
held (tiny_int z) = (z, refl)
held (bool b) = (b, refl)
held (int z) = (z, refl)
held (big_int z) = (z, refl)
held (varchar w) = (w, refl)

held_as : (t : ColumnType) (v : Value) → t ≡ type_of v → (p : Content t) × (made_of t p ≡ v)
held_as t v e = subst (λ u. (p : Content u) × (made_of u p ≡ v)) (sym e) (held v)

bit_of_same : (a b : Bool) → bit_of a ≡ bit_of b → a ≡ b
unfolding bit_of
bit_of_same true true e = refl
bit_of_same true false e = absurd (one≢zero e)
  where
    one≢zero : ¬ (◌≡◌ {A = ℕ} 1 0)
    one≢zero q = cc
bit_of_same false true e = absurd (zero≢one e)
  where
    zero≢one : ¬ (◌≡◌ {A = ℕ} 0 1)
    zero≢one q = cc
bit_of_same false false e = refl

compare_bool-IsComparison : IsComparison Every (λ a b. compare (bit_of a) (bit_of b))
compare_bool-IsComparison = record {
  self = λ a. compare-IsComparison.self (bit_of a);
  same = λ a b p q e. bit_of_same a b (compare-IsComparison.same (bit_of a) (bit_of b) tt tt e);
  turned = λ a b. compare-IsComparison.turned (bit_of a) (bit_of b);
  trans = λ a b c. compare-IsComparison.trans (bit_of a) (bit_of b) (bit_of c);
}

-- On the values of one type, the derived order is a total order.
compare_values-IsComparison : (t : ColumnType) → IsComparison (λ v. t ≡ type_of v) compare_values
unfolding compare_values
compare_values-IsComparison ColumnType.tiny_int =
    through compare_ℤ-IsComparison _ compare_values tiny_int
      (λ v p. (held_as ColumnType.tiny_int v p).0) (λ v p. (held_as ColumnType.tiny_int v p).1)
      (λ a b. refl)
compare_values-IsComparison ColumnType.bool =
    through compare_bool-IsComparison _ compare_values bool (λ v p. (held_as ColumnType.bool v p).0)
      (λ v p. (held_as ColumnType.bool v p).1) (λ a b. refl)
compare_values-IsComparison ColumnType.int =
    through compare_ℤ-IsComparison _ compare_values int (λ v p. (held_as ColumnType.int v p).0)
      (λ v p. (held_as ColumnType.int v p).1) (λ a b. refl)
compare_values-IsComparison ColumnType.big_int =
    through compare_ℤ-IsComparison _ compare_values big_int
      (λ v p. (held_as ColumnType.big_int v p).0) (λ v p. (held_as ColumnType.big_int v p).1)
      (λ a b. refl)
compare_values-IsComparison ColumnType.varchar =
    through compare_bytes-IsComparison _ compare_values varchar
      (λ v p. (held_as ColumnType.varchar v p).0) (λ v p. (held_as ColumnType.varchar v p).1)
      (λ a b. refl)

lexicographic_self :
    (text : Utf8) (cs : List Column) (vs : List Value)
    → Typed text cs vs
    → lexicographic vs vs ≡ Ordering.eq
unfolding lexicographic
lexicographic_self text [] [] p = refl
lexicographic_self text [] (v ∷ vs) p = absurd p
lexicographic_self text (c ∷ cs) [] p = absurd p
lexicographic_self text (c ∷ cs) (v ∷ vs) p =
    and_then_self (compare_values-IsComparison c.ty) v (lexicographic vs vs) p.0
    ∙ lexicographic_self text cs vs p.2

lexicographic_same :
    (text : Utf8) (cs : List Column) (vs ws : List Value)
    → Typed text cs vs
    → Typed text cs ws
    → lexicographic vs ws ≡ Ordering.eq
    → vs ≡ ws
unfolding lexicographic
lexicographic_same text [] [] [] p q e = refl
lexicographic_same text [] [] (w ∷ ws) p q e = absurd q
lexicographic_same text [] (v ∷ vs) ws p q e = absurd p
lexicographic_same text (c ∷ cs) [] ws p q e = absurd p
lexicographic_same text (c ∷ cs) (v ∷ vs) [] p q e = absurd q
lexicographic_same text (c ∷ cs) (v ∷ vs) (w ∷ ws) p q e =
    let (h, t) =
      and_then-same (compare_values-IsComparison c.ty) v w (lexicographic vs ws) p.0 q.0 e in
    λ i. h i ∷ lexicographic_same text cs vs ws p.2 q.2 t i

lexicographic_turned :
    (text : Utf8) (cs : List Column) (vs ws : List Value)
    → Typed text cs vs
    → Typed text cs ws
    → lexicographic ws vs ≡ opposite (lexicographic vs ws)
unfolding lexicographic
lexicographic_turned text [] [] [] p q = refl
lexicographic_turned text [] [] (w ∷ ws) p q = absurd q
lexicographic_turned text [] (v ∷ vs) ws p q = absurd p
lexicographic_turned text (c ∷ cs) [] ws p q = absurd p
lexicographic_turned text (c ∷ cs) (v ∷ vs) [] p q = absurd q
lexicographic_turned text (c ∷ cs) (v ∷ vs) (w ∷ ws) p q =
    and_then-turned (compare_values-IsComparison c.ty) v w (lexicographic vs ws)
      (lexicographic ws vs) p.0 q.0 (lexicographic_turned text cs vs ws p.2 q.2)

lexicographic_trans :
    (text : Utf8) (cs : List Column) (us vs ws : List Value)
    → Typed text cs us
    → Typed text cs vs
    → Typed text cs ws
    → lexicographic us vs ≡ Ordering.lt
    → lexicographic vs ws ≡ Ordering.lt
    → lexicographic us ws ≡ Ordering.lt
unfolding lexicographic
lexicographic_trans text [] [] [] [] o p q e h = e
lexicographic_trans text [] [] [] (w ∷ ws) o p q e h = absurd q
lexicographic_trans text [] [] (v ∷ vs) ws o p q e h = absurd p
lexicographic_trans text [] (u ∷ us) vs ws o p q e h = absurd o
lexicographic_trans text (c ∷ cs) [] vs ws o p q e h = absurd o
lexicographic_trans text (c ∷ cs) (u ∷ us) [] ws o p q e h = absurd p
lexicographic_trans text (c ∷ cs) (u ∷ us) (v ∷ vs) [] o p q e h = absurd q
lexicographic_trans text (c ∷ cs) (u ∷ us) (v ∷ vs) (w ∷ ws) o p q e h =
    and_then_trans (compare_values-IsComparison c.ty) u v w (lexicographic us vs)
      (lexicographic vs ws) (lexicographic us ws) o.0 p.0 q.0
      (lexicographic_trans text cs us vs ws o.2 p.2 q.2) e h

pub lexicographic-IsComparison :
    (text : Utf8) (cs : List Column) → IsComparison (Typed text cs) lexicographic
lexicographic-IsComparison text cs = record {
  self = lexicographic_self text cs;
  same = lexicographic_same text cs;
  turned = lexicographic_turned text cs;
  trans = lexicographic_trans text cs;
}
