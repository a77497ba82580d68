-- ===== src/Table/Tuples/KeyOrder.antt =====
-- src/table/tuple.rs: the tuples that `TupleBuilder` makes for one schema are keys of a tree, in the order
-- and with the equality of `Comparand`.
use Prim.Native.Nat.{Ordering}
use mathlib.Core.Bool.{Bool-set, true≢false}
use mathlib.Core.Logic.{∥∥₁_elim, ∥∥₁_prop}
use mathlib.Core.Option.{some_inj, some-ne-none}
use mathlib.Core.HLevel.{Σ_prop_path}
use dbstorage.Base.{
  ℕ, ◌<◌, ◌^◌, ◌≡◌, ◌≢◌, refl, sym, ap, ◌∙◌, subst, Bool, true, false, Option, some, none, List, [],
  ◌∷◌, inl, inr, arith,
}
use dbstorage.Base.Comparisons.{opposite, Ordering-cases}
use dbstorage.Catalog.Schema.{Schema}
use dbstorage.Table.Value.{Value, Utf8}
use dbstorage.Table.Builder.{new, add_all, build}
use dbstorage.Table.Builder.Layout.{Laid, Typed, tuple_length}
use dbstorage.Table.Tuples.{with_bytes, cmp, eq, same_bytes}
use dbstorage.Table.Tuples.Keys.{is_less, comparand}
use dbstorage.Table.Tuples.Order.{lexicographic, cmp-build}
use dbstorage.Table.Tuples.Lexicographic.{lexicographic-IsComparison}
use dbstorage.BTree.Order.{Keys, IsOrder}

-- `TupleBuilder` makes the bytes of these values, which are of the schema's types.
abbrev pub Makes : Utf8 → Schema → List ℕ → List Value → Type 0
Makes text schema out vs =
    Typed text schema.columns vs × (tuple_length vs < 2 ^ 16) × (build (add_all new vs) ≡ some out)

-- The bytes of a tuple that `TupleBuilder` makes of some values; which, is left out.
abbrev pub TupleKey : Utf8 → Schema → Type 0
TupleKey text schema = (out : List ℕ) × ∥ ((vs : List Value) × Makes text schema out vs) ∥₁

-- The keys of a tree over a schema, for any function in the place of `Tuple::next`.
abbrev pub tuple_keys :
    (text : Utf8) (schema : Schema)
    → (TupleKey text schema → Option (TupleKey text schema))
    → Keys (TupleKey text schema)
tuple_keys text schema next = record {
  eq = λ a b. (comparand text schema).eq (with_bytes a.0) (with_bytes b.0);
  lt = λ a b. (comparand text schema).lt (with_bytes a.0) (with_bytes b.0);
  next = next;
  schema_size = (comparand text schema).schema_size;
}

known : {A : Type 0} {x y : Bool} → ∥ A ∥₁ → (A → x ≡ y) → x ≡ y
known {x = x} {y = y} t f = ∥∥₁_elim t (Bool-set x y) f

same_bytes_self : (xs : List ℕ) → same_bytes xs xs ≡ true
unfolding same_bytes
same_bytes_self [] = refl
same_bytes_self (x ∷ xs) = ground (arith, same_bytes_self xs)

same_bytes_same : (xs ys : List ℕ) → same_bytes xs ys ≡ true → xs ≡ ys
unfolding same_bytes
same_bytes_same [] [] e = refl
same_bytes_same [] (y ∷ ys) e = cc
same_bytes_same (x ∷ xs) [] e = cc
same_bytes_same (x ∷ xs) (y ∷ ys) e = ground (arith, same_bytes_same xs ys)

module _ (text : Utf8) (schema : Schema) (laid : Laid 0 schema.columns) where
  compared :
      (a b : List ℕ) (vs ws : List Value)
      → Makes text schema a vs
      → Makes text schema b ws
      → cmp text schema (with_bytes a) (with_bytes b) ≡ some (lexicographic vs ws)
  compared a b vs ws p q =
      let (a', b', e, f, h) = cmp-build text schema vs ws laid p.0 q.0 p.1 q.1 in
      let at : a' ≡ a = some_inj.0 (sym e ∙ p.2) in
      let bt : b' ≡ b = some_inj.0 (sym f ∙ q.2) in
      subst (λ x. cmp text schema (with_bytes a) (with_bytes x) ≡ some (lexicographic vs ws)) bt
        (subst (λ x. cmp text schema (with_bytes x) (with_bytes b') ≡ some (lexicographic vs ws)) at
          h)

  less :
      (a b : List ℕ) (vs ws : List Value)
      → Makes text schema a vs
      → Makes text schema b ws
      → is_less (cmp text schema (with_bytes a) (with_bytes b)) ≡ true
      → lexicographic vs ws ≡ Ordering.lt
  less a b vs ws p q h =
      decide (lexicographic vs ws) (sym (ap is_less (compared a b vs ws p q)) ∙ h)
    where
      decide : (o : Ordering) → is_less (some o) ≡ true → o ≡ Ordering.lt
      decide Ordering.lt e = refl
      decide Ordering.gt e = cc
      decide Ordering.eq e = cc

  irrefl :
      (a : List ℕ) (vs : List Value)
      → Makes text schema a vs
      → is_less (cmp text schema (with_bytes a) (with_bytes a)) ≡ false
  irrefl a vs p = ap is_less (
      compared a a vs vs p p
      ∙ ap some ((lexicographic-IsComparison text schema.columns).self vs p.0))

  trans :
      (a b c : List ℕ) (us vs ws : List Value)
      → Makes text schema a us
      → Makes text schema b vs
      → Makes text schema c ws
      → is_less (cmp text schema (with_bytes a) (with_bytes b)) ≡ true
      → is_less (cmp text schema (with_bytes b) (with_bytes c)) ≡ true
      → is_less (cmp text schema (with_bytes a) (with_bytes c)) ≡ true
  trans a b c us vs ws p q r e h = ap is_less (
      compared a c us ws p r
      ∙ ap some (
          (lexicographic-IsComparison text schema.columns).trans us vs ws p.0 q.0 r.0
            (less a b us vs p q e) (less b c vs ws q r h)))

  total :
      (a b : List ℕ) (vs ws : List Value)
      → Makes text schema a vs
      → Makes text schema b ws
      → eq (with_bytes a) (with_bytes b) ≡ false
      → is_less (cmp text schema (with_bytes a) (with_bytes b)) ≡ false
      → is_less (cmp text schema (with_bytes b) (with_bytes a)) ≡ true
  unfolding eq
  total a b vs ws p q ne ge =
      let order = lexicographic-IsComparison text schema.columns in
      let turned = compared b a ws vs q p ∙ ap some (order.turned vs ws p.0 q.0) in
      elim (Ordering-cases (lexicographic vs ws)) [
        | inl e ↦ absurd (true≢false (sym (ap is_less (compared a b vs ws p q ∙ ap some e)) ∙ ge))
        | inr (inl e) ↦ ap is_less (turned ∙ ap (λ o. some (opposite o)) e)
        | inr (inr e) ↦
            let values : vs ≡ ws = order.same vs ws p.0 q.0 e in
            let bytes : a ≡ b =
              some_inj.0 (sym p.2 ∙ ap (λ us. build (add_all new us)) values ∙ q.2) in
            absurd
              (true≢false (sym (subst (λ x. same_bytes a x ≡ true) bytes (same_bytes_self a)) ∙ ne))
      ]

  -- If the columns of a schema follow one another from offset 0 on, then of the tuples that `TupleBuilder`
  -- makes for it of values in range, comparing two as `Comparand`s never panics, their equality as
  -- `Comparand`s is that of their bytes, and their order is strict, transitive and total: they are keys as
  -- the tree's theorems ask for, whatever stands in the place of `Tuple::next`.
  pub tuple_keys-IsOrder :
      (next : TupleKey text schema → Option (TupleKey text schema))
      → ((a b : TupleKey text schema) → cmp text schema (with_bytes a.0) (with_bytes b.0) ≢ none)
        × IsOrder (tuple_keys text schema next)
  unfolding comparand eq
  tuple_keys-IsOrder next = (
    λ a b.
        ∥∥₁_elim a.1 (λ x y. hlevel)
          λ (vs, p).
            ∥∥₁_elim b.1 (λ x y. hlevel)
              λ (ws, q). λ h. some-ne-none _ (sym (compared a.0 b.0 vs ws p q) ∙ h),
    record {
      eq_iff = λ a b. (
        λ e. Σ_prop_path (λ _. ∥∥₁_prop) (same_bytes_same a.0 b.0 e),
        λ e. subst (λ x. same_bytes a.0 x.0 ≡ true) e (same_bytes_self a.0),
      );
      irrefl = λ a. known a.1 λ (vs, p). irrefl a.0 vs p;
      trans = λ a b c e h.
          known a.1 λ (us, p).
            known b.1 λ (vs, q). known c.1 λ (ws, r). trans a.0 b.0 c.0 us vs ws p q r e h;
      total = λ a b ne ge. known a.1 λ (vs, p). known b.1 λ (ws, q). total a.0 b.0 vs ws p q ne ge;
    },
  )
