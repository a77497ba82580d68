-- ===== src/Table/Builder/RoundTrip.antt =====
-- src/table/tuple.rs: the values of a tuple are read back from the bytes that `TupleBuilder` makes of them.
use mathlib.Core.List.{append_assoc}
use dbstorage.Base.{
  ℕ, ◌+◌, ◌≤◌, ◌<◌, ◌≡◌, ◌^◌, sym, ap, ◌∙◌, subst, some, List, [], ◌∷◌, ◌++◌, arith, length,
  length-append, All, All-append, All-mono,
}
use dbstorage.Catalog.Schema.{Column, size_of}
use dbstorage.Table.Value.{Value, Utf8, tiny_int, bool, int, big_int, varchar, value_from}
use dbstorage.Table.Builder.{new, Variable, fixed, variable_of, add_all, build}
use dbstorage.Table.Builder.Laws.{Ascend, Built, build_from-Built}
use dbstorage.Table.Builder.Layout.{
  Laid, type_of, InRange, Typed, Reads, fixeds, variables, tuple_length, fixed_size, varchar_size,
  add_all_lem, Ascend-variables, final_length-variables,
}
use dbstorage.Table.Builder.Reading.{read_plain, text_read}

-- The column at the end of the bytes before is read as the value added there.
read_value :
    (text : Utf8) (out pre : List ℕ) (prevars : List Variable) (c : Column) (v : Value)
    (vs : List Value)
    → Built
        (pre ++ (fixed v ++ fixeds vs))
        (prevars ++ (variable_of (length pre) v ++ variables (length pre + length (fixed v)) vs))
        out
    → All (λ u. u.offset_offset + 4 ≤ length pre) prevars
    → c.offset ≡ length pre
    → c.ty ≡ type_of v
    → InRange text v
    → value_from text c out ≡ some v
unfolding variable_of
read_value text out pre prevars c (varchar w) vs built behind at e r =
    text_read text out pre prevars w vs built behind r.0 c e at r.1
read_value text out pre prevars c (tiny_int z) vs built behind at e r =
    read_plain text out pre prevars (tiny_int z) vs built behind c (λ q. cc) tt at e r
read_value text out pre prevars c (bool z) vs built behind at e r =
    read_plain text out pre prevars (bool z) vs built behind c (λ q. cc) tt at e r
read_value text out pre prevars c (int z) vs built behind at e r =
    read_plain text out pre prevars (int z) vs built behind c (λ q. cc) tt at e r
read_value text out pre prevars c (big_int z) vs built behind at e r =
    read_plain text out pre prevars (big_int z) vs built behind c (λ q. cc) tt at e r

behind-variable_of :
    (o : ℕ) (v : Value) → All (λ u. u.offset_offset + 4 ≤ o + length (fixed v)) (variable_of o v)
unfolding variable_of
behind-variable_of o (tiny_int z) = tt
behind-variable_of o (bool z) = tt
behind-variable_of o (int z) = tt
behind-variable_of o (big_int z) = tt
behind-variable_of o (varchar w) = (omega (arith, varchar_size w), tt)

reads :
    (text : Utf8) (out pre : List ℕ) (prevars : List Variable) (cs : List Column) (vs : List Value)
    → Built (pre ++ fixeds vs) (prevars ++ variables (length pre) vs) out
    → All (λ u. u.offset_offset + 4 ≤ length pre) prevars
    → Laid (length pre) cs
    → Typed text cs vs
    → Reads text out cs vs
unfolding fixeds variables
reads text out pre prevars [] [] built behind laid typed = tt
reads text out pre prevars [] (v ∷ vs) built behind laid typed = absurd typed
reads text out pre prevars (c ∷ cs) [] built behind laid typed = absurd typed
reads text out pre prevars (c ∷ cs) (v ∷ vs) built behind laid typed =
    let o : ℕ = length pre in
    let end : length (pre ++ fixed v) ≡ o + size_of c.ty =
      length-append pre (fixed v) ∙ ap (◌+◌ o) (fixed_size v ∙ ap size_of (sym typed.0)) in
    let built' : Built ((pre ++ fixed v) ++ fixeds vs)
        ((prevars ++ variable_of o v) ++ variables (length (pre ++ fixed v)) vs) out =
      rw
        (
          append_assoc pre (fixed v) (fixeds vs),
          length-append pre (fixed v),
          append_assoc prevars (variable_of o v) (variables (o + length (fixed v)) vs),
        )
        built in
    let behind' : All (λ u. u.offset_offset + 4 ≤ length (pre ++ fixed v))
        (prevars ++ variable_of o v) =
      rw (length-append pre (fixed v)) (
        All-append _ prevars _ (All-mono _ _ prevars (λ u q. omega arith) behind)
          (behind-variable_of o v)) in
    (
      read_value text out pre prevars c v vs built behind laid.0 typed.0 typed.1,
      reads text out (pre ++ fixed v) (prevars ++ variable_of o v) cs vs built' behind'
          (subst (λ n. Laid n cs) (sym end) laid.1) typed.2,
    )

-- If the columns of a schema follow one another from offset 0 on, the values are of the columns' types and in
-- range, and all their bytes together are below 64 KiB, then `build` after an `add` of every value does not
-- panic, and `Value::from` reads from its bytes every value in the value's column.
pub build-value_from :
    (text : Utf8) (columns : List Column) (values : List Value)
    → Laid 0 columns
    → Typed text columns values
    → tuple_length values < 2 ^ 16
    → (out : List ℕ) × (build (add_all new values) ≡ some out) × Reads text out columns values
unfolding build new
build-value_from text columns values laid typed short =
    let whole = final_length-variables (length (fixeds values)) 0 values in
    let n : 0 + length (fixeds values) ≡ length (fixeds values) = omega arith in
    let asc : Ascend 0 (length (fixeds values)) (variables 0 values) =
      subst (λ m. Ascend 0 m (variables 0 values)) n (Ascend-variables 0 0 values (omega arith)) in
    let (out, e, built) =
      build_from-Built (fixeds values) 0 (variables 0 values) (length (fixeds values)) asc
        (omega arith) (omega arith) in
    (
      out,
      ap build (add_all_lem new values) ∙ e,
      reads text out [] [] columns values built tt laid typed,
    )
