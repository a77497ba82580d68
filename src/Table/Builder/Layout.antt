-- ===== src/Table/Builder/Layout.antt =====
-- src/table/tuple.rs: the layout of the bytes that `TupleBuilder` makes of values.
use mathlib.Core.List.{append_assoc, append-nil}
use dbstorage.Base.{
  ℕ, ◌+◌, ◌≤◌, ◌<◌, ◌≡◌, ◌%◌, ◌^◌, refl, sym, ap, ◌∙◌, true, some, List, [], ◌∷◌, ◌++◌, arith,
  length, length-append,
}
use dbstorage.Bytes.Words.{length-to_be_bytes}
use dbstorage.Bytes.Signed.{IsInt, int_bits}
use dbstorage.Catalog.Schema.{ColumnType, Column, size_of}
use dbstorage.Table.Value.{Value, Utf8, tiny_int, bool, int, big_int, varchar, bit_of, value_from}
use dbstorage.Table.Builder.{TupleBuilder, Variable, fixed, variable_of, add, add_all}
use dbstorage.Table.Builder.Laws.{Ascend, final_length}

-- The columns follow one another from an offset on.
abbrev pub Laid : ℕ → List Column → Type 0
Laid o [] = Unit {0}
Laid o (c ∷ cs) = (c.offset ≡ o) × Laid (o + size_of c.ty) cs

abbrev pub type_of : Value → ColumnType
type_of (tiny_int _) = ColumnType.tiny_int
type_of (bool _) = ColumnType.bool
type_of (int _) = ColumnType.int
type_of (big_int _) = ColumnType.big_int
type_of (varchar _) = ColumnType.varchar

-- An integer is in the range of its width; a text is UTF-8 and shorter than 64 KiB.
abbrev pub InRange : Utf8 → Value → Type 0
InRange text (tiny_int z) = IsInt 1 z
InRange text (bool b) = Unit {0}
InRange text (int z) = IsInt 4 z
InRange text (big_int z) = IsInt 8 z
InRange text (varchar v) = (length v < 2 ^ 16) × (text.is_utf8 v ≡ true)

abbrev pub Typed : Utf8 → List Column → List Value → Type 0
Typed text [] [] = Unit {0}
Typed text (c ∷ cs) (v ∷ vs) = (c.ty ≡ type_of v) × InRange text v × Typed text cs vs
Typed text _ _ = ⊥

-- Every column is read as its value.
abbrev pub Reads : Utf8 → List ℕ → List Column → List Value → Type 0
Reads text out [] [] = Unit {0}
Reads text out (c ∷ cs) (v ∷ vs) = (value_from text c out ≡ some v) × Reads text out cs vs
Reads text out _ _ = ⊥

-- The fixed parts of values, and their variable parts from an offset on.
unfoldable pub fixeds : List Value → List ℕ
fixeds [] = []
fixeds (v ∷ vs) = fixed v ++ fixeds vs

unfoldable pub variables : ℕ → List Value → List Variable
variables o [] = []
variables o (v ∷ vs) = variable_of o v ++ variables (o + length (fixed v)) vs

-- The bytes of the texts alone, and of a whole tuple.
abbrev pub text_length : Value → ℕ
text_length (varchar v) = length v
text_length (tiny_int _) = 0
text_length (bool _) = 0
text_length (int _) = 0
text_length (big_int _) = 0

abbrev pub tuple_length : List Value → ℕ
tuple_length [] = 0
tuple_length (v ∷ vs) = length (fixed v) + text_length v + tuple_length vs

pub fixed_size : (v : Value) → length (fixed v) ≡ size_of (type_of v)
unfolding fixed size_of
fixed_size (tiny_int z) = length-to_be_bytes 1 (int_bits 1 z)
fixed_size (bool b) = length-to_be_bytes 1 (bit_of b)
fixed_size (int z) = length-to_be_bytes 4 (int_bits 4 z)
fixed_size (big_int z) = length-to_be_bytes 8 (int_bits 8 z)
fixed_size (varchar v) = omega (arith, length-to_be_bytes 2 (length v % 2 ^ 16))

pub varchar_size : (v : List ℕ) → length (fixed (varchar v)) ≡ 4
unfolding fixed
varchar_size v = omega (arith, length-to_be_bytes 2 (length v % 2 ^ 16))

builder_eq :
    (xs ys : List ℕ) (us vs : List Variable)
    → xs ≡ ys
    → us ≡ vs
    → ◌≡◌ {A = TupleBuilder}
        (record { bytes = xs; variable = us })
        (record { bytes = ys; variable = vs })
builder_eq xs ys us vs e q = λ i. record { bytes = e i; variable = q i }

pub add_all_lem :
    (b : TupleBuilder) (vs : List Value)
    → add_all b vs ≡ record {
      bytes = b.bytes ++ fixeds vs;
      variable = b.variable ++ variables (length b.bytes) vs;
    }
unfolding add_all fixeds variables add
add_all_lem b [] = builder_eq _ _ _ _ (sym (append-nil b.bytes)) (sym (append-nil b.variable))
add_all_lem b (v ∷ vs) =
    add_all_lem (add b v) vs
    ∙ builder_eq _ _ _ _ (append_assoc b.bytes (fixed v) (fixeds vs)) (
        ap (λ n. (b.variable ++ variable_of (length b.bytes) v) ++ variables n vs)
          (length-append b.bytes (fixed v))
        ∙ append_assoc b.variable (variable_of (length b.bytes) v)
            (variables (length b.bytes + length (fixed v)) vs))

Ascend-behind :
    (lo o : ℕ) (v : Value) (vs : List Value)
    → Ascend lo (o + length (fixed v) + length (fixeds vs)) (variables (o + length (fixed v)) vs)
    → Ascend lo (o + length (fixed v ++ fixeds vs)) (variables (o + length (fixed v)) vs)
Ascend-behind lo o v vs h =
    let e : o + length (fixed v ++ fixeds vs) ≡ o + length (fixed v) + length (fixeds vs) =
      omega (arith, length-append (fixed v) (fixeds vs)) in
    rw e h

pub Ascend-variables :
    (lo o : ℕ) (vs : List Value) → lo ≤ o → Ascend lo (o + length (fixeds vs)) (variables o vs)
unfolding fixeds variables variable_of
Ascend-variables lo o [] h = omega arith
Ascend-variables lo o (tiny_int z ∷ vs) h =
    Ascend-behind lo o (tiny_int z) vs
      (Ascend-variables lo (o + length (fixed (tiny_int z))) vs (omega arith))
Ascend-variables lo o (bool z ∷ vs) h =
    Ascend-behind lo o (bool z) vs
      (Ascend-variables lo (o + length (fixed (bool z))) vs (omega arith))
Ascend-variables lo o (int z ∷ vs) h =
    Ascend-behind lo o (int z) vs
      (Ascend-variables lo (o + length (fixed (int z))) vs (omega arith))
Ascend-variables lo o (big_int z ∷ vs) h =
    Ascend-behind lo o (big_int z) vs
      (Ascend-variables lo (o + length (fixed (big_int z))) vs (omega arith))
Ascend-variables lo o (varchar z ∷ vs) h = (
  h,
  Ascend-behind (o + 4) o (varchar z) vs (
      Ascend-variables (o + 4) (o + length (fixed (varchar z))) vs (omega (arith, varchar_size z))),
)

final_length-append :
    (n : ℕ) (us vs : List Variable)
    → final_length n (us ++ vs) ≡ final_length (final_length n us) vs
final_length-append n [] vs = refl
final_length-append n (u ∷ us) vs = final_length-append (n + length u.content) us vs

final_length-variable_of :
    (n o : ℕ) (v : Value) → final_length n (variable_of o v) ≡ n + text_length v
unfolding variable_of
final_length-variable_of n o (tiny_int z) = omega arith
final_length-variable_of n o (bool z) = omega arith
final_length-variable_of n o (int z) = omega arith
final_length-variable_of n o (big_int z) = omega arith
final_length-variable_of n o (varchar z) = refl

pub final_length-variables :
    (n o : ℕ) (vs : List Value)
    → final_length n (variables o vs) + length (fixeds vs) ≡ n + tuple_length vs
unfolding fixeds variables
final_length-variables n o [] = omega arith
final_length-variables n o (v ∷ vs) =
    let o' : ℕ = o + length (fixed v) in
    omega (
      arith,
      final_length-append n (variable_of o v) (variables o' vs),
      final_length-variable_of n o v,
      ap (λ m. final_length m (variables o' vs)) (final_length-variable_of n o v),
      final_length-variables (n + text_length v) o' vs,
      length-append (fixed v) (fixeds vs),
    )
