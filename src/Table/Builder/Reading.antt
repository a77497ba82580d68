-- ===== src/Table/Builder/Reading.antt =====
-- src/table/tuple.rs: a value is read back from its place among the bytes that `TupleBuilder` makes.
use mathlib.Core.List.{append_assoc}
use dbstorage.Base.{
  ℕ, ◌+◌, ◌≤◌, ◌<◌, ◌≡◌, ◌≢◌, ◌%◌, ◌^◌, refl, sym, ap, ◌∙◌, true, false, some, List, [], ◌∷◌, ◌++◌,
  arith, length, length-append, All, All-append, All-append_right, All-mono, range, range_inv,
  range-append_middle, le→leb, inl,
}
use dbstorage.Bytes.Words.{to_be_bytes, length-to_be_bytes, from_be_bytes-to_be_bytes}
use dbstorage.Bytes.Signed.{int_bits, int_bits-lt, int_of_bits-int_bits}
use dbstorage.Catalog.Schema.{ColumnType, Column, size_of}
use dbstorage.Table.Value.{
  Value, Utf8, tiny_int, bool, int, big_int, varchar, bit_of, value_from, value_of, value_bytes,
}
use dbstorage.Table.Builder.{Variable, fixed, variable_of}
use dbstorage.Table.Builder.Laws.{Apart, Stored, Built, Ascend-Apart}
use dbstorage.Table.Builder.Layout.{
  type_of, InRange, fixeds, variables, fixed_size, varchar_size, Ascend-variables,
}

-- A value that is not a text: its bytes are those of its column.
plain :
    (text : Utf8) (c : Column) (t : ColumnType) (out b : List ℕ)
    → c.ty ≡ t
    → t ≢ ColumnType.varchar
    → range out c.offset (c.offset + size_of t) ≡ some b
    → value_from text c out ≡ value_of text t b
unfolding value_from value_bytes
plain text c ColumnType.varchar out b e ne h = absurd (ne refl)
plain text c ColumnType.tiny_int out b e ne h =
    let (_, le, _) = range_inv out c.offset (c.offset + size_of ColumnType.tiny_int) h in
    rw (e, le→leb (c.offset + size_of ColumnType.tiny_int) (length out) le, h) refl
plain text c ColumnType.bool out b e ne h =
    let (_, le, _) = range_inv out c.offset (c.offset + size_of ColumnType.bool) h in
    rw (e, le→leb (c.offset + size_of ColumnType.bool) (length out) le, h) refl
plain text c ColumnType.int out b e ne h =
    let (_, le, _) = range_inv out c.offset (c.offset + size_of ColumnType.int) h in
    rw (e, le→leb (c.offset + size_of ColumnType.int) (length out) le, h) refl
plain text c ColumnType.big_int out b e ne h =
    let (_, le, _) = range_inv out c.offset (c.offset + size_of ColumnType.big_int) h in
    rw (e, le→leb (c.offset + size_of ColumnType.big_int) (length out) le, h) refl

value_of-fixed :
    (text : Utf8) (v : Value)
    → InRange text v
    → type_of v ≢ ColumnType.varchar
    → value_of text (type_of v) (fixed v) ≡ some v
unfolding value_of fixed bit_of
value_of-fixed text (tiny_int z) r ne =
    rw
      (
        length-to_be_bytes 1 (int_bits 1 z),
        from_be_bytes-to_be_bytes 1 (int_bits 1 z) (int_bits-lt 1 z r),
        int_of_bits-int_bits 1 z r,
      )
      refl
value_of-fixed text (bool true) r ne =
    rw (length-to_be_bytes 1 1, from_be_bytes-to_be_bytes 1 1 (omega arith)) refl
value_of-fixed text (bool false) r ne =
    rw (length-to_be_bytes 1 0, from_be_bytes-to_be_bytes 1 0 (omega arith)) refl
value_of-fixed text (int z) r ne =
    rw
      (
        length-to_be_bytes 4 (int_bits 4 z),
        from_be_bytes-to_be_bytes 4 (int_bits 4 z) (int_bits-lt 4 z r),
        int_of_bits-int_bits 4 z r,
      )
      refl
value_of-fixed text (big_int z) r ne =
    rw
      (
        length-to_be_bytes 8 (int_bits 8 z),
        from_be_bytes-to_be_bytes 8 (int_bits 8 z) (int_bits-lt 8 z r),
        int_of_bits-int_bits 8 z r,
      )
      refl
value_of-fixed text (varchar w) r ne = absurd (ne refl)

-- A value stands behind the values before it.
module _ (text : Utf8) (out pre : List ℕ) (prevars : List Variable) (v : Value) (vs : List Value)
    (built : Built
      (pre ++ (fixed v ++ fixeds vs))
      (prevars ++ (variable_of (length pre) v ++ variables (length pre + length (fixed v)) vs))
      out)
    (behind : All (λ u. u.offset_offset + 4 ≤ length pre) prevars) where
  kept_piece :
      (a b : ℕ)
      → length pre ≤ a
      → a ≤ b
      → b ≤ length pre + length (fixed v)
      → All (Apart a b) (variable_of (length pre) v)
      → range out a b ≡ range (pre ++ (fixed v ++ fixeds vs)) a b
  kept_piece a b h k l d =
      let end : ℕ = length pre + length (fixed v) in
      built.kept a b k
        (omega
          (arith, length-append pre (fixed v ++ fixeds vs), length-append (fixed v) (fixeds vs)))
        (All-append _ prevars _ (All-mono _ _ prevars (λ u q. inl (omega arith)) behind) (
          All-append _ (variable_of (length pre) v) _ d (
            Ascend-Apart end (end + length (fixeds vs)) _ a b
              (Ascend-variables end end vs (omega arith)) l)))

  piece :
      All (Apart (length pre) (length pre + length (fixed v))) (variable_of (length pre) v)
      → range out (length pre) (length pre + length (fixed v)) ≡ some (fixed v)
  piece d =
      kept_piece (length pre) (length pre + length (fixed v)) (omega arith) (omega arith)
        (omega arith) d
      ∙ range-append_middle pre (fixed v) (fixeds vs) (length pre) _ refl refl

  pub read_plain :
      (c : Column)
      → type_of v ≢ ColumnType.varchar
      → All (Apart (length pre) (length pre + length (fixed v))) (variable_of (length pre) v)
      → c.offset ≡ length pre
      → c.ty ≡ type_of v
      → InRange text v
      → value_from text c out ≡ some v
  read_plain c ne d at e r =
      let place : range out c.offset (c.offset + size_of (type_of v)) ≡ some (fixed v) =
        rw (at, ← fixed_size v) (piece d) in
      plain text c (type_of v) out (fixed v) e ne place ∙ value_of-fixed text v r ne

-- A text stands behind the values before it.
module _ (text : Utf8) (out pre : List ℕ) (prevars : List Variable) (w : List ℕ) (vs : List Value)
    (built : Built
      (pre ++ (fixed (varchar w) ++ fixeds vs))
      (prevars
        ++ (variable_of (length pre) (varchar w)
            ++ variables (length pre + length (fixed (varchar w))) vs))
      out)
    (behind : All (λ u. u.offset_offset + 4 ≤ length pre) prevars) (short : length w < 2 ^ 16) where
  length_read : range out (length pre + 2) (length pre + 4) ≡ some (to_be_bytes 2 (length w))
  unfolding fixed variable_of
  length_read =
      let o : ℕ = length pre in
      let size : List ℕ = to_be_bytes 2 (length w % 2 ^ 16) in
      kept_piece text out pre prevars (varchar w) vs built behind (o + 2) (o + 4) (omega arith)
        (omega arith) (omega (arith, varchar_size w)) (inl (omega arith), tt)
      ∙ ap (λ l. range l (o + 2) (o + 4)) (sym (append_assoc pre (0 ∷ 0 ∷ []) (size ++ fixeds vs)))
      ∙ range-append_middle (pre ++ (0 ∷ 0 ∷ [])) size (fixeds vs) (o + 2) (o + 4)
          (omega (arith, length-append pre (0 ∷ 0 ∷ [])))
          (omega (arith, length-to_be_bytes 2 (length w % 2 ^ 16)))
      ∙ ap (λ n. some (to_be_bytes 2 n)) (omega arith)

  text-Stored : Stored out (record { content = w; offset_offset = length pre })
  unfolding variable_of
  text-Stored = (All-append_right _ prevars _ built.stored).0

  pub text_read :
      (c : Column)
      → c.ty ≡ ColumnType.varchar
      → c.offset ≡ length pre
      → text.is_utf8 w ≡ true
      → value_from text c out ≡ some (varchar w)
  unfolding value_from value_bytes value_of
  text_read c e q u =
      let (p, small, at, fits, content) = text-Stored in
      let decoded = from_be_bytes-to_be_bytes 2 p (omega arith) in
      let size = from_be_bytes-to_be_bytes 2 (length w) (omega arith) in
      rw (e, q, at, length_read, decoded, size, le→leb (p + length w) (length out) fits, content, u)
        refl
