-- ===== src/Table/Builder/Laws.antt =====
-- The variable part of a tuple: where `build` puts it.
use dbstorage.Base.{
  ℕ, ◌+◌, ◌-◌, ◌≤◌, ◌<◌, ◌≡◌, ◌%◌, ◌^◌, refl, ap, ◌∙◌, ◌⊎◌, inl, inr, some, List, [], ◌∷◌, ◌++◌,
  arith, length, length-append, All, range, slice, put, copy_from_slice_lem, range_lem, length-put,
  slice-put_self, range-put_before, range-put_after, range-append_before, range-append_end,
}
use dbstorage.Base.Panic.{◌>>=◌}
use dbstorage.Bytes.Words.{to_be_bytes, length-to_be_bytes}
use dbstorage.Table.Builder.{Variable, build_from}

-- The range of two bytes that a variable's offset is written to is apart from a range.
abbrev pub Apart : ℕ → ℕ → Variable → Type 0
Apart a b v = (v.offset_offset + 2 ≤ a) ⊎ (b ≤ v.offset_offset)

-- The places for the offsets ascend, four bytes apart, and lie below `n`.
abbrev pub Ascend : ℕ → ℕ → List Variable → Type 0
Ascend lo n [] = lo ≤ n
Ascend lo n (v ∷ vs) = (lo ≤ v.offset_offset) × Ascend (v.offset_offset + 4) n vs

-- The length of the bytes once all variables are there.
abbrev pub final_length : ℕ → List Variable → ℕ
final_length n [] = n
final_length n (v ∷ vs) = final_length (n + length v.content) vs

-- A variable's offset stands in its place, and its bytes stand at the offset.
abbrev pub Stored : List ℕ → Variable → Type 0
Stored out v =
    (p : ℕ) × (p < 2 ^ 16)
    × (range out v.offset_offset (v.offset_offset + 2) ≡ some (to_be_bytes 2 p))
    × (p + length v.content ≤ length out)
    × (range out p (p + length v.content) ≡ some v.content)

pub Ascend-Apart :
    (lo n : ℕ) (vs : List Variable) (a b : ℕ) → Ascend lo n vs → b ≤ lo → All (Apart a b) vs
Ascend-Apart lo n [] a b h k = tt
Ascend-Apart lo n (v ∷ vs) a b h k =
    (inr (omega arith), Ascend-Apart (v.offset_offset + 4) n vs a b h.1 (omega arith))

Ascend-le : (lo n : ℕ) (vs : List Variable) → Ascend lo n vs → lo ≤ n
Ascend-le lo n [] h = h
Ascend-le lo n (v ∷ vs) h = omega (arith, Ascend-le (v.offset_offset + 4) n vs h.1)

Ascend-below :
    (lo n : ℕ) (vs : List Variable) (a b : ℕ) → Ascend lo n vs → n ≤ a → All (Apart a b) vs
Ascend-below lo n [] a b h k = tt
Ascend-below lo n (v ∷ vs) a b h k =
    let below = Ascend-le (v.offset_offset + 4) n vs h.1 in
    (inl (omega arith), Ascend-below (v.offset_offset + 4) n vs a b h.1 k)

Ascend-above : (lo n m : ℕ) (vs : List Variable) → Ascend lo n vs → n ≤ m → Ascend lo m vs
Ascend-above lo n m [] h k = omega arith
Ascend-above lo n m (v ∷ vs) h k = (h.0, Ascend-above (v.offset_offset + 4) n m vs h.1 k)

final_length-le : (n : ℕ) (vs : List Variable) → n ≤ final_length n vs
final_length-le n [] = omega arith
final_length-le n (v ∷ vs) = omega (arith, final_length-le (n + length v.content) vs)

-- What `build` leaves: ranges of the fixed part apart from the offsets are as before, and every variable
-- is stored.
pub record Built (bytes : List ℕ) (vs : List Variable) (out : List ℕ) : Type 0 where
  pub longer : length bytes ≤ length out
  pub kept :
      (a b : ℕ) → a ≤ b → b ≤ length bytes → All (Apart a b) vs → range out a b ≡ range bytes a b
  pub stored : All (Stored out) vs

-- One variable is stored and those behind it are built.
module _ (bytes : List ℕ) (lo n : ℕ) (v : Variable) (vs : List Variable)
    (asc : Ascend lo n (v ∷ vs)) (le : n ≤ length bytes)
    (short : length bytes + length v.content < 2 ^ 16) where
  mark : List ℕ
  mark = to_be_bytes 2 (length bytes % 2 ^ 16)

  marked : List ℕ
  marked = put bytes v.offset_offset mark

  room : (v.offset_offset + 4 ≤ n) × (length mark ≡ 2) × (length marked ≡ length bytes)
  unfolding mark marked
  room = (
    Ascend-le (v.offset_offset + 4) n vs asc.1,
    length-to_be_bytes 2 (length bytes % 2 ^ 16),
    length-put bytes v.offset_offset (to_be_bytes 2 (length bytes % 2 ^ 16)),
  )

  step_lem : build_from bytes (v ∷ vs) ≡ build_from (marked ++ v.content) vs
  unfolding build_from mark marked
  step_lem =
      ap (λ o. o >>= λ bytes'. build_from (bytes' ++ v.content) vs)
        (copy_from_slice_lem bytes v.offset_offset (v.offset_offset + 2) mark (omega (arith, room))
          (omega (arith, room)))

  module _ (out : List ℕ) (built : Built (marked ++ v.content) vs out) where
    size : length (marked ++ v.content) ≡ length bytes + length v.content
    size = omega (arith, room, length-append marked v.content)

    kept-Apart :
        (a b : ℕ)
        → a ≤ b
        → b ≤ length bytes
        → All (Apart a b) (v ∷ vs)
        → range out a b ≡ range bytes a b
    unfolding marked
    kept-Apart a b h k d =
        built.kept a b h (omega (arith, size)) d.1
        ∙ range-append_before marked v.content a b h (omega (arith, room))
        ∙ unmarked d.0
      where
        unmarked : Apart a b v → range marked a b ≡ range bytes a b
        unmarked (inl before) = range-put_after bytes v.offset_offset mark a b (omega (arith, room))
        unmarked (inr behind) = range-put_before bytes v.offset_offset mark a b h behind

    mark_read :
        range out v.offset_offset (v.offset_offset + 2) ≡ some (to_be_bytes 2 (length bytes))
    unfolding marked mark
    mark_read =
        let o : ℕ = v.offset_offset in
        let whole : length bytes % 2 ^ 16 ≡ length bytes = omega arith in
        let width : o + 2 - o ≡ length mark = omega (arith, room) in
        built.kept o (o + 2) (omega arith) (omega (arith, size, room))
          (Ascend-Apart (o + 4) n vs o (o + 2) asc.1 (omega arith))
        ∙ range-append_before marked v.content o (o + 2) (omega arith) (omega (arith, room))
        ∙ range_lem marked o (o + 2) (omega arith) (omega (arith, room))
        ∙ ap some (
            ap (slice marked o) width
            ∙ slice-put_self bytes o mark (omega (arith, room))
            ∙ ap (to_be_bytes 2) whole)

    content_read : range out (length bytes) (length bytes + length v.content) ≡ some v.content
    content_read =
        let p : ℕ = length bytes in
        built.kept p (p + length v.content) (omega arith) (omega (arith, size))
          (Ascend-below (v.offset_offset + 4) n vs p (p + length v.content) asc.1 le)
        ∙ range-append_end marked v.content p (p + length v.content) (omega (arith, room)) refl

    step-Built : Built bytes (v ∷ vs) out
    step-Built = record {
      longer = omega (arith, size, built.longer);
      kept = kept-Apart;
      stored = (
        (length bytes, omega arith, mark_read, omega (arith, size, built.longer), content_read),
        built.stored,
      );
    }

-- If the places ascend below the fixed part's end and the tuple stays below 64 KiB, `build` does not panic:
-- it leaves the fixed part but for the places, and stores every variable.
pub build_from-Built :
    (bytes : List ℕ) (lo : ℕ) (vs : List Variable) (n : ℕ)
    → Ascend lo n vs
    → n ≤ length bytes
    → final_length (length bytes) vs < 2 ^ 16
    → (out : List ℕ) × (build_from bytes vs ≡ some out) × Built bytes vs out
unfolding build_from
build_from-Built bytes lo [] n asc le short =
    (bytes, refl, record { longer = omega arith; kept = λ a b h k d. refl; stored = tt })
build_from-Built bytes lo (v ∷ vs) n asc le short =
    let small = final_length-le (length bytes + length v.content) vs in
    let fits : length bytes + length v.content < 2 ^ 16 = omega arith in
    let next = marked bytes lo n v vs asc le fits ++ v.content in
    let len : length next ≡ length bytes + length v.content = omega (
      arith,
      room bytes lo n v vs asc le fits,
      length-append (marked bytes lo n v vs asc le fits) v.content,
    ) in
    let (out, e, built) =
      build_from-Built next (v.offset_offset + 4) vs n asc.1 (omega arith) (rw len short) in
    (
      out,
      step_lem bytes lo n v vs asc le fits ∙ e,
      step-Built bytes lo n v vs asc le fits out built,
    )
