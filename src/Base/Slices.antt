-- ===== src/Base/Slices.antt =====
-- Ranges of a buffer: Rust's `&buf[a..b]` and `buf[a..b].copy_from_slice(src)`, with the panic
-- of a range out of bounds or of a source of another length as `none`.
use Prim.Native.Nat.{ℕ, zero, suc, ◌+◌, ◌-◌, ◌≤◌}
use mathlib.Core.Path.{◌≡◌, refl, ap}
use mathlib.Core.Bool.{◌&&◌}
use mathlib.Core.List.{List, [], ◌∷◌}
use mathlib.Core.Option.{Option, none, some}
use native.Mathlib.Omega.{arith}
use dbstorage.Base.Tests.{leb, ◌==◌, if◌then◌else◌, le→leb, eq→==}
use dbstorage.Base.Lists.{length}

module _ {ℓ} {A : Type ℓ} where
  -- `n` elements from position `p`.
  unfoldable pub slice : List A → ℕ → ℕ → List A
  slice [] p n = []
  slice (x ∷ xs) zero zero = []
  slice (x ∷ xs) zero (suc n) = x ∷ slice xs zero n
  slice (x ∷ xs) (suc p) n = slice xs p n

  -- The elements from position `p` on are replaced by those of the last argument.
  unfoldable pub put : List A → ℕ → List A → List A
  put [] p ys = []
  put (x ∷ xs) zero [] = x ∷ xs
  put (x ∷ xs) zero (y ∷ ys) = y ∷ put xs zero ys
  put (x ∷ xs) (suc p) ys = x ∷ put xs p ys

  unfoldable pub range : List A → ℕ → ℕ → Option (List A)
  range buf a b = if leb a b && leb b (length buf) then some (slice buf a (b - a)) else none

  unfoldable pub copy_from_slice : List A → ℕ → ℕ → List A → Option (List A)
  copy_from_slice buf a b src =
      if leb a b && (leb b (length buf) && (length src == b - a))
      then some (put buf a src)
      else none

  pub length-put : (xs : List A) (p : ℕ) (ys : List A) → length (put xs p ys) ≡ length xs
  unfolding put
  length-put [] p ys = refl
  length-put (x ∷ xs) zero [] = refl
  length-put (x ∷ xs) zero (y ∷ ys) = ap suc (length-put xs zero ys)
  length-put (x ∷ xs) (suc p) ys = ap suc (length-put xs p ys)

  pub length-slice : (xs : List A) (p n : ℕ) → p + n ≤ length xs → length (slice xs p n) ≡ n
  unfolding slice
  length-slice [] p n h = omega arith
  length-slice (x ∷ xs) zero zero h = refl
  length-slice (x ∷ xs) zero (suc n) h = ap suc (length-slice xs zero n (omega arith))
  length-slice (x ∷ xs) (suc p) n h = length-slice xs p n (omega arith)

  -- What was put is read back.
  pub slice-put_self :
      (xs : List A) (p : ℕ) (ys : List A)
      → p + length ys ≤ length xs
      → slice (put xs p ys) p (length ys) ≡ ys
  unfolding slice put
  slice-put_self [] zero [] h = refl
  slice-put_self [] p (y ∷ ys) h = absurd (omega arith)
  slice-put_self [] (suc p) [] h = refl
  slice-put_self (x ∷ xs) zero [] h = refl
  slice-put_self (x ∷ xs) zero (y ∷ ys) h = ap (◌∷◌ y) (slice-put_self xs zero ys (omega arith))
  slice-put_self (x ∷ xs) (suc p) ys h = slice-put_self xs p ys (omega arith)

  -- A range that ends before the write is as it was.
  pub slice-put_before :
      (xs : List A) (p : ℕ) (ys : List A) (q n : ℕ)
      → q + n ≤ p
      → slice (put xs p ys) q n ≡ slice xs q n
  unfolding slice put
  slice-put_before [] p ys q n h = refl
  slice-put_before (x ∷ xs) zero [] q n h = refl
  slice-put_before (x ∷ xs) zero (y ∷ ys) zero zero h = refl
  slice-put_before (x ∷ xs) zero (y ∷ ys) zero (suc n) h = absurd (omega arith)
  slice-put_before (x ∷ xs) zero (y ∷ ys) (suc q) n h = absurd (omega arith)
  slice-put_before (x ∷ xs) (suc p) ys zero zero h = refl
  slice-put_before (x ∷ xs) (suc p) ys zero (suc n) h =
      ap (◌∷◌ x) (slice-put_before xs p ys zero n (omega arith))
  slice-put_before (x ∷ xs) (suc p) ys (suc q) n h = slice-put_before xs p ys q n (omega arith)

  -- A range that begins behind the write is as it was.
  pub slice-put_after :
      (xs : List A) (p : ℕ) (ys : List A) (q n : ℕ)
      → p + length ys ≤ q
      → slice (put xs p ys) q n ≡ slice xs q n
  unfolding slice put
  slice-put_after [] p ys q n h = refl
  slice-put_after (x ∷ xs) zero [] q n h = refl
  slice-put_after (x ∷ xs) zero (y ∷ ys) zero n h = absurd (omega arith)
  slice-put_after (x ∷ xs) zero (y ∷ ys) (suc q) n h = slice-put_after xs zero ys q n (omega arith)
  slice-put_after (x ∷ xs) (suc p) ys zero n h = absurd (omega arith)
  slice-put_after (x ∷ xs) (suc p) ys (suc q) n h = slice-put_after xs p ys q n (omega arith)

  -- In bounds neither operation panics.
  pub range_lem :
      (buf : List A) (a b : ℕ) → a ≤ b → b ≤ length buf → range buf a b ≡ some (slice buf a (b - a))
  unfolding range
  range_lem buf a b h k = rw (le→leb a b h, le→leb b (length buf) k)

  pub copy_from_slice_lem :
      (buf : List A) (a b : ℕ) (src : List A)
      → a + length src ≡ b
      → b ≤ length buf
      → copy_from_slice buf a b src ≡ some (put buf a src)
  unfolding copy_from_slice
  copy_from_slice_lem buf a b src h k =
      rw (
        le→leb a b (omega arith),
        le→leb b (length buf) k,
        eq→== (length src) (b - a) (omega arith),
      )

  pub copy_from_slice_inv :
      (buf : List A) (a b : ℕ) (src : List A) {out : List A}
      → copy_from_slice buf a b src ≡ some out
      → (a + length src ≡ b) × (b ≤ length buf) × (out ≡ put buf a src)
  unfolding copy_from_slice
  copy_from_slice_inv buf a b src h = ground arith

  pub range_inv :
      (buf : List A) (a b : ℕ) {out : List A}
      → range buf a b ≡ some out
      → (a ≤ b) × (b ≤ length buf) × (out ≡ slice buf a (b - a))
  unfolding range
  range_inv buf a b h = ground arith

  -- A range that lies apart from a write reads as before.
  pub range-put_before :
      (xs : List A) (p : ℕ) (ys : List A) (a b : ℕ)
      → a ≤ b
      → b ≤ p
      → range (put xs p ys) a b ≡ range xs a b
  unfolding range
  range-put_before xs p ys a b h k =
      rw (length-put xs p ys, slice-put_before xs p ys a (b - a) (omega arith))

  pub range-put_after :
      (xs : List A) (p : ℕ) (ys : List A) (a b : ℕ)
      → p + length ys ≤ a
      → range (put xs p ys) a b ≡ range xs a b
  unfolding range
  range-put_after xs p ys a b h = rw (length-put xs p ys, slice-put_after xs p ys a (b - a) h)

  -- A range that begins before a write sees it from the write's position on, up to the range's end.
  pub slice-put_within :
      (xs : List A) (p : ℕ) (ys : List A) (q n : ℕ)
      → q ≤ p
      → slice (put xs p ys) q n ≡ put (slice xs q n) (p - q) ys
  unfolding slice put
  slice-put_within [] p ys q n h = refl
  slice-put_within (x ∷ xs) zero [] zero zero h = refl
  slice-put_within (x ∷ xs) zero [] zero (suc n) h = refl
  slice-put_within (x ∷ xs) zero (y ∷ ys) zero zero h = refl
  slice-put_within (x ∷ xs) zero (y ∷ ys) zero (suc n) h =
      ap (◌∷◌ y) (slice-put_within xs zero ys zero n (omega arith))
  slice-put_within (x ∷ xs) zero ys (suc q) n h = absurd (omega arith)
  slice-put_within (x ∷ xs) (suc p) ys zero zero h = refl
  slice-put_within (x ∷ xs) (suc p) ys zero (suc n) h =
      let e : suc p - 0 ≡ suc (p - 0) = omega arith in
      rw e (ap (◌∷◌ x) (slice-put_within xs p ys zero n (omega arith)))
  slice-put_within (x ∷ xs) (suc p) ys (suc q) n h =
      let e : suc p - suc q ≡ p - q = omega arith in
      rw e (slice-put_within xs p ys q n (omega arith))
