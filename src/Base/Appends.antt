-- ===== src/Base/Appends.antt =====
-- Ranges of a buffer that is put together from parts, and writes into one.
use Prim.Native.Nat.{ℕ, zero, suc, ◌+◌, ◌-◌, ◌≤◌}
use mathlib.Core.Path.{◌≡◌, refl, sym, ap, ◌∙◌}
use mathlib.Core.List.{List, [], ◌∷◌, ◌++◌, append_assoc}
use mathlib.Core.Option.{some}
use native.Mathlib.Omega.{arith}
use dbstorage.Base.Lists.{drop, length, length-append}
use dbstorage.Base.Slices.{
  slice, put, range, copy_from_slice, length-put, slice-put_self, slice-put_before, slice-put_after,
  range_lem, copy_from_slice_lem,
}

module _ {ℓ} {A : Type ℓ} where
  slice-append_before :
      (xs ys : List A) (p n : ℕ) → p + n ≤ length xs → slice (xs ++ ys) p n ≡ slice xs p n
  unfolding slice
  slice-append_before [] [] p n h = refl
  slice-append_before [] (y ∷ ys) zero zero h = refl
  slice-append_before [] (y ∷ ys) zero (suc n) h = absurd (omega arith)
  slice-append_before [] (y ∷ ys) (suc p) n h = absurd (omega arith)
  slice-append_before (x ∷ xs) ys zero zero h = refl
  slice-append_before (x ∷ xs) ys zero (suc n) h =
      ap (◌∷◌ x) (slice-append_before xs ys zero n (omega arith))
  slice-append_before (x ∷ xs) ys (suc p) n h = slice-append_before xs ys p n (omega arith)

  slice_all : (xs : List A) → slice xs 0 (length xs) ≡ xs
  unfolding slice
  slice_all [] = refl
  slice_all (x ∷ xs) = ap (◌∷◌ x) (slice_all xs)

  pub slice-append_left : (xs ys : List A) → slice (xs ++ ys) 0 (length xs) ≡ xs
  unfolding slice
  slice-append_left [] [] = refl
  slice-append_left [] (y ∷ ys) = refl
  slice-append_left (x ∷ xs) ys = ap (◌∷◌ x) (slice-append_left xs ys)

  pub slice-append_right : (xs ys : List A) → slice (xs ++ ys) (length xs) (length ys) ≡ ys
  unfolding slice
  slice-append_right [] ys = slice_all ys
  slice-append_right (x ∷ xs) ys = slice-append_right xs ys

module _ {ℓ} {A : Type ℓ} where
  -- A range within the first part of an append, and the second part.
  pub range-append_before :
      (xs ys : List A) (a b : ℕ) → a ≤ b → b ≤ length xs → range (xs ++ ys) a b ≡ range xs a b
  range-append_before xs ys a b h k =
      range_lem (xs ++ ys) a b h (omega (arith, length-append xs ys))
      ∙ ap some (slice-append_before xs ys a (b - a) (omega arith))
      ∙ sym (range_lem xs a b h k)

  pub range-append_end :
      (xs ys : List A) (a b : ℕ)
      → a ≡ length xs
      → b ≡ a + length ys
      → range (xs ++ ys) a b ≡ some ys
  range-append_end xs ys a b h k =
      let width : b - a ≡ length ys = omega arith in
      range_lem (xs ++ ys) a b (omega arith) (omega (arith, length-append xs ys))
      ∙ ap some (
          ap (slice (xs ++ ys) a) width
          ∙ ap (λ p. slice (xs ++ ys) p (length ys)) h
          ∙ slice-append_right xs ys)

  pub range-append_middle :
      (xs ys zs : List A) (a b : ℕ)
      → a ≡ length xs
      → b ≡ a + length ys
      → range (xs ++ (ys ++ zs)) a b ≡ some ys
  range-append_middle xs ys zs a b h k =
      ap (λ l. range l a b) (sym (append_assoc xs ys zs))
      ∙ range-append_before (xs ++ ys) zs a b (omega arith) (omega (arith, length-append xs ys))
      ∙ range-append_end xs ys a b h k

module _ {ℓ} {A : Type ℓ} where
  -- A write just behind a first part.
  put-append :
      (xs ys zs : List A)
      → length zs ≤ length ys
      → put (xs ++ ys) (length xs) zs ≡ xs ++ (zs ++ drop (length zs) ys)
  unfolding put
  put-append [] [] [] h = refl
  put-append [] [] (z ∷ zs) h = absurd (omega arith)
  put-append [] (y ∷ ys) [] h = refl
  put-append [] (y ∷ ys) (z ∷ zs) h = ap (◌∷◌ z) (put-append [] ys zs (omega arith))
  put-append (x ∷ xs) ys zs h = ap (◌∷◌ x) (put-append xs ys zs h)

  -- It goes to the front of the rest.
  pub copy-append :
      (xs ys zs : List A) (a b : ℕ)
      → a ≡ length xs
      → b ≡ a + length zs
      → length zs ≤ length ys
      → copy_from_slice (xs ++ ys) a b zs ≡ some (xs ++ (zs ++ drop (length zs) ys))
  copy-append xs ys zs a b h k le =
      copy_from_slice_lem (xs ++ ys) a b zs (omega arith) (omega (arith, length-append xs ys))
      ∙ ap some (ap (λ p. put (xs ++ ys) p zs) h ∙ put-append xs ys zs le)

  pub drop-append : (xs ys : List A) → drop (length xs) (xs ++ ys) ≡ ys
  drop-append [] ys = refl
  drop-append (x ∷ xs) ys = drop-append xs ys

  -- A write behind a first part.
  pub put-append_right :
      (xs ys : List A) (p : ℕ) (zs : List A) → put (xs ++ ys) (length xs + p) zs ≡ xs ++ put ys p zs
  unfolding put
  put-append_right [] ys p zs = ap (λ q. put ys q zs) (omega arith)
  put-append_right (x ∷ xs) ys p zs =
      let e : length (x ∷ xs) + p ≡ suc (length xs + p) = omega arith in
      ap (λ q. put (x ∷ (xs ++ ys)) q zs) e ∙ ap (◌∷◌ x) (put-append_right xs ys p zs)

  pub slice-slice :
      (xs : List A) (p k a n : ℕ) → a + n ≤ k → slice (slice xs p k) a n ≡ slice xs (p + a) n
  unfolding slice
  slice-slice [] p k a n h = refl
  slice-slice (x ∷ xs) zero zero zero zero h = refl
  slice-slice (x ∷ xs) zero zero zero (suc n) h = absurd (omega arith)
  slice-slice (x ∷ xs) zero zero (suc a) n h = absurd (omega arith)
  slice-slice (x ∷ xs) zero (suc k) zero zero h = refl
  slice-slice (x ∷ xs) zero (suc k) zero (suc n) h =
      ap (◌∷◌ x) (slice-slice xs zero k zero n (omega arith))
  slice-slice (x ∷ xs) zero (suc k) (suc a) n h =
      let e : 0 + suc a ≡ suc (0 + a) = omega arith in
      slice-slice xs zero k a n (omega arith) ∙ ap (λ q. slice (x ∷ xs) q n) (sym e)
  slice-slice (x ∷ xs) (suc p) k a n h =
      let e : suc p + a ≡ suc (p + a) = omega arith in
      slice-slice xs p k a n h ∙ sym (ap (λ q. slice (x ∷ xs) q n) e)

  -- A range inside a write.
  pub slice-put_inside :
      (xs : List A) (p : ℕ) (ys : List A) (a n : ℕ)
      → a + n ≤ length ys
      → p + length ys ≤ length xs
      → slice (put xs p ys) (p + a) n ≡ slice ys a n
  slice-put_inside xs p ys a n h k =
      sym (slice-slice (put xs p ys) p (length ys) a n h)
      ∙ ap (λ l. slice l a n) (slice-put_self xs p ys k)

pub ruleset slices = (slice-put_self, slice-put_before, slice-put_after, length-put)
