-- ===== src/BTree/Slot/Laws.antt =====
-- src/btree/slot.rs: what `Either::from` makes of the bytes that are written for an entry.
use mathlib.Core.List.{append-nil}
use dbstorage.Base.{
  ℕ, zero, suc, ◌+◌, ◌-◌, ◌≤◌, ◌≡◌, refl, ap, ◌∙◌, some, List, [], ◌∷◌, ◌++◌, arith, length, put,
  copy_from_slice_lem, replicate, length-replicate, length-append, length-put, eq→==,
}
use dbstorage.Base.Panic.{◌>>=◌}
use dbstorage.Bytes.Signed.{IsI32}
use dbstorage.Page.{PageId}
use dbstorage.Storable.{Storable, i32, write_to}
use dbstorage.Storable.Laws.{IsLawful, i32-IsLawful}
use dbstorage.BTree.Slot.{
  value, pointer, either_size, either_of, either_split, either_from, either_bytes,
}

pub put-nil : (bytes : List ℕ) → put bytes 0 [] ≡ bytes
unfolding put
put-nil [] = refl
put-nil (b ∷ bs) = refl

put-replicate :
    (n : ℕ) (bytes : List ℕ)
    → length bytes ≤ n
    → put (replicate n 0) 0 bytes ≡ bytes ++ replicate (n - length bytes) 0
unfolding put
put-replicate n [] h = put-nil (replicate n 0) ∙ ap (λ k. replicate k 0) (omega arith)
put-replicate zero (b ∷ bs) h = absurd (omega arith)
put-replicate (suc n) (b ∷ bs) h =
    let e : suc n - suc (length bs) ≡ n - length bs = omega arith in
    rw e (ap (◌∷◌ b) (put-replicate n bs (omega arith)))

module _ {T : Type 0} {Valid : T → Type 0} (s : Storable T) (n flag : ℕ) (v : T) where
  -- The flag, then the payload, then zeros.
  write_flagged :
      IsLawful s Valid
      → s.size_of ≤ n
      → write_to s v (put (replicate (suc n) 0) 0 (flag ∷ [])) 1
        ≡ some (flag ∷ (s.into_bytes v ++ replicate (n - s.size_of) 0))
  unfolding write_to put
  write_flagged law h =
      let size = law.sized v in
      let len = length-put (replicate (suc n) 0) 0 (flag ∷ []) ∙ length-replicate (suc n) 0 in
      copy_from_slice_lem (put (replicate (suc n) 0) 0 (flag ∷ [])) 1 (1 + s.size_of)
        (s.into_bytes v) (omega arith) (omega arith)
      ∙ ap (λ bs. some (flag ∷ bs))
          (ap (λ bs. put bs 0 (s.into_bytes v)) (put-nil (replicate n 0))
            ∙ put-replicate n (s.into_bytes v) (omega arith)
            ∙ ap (λ k. s.into_bytes v ++ replicate (n - k) 0) size)

padded_length :
    (bytes : List ℕ) (w n : ℕ)
    → length bytes ≡ w
    → w ≤ n
    → length (bytes ++ replicate (n - w) 0) ≡ n
padded_length bytes w n p h =
    let zeros : List ℕ = replicate (n - w) 0 in
    let len : length zeros ≡ n - w = length-replicate (n - w) _ in
    omega (arith, length-append bytes zeros)

no_padding : (bytes : List ℕ) (n : ℕ) → bytes ++ replicate (n - n) 0 ≡ bytes
no_padding bytes n = let e : n - n ≡ 0 = omega arith in rw e (append-nil bytes)

module _ {V : Type 0} (s : Storable V) where
  -- A payload of the right length goes to the reader that the flag names.
  flagged-either_from :
      (flag : ℕ) (rest : List ℕ)
      → length rest ≡ s.size_of
      → either_from s (flag ∷ rest) ≡ either_of s flag rest
  unfolding either_from either_split
  flagged-either_from flag rest h =
      let e : suc (length rest) ≡ 1 + s.size_of = omega arith in
      rw (eq→== (suc (length rest)) (1 + s.size_of) e)

  write_at_size :
      {T : Type 0} {Valid : T → Type 0} (t : Storable T) (flag : ℕ) (v : T)
      → IsLawful t Valid
      → t.size_of ≤ s.size_of
      → write_to t v (put (replicate (either_size s) 0) 0 (flag ∷ [])) 1
        ≡ some (flag ∷ (t.into_bytes v ++ replicate (s.size_of - t.size_of) 0))
  write_at_size t flag v law h =
      let e : either_size s ≡ suc s.size_of = omega arith in
      ap (λ k. write_to t v (put (replicate k 0) 0 (flag ∷ [])) 1) e
      ∙ write_flagged t s.size_of flag v law h

  -- What is written for a pointer, and who reads it.
  pointer_read :
      (p : PageId)
      → 4 ≤ s.size_of
      → (either_bytes s (pointer p) >>= either_from s)
        ≡ either_of s 1 (i32.into_bytes p ++ replicate (s.size_of - 4) 0)
  unfolding either_bytes i32
  pointer_read p h =
      ap (λ m. m >>= either_from s) (write_at_size i32 1 p i32-IsLawful h)
      ∙ flagged-either_from 1 (i32.into_bytes p ++ replicate (s.size_of - 4) 0)
          (padded_length (i32.into_bytes p) 4 s.size_of (i32-IsLawful.sized p) h)

  -- A value is read back from the bytes that are written for it, if the conversion of values is lawful.
  pub either_from-value :
      {Valid : V → Type 0} (v : V)
      → IsLawful s Valid
      → Valid v
      → (either_bytes s (value v) >>= either_from s) ≡ some (value v)
  unfolding either_bytes either_of
  either_from-value v law valid =
      let len = padded_length (s.into_bytes v) s.size_of s.size_of (law.sized v) (omega arith) in
      let exact = no_padding (s.into_bytes v) s.size_of in
      ap (λ m. m >>= either_from s) (write_at_size s 0 v law (omega arith))
      ∙ flagged-either_from 0 (s.into_bytes v ++ replicate (s.size_of - s.size_of) 0) len
      ∙ (rw (exact, law.inverse v valid))

  -- The bytes of a pointer are read back if values have four bytes, as page ids have.
  pub either_from-pointer :
      (p : PageId)
      → IsI32 p
      → s.size_of ≡ 4
      → (either_bytes s (pointer p) >>= either_from s) ≡ some (pointer p)
  unfolding either_of
  either_from-pointer p range four =
      let exact =
        ap (λ n. i32.into_bytes p ++ replicate (n - 4) 0) four ∙ no_padding (i32.into_bytes p) 4 in
      pointer_read p (omega arith) ∙ (rw (exact, i32-IsLawful.inverse p range))
