-- ===== src/Bytes/Signed.antt =====
-- Signed integers over the native numbers, and their two's complement in `w` bytes.
use dbstorage.Base.{
  ℕ, suc, ◌+◌, ◌-◌, ◌^◌, ◌<◌, ◌≡◌, ◌≢◌, refl, sym, ◌∙◌, ◌⊎◌, inl, inr, Bool-cases, ◌↔◌, Bool, true,
  false, arith, ltb, leb, ap, ◌/◌, lt→ltb, not-lt→ltb, ◌==◌, if◌then◌else◌,
}

-- `negsuc n` is -(n + 1).
pub data ℤ : Type 0 where
  pos : ℕ → ℤ
  negsuc : ℕ → ℤ

abbrev pub pos_part : ℤ → ℕ
pos_part (pos n) = n
pos_part (negsuc n) = 0

abbrev pub neg_part : ℤ → ℕ
neg_part (pos n) = 0
neg_part (negsuc n) = suc n

-- a - b, as an integer.
abbrev pub sub_ℕ : ℕ → ℕ → ℤ
sub_ℕ a b = if leb b a then pos (a - b) else negsuc (b - a - 1)

infixl 65 ◌+ℤ◌
unfoldable pub ◌+ℤ◌ : ℤ → ℤ → ℤ
a +ℤ b = sub_ℕ (pos_part a + pos_part b) (neg_part a + neg_part b)

abbrev pub ltb_ℤ : ℤ → ℤ → Bool
ltb_ℤ a b = ltb (pos_part a + neg_part b) (pos_part b + neg_part a)

infix 50 ◌=ℤ◌
abbrev pub ◌=ℤ◌ : ℤ → ℤ → Bool
pos a =ℤ pos b = a == b
negsuc a =ℤ negsuc b = a == b
_ =ℤ _ = false

pub =ℤ_iff : (a b : ℤ) → ((a =ℤ b) ≡ true) ↔ (a ≡ b)
=ℤ_iff (pos a) (pos b) = ground arith
=ℤ_iff (pos a) (negsuc b) = ground arith
=ℤ_iff (negsuc a) (pos b) = ground arith
=ℤ_iff (negsuc a) (negsuc b) = ground arith

-- The `i32`s, for which `PageId` stands.
abbrev pub IsI32 : ℤ → Type 0
IsI32 (pos n) = n < 2 ^ 31
IsI32 (negsuc n) = n < 2 ^ 31

-- The bit pattern of an `i32` and back.
unfoldable pub i32_bits : ℤ → ℕ
i32_bits (pos n) = n
i32_bits (negsuc n) = 2 ^ 32 - 1 - n

unfoldable pub i32_of_bits : ℕ → ℤ
i32_of_bits n = if ltb n (2 ^ 31) then pos n else negsuc (2 ^ 32 - 1 - n)

pub i32_bits-lt : (z : ℤ) → IsI32 z → i32_bits z < 256 ^ 4
unfolding i32_bits
i32_bits-lt (pos n) h = omega arith
i32_bits-lt (negsuc n) h = omega arith

pub i32_of_bits-i32_bits : (z : ℤ) → IsI32 z → i32_of_bits (i32_bits z) ≡ z
unfolding i32_bits i32_of_bits
i32_of_bits-i32_bits (pos n) h = ground arith
i32_of_bits-i32_bits (negsuc n) h = ground arith

pub i32_bits-i32_of_bits : (n : ℕ) → n < 2 ^ 32 → i32_bits (i32_of_bits n) ≡ n
unfolding i32_bits i32_of_bits
i32_bits-i32_of_bits n h = ground arith

-- Two integers are equal or not, with the answer of the test.
pub =ℤ_cases : (a b : ℤ) → ((a ≡ b) × ((a =ℤ b) ≡ true)) ⊎ ((a ≢ b) × ((a =ℤ b) ≡ false))
=ℤ_cases a b = elim (Bool-cases (a =ℤ b)) [
  | inl e ↦ inl ((=ℤ_iff a b).0 e, e)
  | inr e ↦ inr (λ q. true≢false (sym ((=ℤ_iff a b).1 q) ∙ e), e)
]
  where
    true≢false : ¬ (true ≡ false)
    true≢false h = cc

pub =ℤ_refl : (a : ℤ) → (a =ℤ a) ≡ true
=ℤ_refl a = (=ℤ_iff a a).1 refl

-- The signed integers of `w` bytes, `i8` to `i64`, their bit patterns and back.
abbrev pub IsInt : ℕ → ℤ → Type 0
IsInt w (pos n) = n < 256 ^ w / 2
IsInt w (negsuc n) = n < 256 ^ w / 2

unfoldable pub int_bits : ℕ → ℤ → ℕ
int_bits w (pos n) = n
int_bits w (negsuc n) = 256 ^ w - 1 - n

unfoldable pub int_of_bits : ℕ → ℕ → ℤ
int_of_bits w n = if ltb n (256 ^ w / 2) then pos n else negsuc (256 ^ w - 1 - n)

pub int_bits-lt : (w : ℕ) (z : ℤ) → IsInt w z → int_bits w z < 256 ^ w
unfolding int_bits
int_bits-lt w (pos n) h = omega arith
int_bits-lt w (negsuc n) h = omega arith

pub int_of_bits-int_bits : (w : ℕ) (z : ℤ) → IsInt w z → int_of_bits w (int_bits w z) ≡ z
unfolding int_bits int_of_bits
int_of_bits-int_bits w (pos n) h = rw (lt→ltb n (256 ^ w / 2) h)
int_of_bits-int_bits w (negsuc n) h =
    rw (not-lt→ltb (256 ^ w - 1 - n) (256 ^ w / 2) (λ q. absurd (omega arith)))
      (ap negsuc (omega arith))
