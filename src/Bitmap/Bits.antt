-- ===== src/Bitmap/Bits.antt =====
-- The bits of one byte, by evaluation over the 256 bytes and 8 positions.
use Prim.Native.Nat.{bit_and-bitwise}
use dbstorage.Base.{
  ℕ, zero, suc, ◌+◌, ◌%◌, ◌^◌, ◌<◌, ◌≡◌, refl, bit_and, Bool, true, false, ◌&&◌, arith, ltb, ◌==◌,
  if◌then◌else◌,
}
use dbstorage.Bitmap.{set_byte, test_byte, bit_index_of, count_ones}

pub bit_index_of_lem : (i : ℕ) → bit_index_of i ≡ 2 ^ (i % 8)
unfolding bit_index_of
bit_index_of_lem i = let e : bit_and 7 i ≡ i % 8 = omega (arith, bit_and-bitwise 7 i) in rw e

every : ℕ → (ℕ → Bool) → Bool
every zero test = true
every (suc size) test = test 0 && every size (λ i. test (suc i))

&&-left : (a b : Bool) → (a && b) ≡ true → a ≡ true
&&-left true b h = refl
&&-left false b h = h

&&-right : (a b : Bool) → (a && b) ≡ true → b ≡ true
&&-right true b h = h
&&-right false b h = absurd (cc)

every-at : (size : ℕ) (test : ℕ → Bool) (i : ℕ) → every size test ≡ true → i < size → test i ≡ true
unfolding every
every-at zero test i h below = absurd (omega arith)
every-at (suc size) test zero h below = &&-left _ _ h
every-at (suc size) test (suc i) h below =
    every-at size (λ j. test (suc j)) i (&&-right (test 0) _ h) (omega arith)

same : Bool → Bool → Bool
same true b = b
same false true = false
same false false = true

same_sound : (a b : Bool) → same a b ≡ true → a ≡ b
unfolding same
same_sound true b h = ground arith
same_sound false true h = ground arith
same_sound false false h = refl

-- Position `k` of byte `b` is set to `v`, and position `j` is tested.
test_law : Bool → ℕ → ℕ → ℕ → Bool
test_law v b k j =
    same (test_byte (2 ^ j) (set_byte b (2 ^ k) v)) (if j == k then v else test_byte (2 ^ j) b)

test_table : (v : Bool) → every 256 (λ b. every 8 (λ k. every 8 (test_law v b k))) ≡ true
unfolding every test_law same test_byte set_byte
test_table true = refl
test_table false = refl

pub test_byte-set_byte :
    (v : Bool) (b k j : ℕ)
    → b < 256
    → k < 8
    → j < 8
    → test_byte (2 ^ j) (set_byte b (2 ^ k) v) ≡ (if j == k then v else test_byte (2 ^ j) b)
unfolding test_law
test_byte-set_byte v b k j hb hk hj = same_sound _ _ (
    every-at 8 (test_law v b k) j
      (every-at 8 (λ k. every 8 (test_law v b k)) k
        (every-at 256 (λ b. every 8 (λ k. every 8 (test_law v b k))) b (test_table v) hb) hk)
      hj)

-- The number of ones, with the written position counted apart.
count_law : Bool → ℕ → ℕ → Bool
count_law v b k =
    count_ones (set_byte b (2 ^ k) v) + (if test_byte (2 ^ k) b then 1 else 0)
    == count_ones b + (if v then 1 else 0)

count_table : (v : Bool) → every 256 (λ b. every 8 (count_law v b)) ≡ true
unfolding every count_law count_ones test_byte set_byte
count_table true = refl
count_table false = refl

pub count_ones-set_byte :
    (v : Bool) (b k : ℕ)
    → b < 256
    → k < 8
    → count_ones (set_byte b (2 ^ k) v) + (if test_byte (2 ^ k) b then 1 else 0)
      ≡ count_ones b + (if v then 1 else 0)
unfolding count_law
count_ones-set_byte v b k hb hk = ground (
  arith,
  every-at 8 (count_law v b) k (every-at 256 (λ b. every 8 (count_law v b)) b (count_table v) hb)
      hk,
)

byte_law : Bool → ℕ → ℕ → Bool
byte_law v b k = ltb (set_byte b (2 ^ k) v) 256

byte_table : (v : Bool) → every 256 (λ b. every 8 (byte_law v b)) ≡ true
unfolding every byte_law set_byte
byte_table true = refl
byte_table false = refl

pub set_byte-lt : (v : Bool) (b k : ℕ) → b < 256 → k < 8 → set_byte b (2 ^ k) v < 256
unfolding byte_law
set_byte-lt v b k hb hk = ground (
  arith,
  every-at 8 (byte_law v b) k (every-at 256 (λ b. every 8 (byte_law v b)) b (byte_table v) hb) hk,
)
