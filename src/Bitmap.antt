-- ===== src/Bitmap.antt =====
-- src/bitmap.rs: `BitMap<SIZE>`, an array of `SIZE` bytes. An index past the array is a panic,
-- which is `none` here.
mod Bits
pub mod Laws
use dbstorage.Base.{
  ℕ, zero, suc, ◌+◌, ◌-◌, ◌/◌, ◌%◌, ◌^◌, bit_and, bit_or, Bool, List, [], ◌∷◌, Option, some, none,
  replicate, ltb, ◌==◌, if◌then◌else◌, get_elem?, set,
}
use dbstorage.Base.Panic.{◌>>=◌}

pub record BitMap : Type 0 where
  pub inner : List ℕ

-- `BitMap::<SIZE>::new()`
unfoldable pub new : ℕ → BitMap
new size = record { inner = replicate size 0 }

-- `i >> 3`
abbrev pub index_of : ℕ → ℕ
index_of i = i / 2 ^ 3

-- `1 << (i & 7)`; `&` is commutative.
unfoldable pub bit_index_of : ℕ → ℕ
bit_index_of i = 2 ^ bit_and 7 i

-- The byte after `|= bit_index`, or after `&= !bit_index`.
unfoldable pub set_byte : ℕ → ℕ → Bool → ℕ
set_byte b m val = if val then bit_or b m else bit_and b (255 - m)

unfoldable pub set_bit : BitMap → ℕ → Bool → Option BitMap
unfolding bit_index_of set_byte
set_bit bm i val = do
  b ← get_elem? bm.inner (index_of i)
  some (record bm { inner = set bm.inner (index_of i) (set_byte b (bit_index_of i) val) })

unfoldable pub test_byte : ℕ → ℕ → Bool
test_byte m b = ltb 0 (bit_and m b)

unfoldable pub check : BitMap → ℕ → Option Bool
unfolding bit_index_of test_byte
check bm i = do b ← get_elem? bm.inner (index_of i); some (test_byte (bit_index_of i) b)

ones : ℕ → ℕ → ℕ
ones zero b = 0
ones (suc w) b = b % 2 + ones w (b / 2)

-- `u8::count_ones`
pub count_ones : ℕ → ℕ
unfolding ones
count_ones b = ones 8 b

pub total_ones : List ℕ → ℕ
unfolding count_ones
total_ones [] = 0
total_ones (b ∷ bs) = count_ones b + total_ones bs

unfoldable pub len : BitMap → ℕ
unfolding total_ones
len bm = total_ones bm.inner

unfoldable pub is_empty : BitMap → Bool
unfolding len
is_empty bm = len bm == 0
