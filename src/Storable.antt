-- ===== src/Storable.antt =====
-- src/storable.rs: the trait `Storable`, and its implementations for the integer types by the
-- macro `storable_impl!`.
pub mod Laws
use dbstorage.Base.{
  ℕ, ◌+◌, ◌^◌, ◌<◌, ◌≡◌, List, Option, some, none, ◌==◌, if◌then◌else◌, length, copy_from_slice,
  arith,
}
use dbstorage.Bytes.Words.{to_be_bytes, from_be_bytes}
use dbstorage.Bytes.Signed.{ℤ, i32_bits, i32_of_bits}

-- The trait's constant and its two conversions; `from_bytes` panics (`none`) where the source's
-- `unwrap` does.
pub record Storable (T : Type 0) : Type 0 where
  pub size_of : ℕ
  pub into_bytes : T → List ℕ
  pub from_bytes : List ℕ → Option T

-- `write_to`: the bytes are copied to `dst[pos..pos + SIZE]`.
unfoldable pub write_to : {T : Type 0} → Storable T → T → List ℕ → ℕ → Option (List ℕ)
write_to s v dst pos = copy_from_slice dst pos (pos + s.size_of) (s.into_bytes v)

-- `<$t>::from_be_bytes(bytes.try_into().unwrap())` for an unsigned type of `w` bytes.
unfoldable pub read_word : ℕ → List ℕ → Option ℕ
read_word w bytes = if length bytes == w then some (from_be_bytes bytes) else none

-- `u8`, `u16`, `u32`, `u64` and `usize`: `w` bytes, big-endian.
unfoldable pub unsigned : ℕ → Storable ℕ
unfolding read_word
unsigned w = record { size_of = w; into_bytes = to_be_bytes w; from_bytes = read_word w }

unfoldable pub read_i32 : List ℕ → Option ℤ
read_i32 bytes = if length bytes == 4 then some (i32_of_bits (from_be_bytes bytes)) else none

-- `i32`: two's complement in four bytes.
unfoldable pub i32 : Storable ℤ
unfolding read_i32
i32 = record { size_of = 4; into_bytes = λ z. to_be_bytes 4 (i32_bits z); from_bytes = read_i32 }
