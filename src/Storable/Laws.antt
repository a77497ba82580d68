-- ===== src/Storable/Laws.antt =====
-- What a `Storable` type promises, and that the integer types keep it.
use dbstorage.Base.{
  ℕ, ◌+◌, ◌-◌, ◌^◌, ◌<◌, ◌≤◌, ◌≡◌, List, some, arith, length, put, range, copy_from_slice_lem,
  range_lem, length-put, slice-put_self, eq→==,
}
use dbstorage.Base.Panic.{◌>>=◌}
use dbstorage.Bytes.Words.{
  IsBytes, to_be_bytes, length-to_be_bytes, to_be_bytes-IsBytes, from_be_bytes-to_be_bytes,
}
use dbstorage.Bytes.Signed.{IsI32, i32_bits, i32_bits-lt, i32_of_bits-i32_bits}
use dbstorage.Storable.{Storable, write_to, unsigned, read_word, i32, read_i32}

-- The contract: a value has exactly `SIZE` bytes, and is read back from them.
pub record IsLawful {T : Type 0} (s : Storable T) (Valid : T → Type 0) : Type 0 where
  pub sized : (v : T) → length (s.into_bytes v) ≡ s.size_of
  pub bytes : (v : T) → IsBytes (s.into_bytes v)
  pub inverse : (v : T) → Valid v → s.from_bytes (s.into_bytes v) ≡ some v

read_word-to_be_bytes : (w n : ℕ) → n < 256 ^ w → read_word w (to_be_bytes w n) ≡ some n
unfolding read_word
read_word-to_be_bytes w n h =
    rw (eq→== _ _ (length-to_be_bytes w n), from_be_bytes-to_be_bytes w n h)

pub unsigned-IsLawful : (w : ℕ) → IsLawful (unsigned w) (λ n. n < 256 ^ w)
unfolding unsigned
unsigned-IsLawful w = record {
  sized = length-to_be_bytes w;
  bytes = to_be_bytes-IsBytes w;
  inverse = read_word-to_be_bytes w;
}

pub i32-IsLawful : IsLawful i32 IsI32
unfolding i32
i32-IsLawful = record {
  sized = λ z. length-to_be_bytes 4 (i32_bits z);
  bytes = λ z. to_be_bytes-IsBytes 4 (i32_bits z);
  inverse = λ z h. rw (
    read_i32,
    eq→== _ _ (length-to_be_bytes 4 (i32_bits z)),
    from_be_bytes-to_be_bytes 4 (i32_bits z) (i32_bits-lt z h),
    i32_of_bits-i32_bits z h,
  );
}

-- `write_to` at a position that leaves room does not panic, keeps the buffer's length, and the
-- value is read back from the range that was written.
pub from_bytes-write_to :
    {T : Type 0} {Valid : T → Type 0} (s : Storable T) (v : T) (dst : List ℕ) (pos : ℕ)
    → IsLawful s Valid
    → Valid v
    → pos + s.size_of ≤ length dst
    → (dst' : List ℕ) × (write_to s v dst pos ≡ some dst')
      × (length dst' ≡ length dst)
      × ((range dst' pos (pos + s.size_of) >>= s.from_bytes) ≡ some v)
unfolding write_to
from_bytes-write_to s v dst pos law valid room =
    let size : length (s.into_bytes v) ≡ s.size_of = law.sized v in
    let dst' : List ℕ = put dst pos (s.into_bytes v) in
    let len : length dst' ≡ length dst = length-put dst pos (s.into_bytes v) in
    let width : pos + s.size_of - pos ≡ length (s.into_bytes v) = omega arith in
    (
      dst',
      copy_from_slice_lem dst pos _ (s.into_bytes v) (omega arith) room,
      len,
      rw
          (
            range_lem dst' pos (pos + s.size_of) (omega arith) (omega arith),
            width,
            slice-put_self dst pos (s.into_bytes v) (omega arith),
          )
          (law.inverse v valid),
    )
