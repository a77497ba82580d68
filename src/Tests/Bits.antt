-- ===== src/Tests/Bits.antt =====
-- The bit map and the conversions at small inputs.
use dbstorage.Base.{
  ℕ, ◌+◌, ◌^◌, ◌<◌, ◌≡◌, Bool, true, some, List, arith, length, range, if◌then◌else◌, replicate,
}
use dbstorage.Base.Panic.{◌>>=◌}
use dbstorage.Bitmap.{BitMap, new, set_bit, check, len}
use dbstorage.Bitmap.Laws.{IsValid, new-IsValid, check-set_bit}
use dbstorage.Bytes.Signed.{negsuc}
use dbstorage.Storable.{i32, write_to}
use dbstorage.Storable.Laws.{i32-IsLawful, from_bytes-write_to}

abbrev two_bytes : BitMap
two_bytes = new 2

two_bytes-IsValid : IsValid 2 two_bytes
two_bytes-IsValid = new-IsValid 2

check-set_bit_example :
    (bm' : BitMap) × (old : Bool) × (set_bit two_bytes 9 true ≡ some bm')
    × IsValid 2 bm'
    × (check bm' 9 ≡ some true)
    × (check two_bytes 9 ≡ some old)
    × (len bm' + (if old then 1 else 0) ≡ len two_bytes + 1)
check-set_bit_example =
    check-set_bit 2 two_bytes 9 9 true two_bytes-IsValid (omega arith) (omega arith)

small : 0 < 2 ^ 31
small = omega arith

from_bytes-write_to_example :
    (dst' : List ℕ) × (write_to i32 (negsuc 0) (replicate 8 0) 2 ≡ some dst')
    × (length dst' ≡ 8)
    × ((range dst' 2 6 >>= i32.from_bytes) ≡ some (negsuc 0))
unfolding i32
from_bytes-write_to_example =
    from_bytes-write_to i32 (negsuc 0) (replicate 8 0) 2 i32-IsLawful small (omega arith)
