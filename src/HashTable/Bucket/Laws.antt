-- ===== src/HashTable/Bucket/Laws.antt =====
-- src/hash_table/bucket_page.rs: what the places of a bucket hold after an insertion.
use dbstorage.Base.{ℕ, ◌<◌, ◌≡◌, some, length, ◌==◌, if◌then◌else◌}
use dbstorage.Bitmap.Laws
use dbstorage.HashTable.Bucket.{Pair, Bucket, bit_size, get}

-- Both maps have a bit for each of the 512 places.
pub record IsValid {K V : Type 0} (b : Bucket K V) : Type 0 where
  pub occupied : Laws.IsValid bit_size b.occupied
  pub readable : Laws.IsValid bit_size b.readable
  pub pairs : length b.pairs ≡ 512

-- The pair is at its place, every other place is as it was.
pub Placed : {K V : Type 0} → Bucket K V → ℕ → Pair K V → Bucket K V → Type 0
Placed b i pair b' =
    IsValid b' × ((j : ℕ) → j < 512 → get b' j ≡ (if j == i then some (some pair) else get b j))
