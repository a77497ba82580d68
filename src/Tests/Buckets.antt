-- ===== src/Tests/Buckets.antt =====
-- An empty bucket.
use dbstorage.Base.{ℕ, none, replicate}
use dbstorage.Bitmap
use dbstorage.Bitmap.Laws
use dbstorage.HashTable.Bucket.{Bucket, bit_size}

abbrev no_pairs : Bucket ℕ ℕ
no_pairs = record {
  occupied = Bitmap.new bit_size;
  readable = Bitmap.new bit_size;
  pairs = replicate 512 none;
}
