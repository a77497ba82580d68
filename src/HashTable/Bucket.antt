-- ===== src/HashTable/Bucket.antt =====
-- src/hash_table/bucket_page.rs and src/pair.rs: a bucket, 512 places for pairs of a key and a value and
-- two bit maps over them. `none` is a panic.
pub mod Laws
use dbstorage.Base.{
  ℕ, zero, suc, ◌+◌, ◌-◌, ◌*◌, ◌/◌, ◌%◌, Bool, true, false, not, ◌&&◌, Option, some, none, List, [],
  ◌∷◌, ltb, leb, ◌==◌, if◌then◌else◌, range, copy_from_slice, get_elem?, set, length,
}
use dbstorage.Base.Panic.{◌>>=◌, ◌>>◌, assert}
use dbstorage.Bitmap
use dbstorage.Bitmap.{BitMap, check, set_bit}
use dbstorage.HashMap.{Eq}
use dbstorage.Page.{PageBuf, page_size, zeroed}
use dbstorage.Storable.{Storable, write_to}

-- The bytes of each bit map.
abbrev pub bit_size : ℕ
bit_size = 512 / 8

pub record Pair (K V : Type 0) : Type 0 where
  pub a : K
  pub b : V

-- `Pair::from((a, b))`
unfoldable pub from_tuple : {K V : Type 0} → K × V → Pair K V
from_tuple (a, b) = record { a = a; b = b }

-- `==` between a pair and a tuple.
unfoldable pub eq_tuple : {K V : Type 0} → ⦃key : Eq K⦄ → ⦃val : Eq V⦄ → Pair K V → K × V → Bool
eq_tuple ⦃key⦄ ⦃val⦄ pair (a, b) = key.beq pair.a a && val.beq pair.b b

pub record Bucket (K V : Type 0) : Type 0 where
  pub occupied : BitMap
  pub readable : BitMap
  pub pairs : List (Option (Pair K V))

module _ {K V : Type 0} (ks : Storable K) (vs : Storable V) where
  abbrev pub pair_size : ℕ
  pair_size = ks.size_of + vs.size_of

  -- One round of the loop over the places: a place that is not occupied is skipped.
  unfoldable pub read_pair : PageBuf → ℕ → Bool → Option (Option (Pair K V))
  read_pair buf pos false = some none
  read_pair buf pos true = do
    k_bytes ← range buf pos (pos + ks.size_of)
    v_bytes ← range buf (pos + ks.size_of) (pos + ks.size_of + vs.size_of)
    key ← ks.from_bytes k_bytes
    value ← vs.from_bytes v_bytes
    some (some (record { a = key; b = value }))

  unfoldable pub read_pairs : PageBuf → BitMap → ℕ → ℕ → ℕ → Option (List (Option (Pair K V)))
  unfolding read_pair
  read_pairs buf occupied i pos zero = some []
  read_pairs buf occupied i pos (suc rem) = do
    there ← check occupied i
    pair ← read_pair buf pos there
    rest ← read_pairs buf occupied (suc i) (pos + pair_size) rem
    some (pair ∷ rest)

  -- `Bucket::from(&PageBuf)`
  unfoldable pub from_page : PageBuf → Option (Bucket K V)
  unfolding read_pairs
  from_page buf = do
    occupied ← range buf 0 bit_size
    readable ← range buf bit_size (bit_size + bit_size)
    pairs ← read_pairs buf (record { inner = occupied }) 0 (bit_size * 2) 512
    some (record {
      occupied = record { inner = occupied };
      readable = record { inner = readable };
      pairs = pairs;
    })

  -- The page and the position behind the pair; an empty place takes no room.
  unfoldable pub write_pair : PageBuf → ℕ → Option (Pair K V) → Option (PageBuf × ℕ)
  write_pair ret pos none = some (ret, pos)
  write_pair ret pos (some pair) = do
    ret' ← write_to ks pair.a ret pos
    ret'' ← write_to vs pair.b ret' (pos + ks.size_of)
    some (ret'', pos + ks.size_of + vs.size_of)

  -- The loop ends at the first place with no room in the page.
  unfoldable pub write_pairs : PageBuf → ℕ → List (Option (Pair K V)) → Option PageBuf
  unfolding write_pair
  write_pairs ret pos [] = some ret
  write_pairs ret pos (pair ∷ rest) =
      if ltb page_size (pos + pair_size)
      then some ret
      else (do w ← write_pair ret pos pair; write_pairs w.0 w.1 rest)

  -- `PageBuf::from(&Bucket)`; the readable bits are taken from the occupied ones.
  unfoldable pub to_page : Bucket K V → Option PageBuf
  unfolding write_pairs
  to_page bucket = do
    b₁ ← copy_from_slice zeroed 0 bit_size bucket.occupied.inner
    b₂ ← copy_from_slice b₁ bit_size (bit_size + bit_size) bucket.occupied.inner
    write_pairs b₂ (bit_size * 2) bucket.pairs

  unfoldable pub is_full : Bucket K V → Option Bool
  is_full bucket = do
    assert (not (pair_size == 0))
    some (leb ((page_size - 128) / pair_size) (Bitmap.len bucket.occupied))

-- The loop of `insert` from place `i` on, with the places that are left: past the last one `check`
-- panics.
unfoldable pub first_free : BitMap → ℕ → ℕ → Option ℕ
first_free occupied i zero = none
first_free occupied i (suc rem) = do
  there ← check occupied i
  elim there [ true ↦ first_free occupied (suc i) rem | false ↦ some i ]

module _ {K V : Type 0} where
  unfoldable pub remove_at : Bucket K V → ℕ → Option (Bucket K V)
  remove_at bucket i = do
    occupied ← set_bit bucket.occupied i false
    readable ← set_bit bucket.readable i false
    some (record bucket { occupied = occupied; readable = readable })

  -- A pair at place `i`; past the last one the index panics.
  unfoldable pub place : Bucket K V → ℕ → Pair K V → Option (Bucket K V)
  place bucket i pair = do
    assert (ltb i (length bucket.pairs))
    occupied ← set_bit bucket.occupied i true
    readable ← set_bit bucket.readable i true
    some (record {
      occupied = occupied;
      readable = readable;
      pairs = set bucket.pairs i (some pair);
    })

  unfoldable pub insert : Bucket K V → K → V → Option (Bucket K V)
  unfolding first_free place
  insert bucket k v = do
    i ← first_free bucket.occupied 0 (8 * length bucket.occupied.inner)
    place bucket i (record { a = k; b = v })

  unfoldable pub get : Bucket K V → ℕ → Option (Option (Pair K V))
  get bucket i = do
    there ← check bucket.readable i
    if there then get_elem? bucket.pairs i else some none

  -- `iter().flatten()`
  unfoldable pub flatten : List (Option (Pair K V)) → List (Pair K V)
  flatten [] = []
  flatten (none ∷ rest) = flatten rest
  flatten (some pair ∷ rest) = pair ∷ flatten rest

  unfoldable pub get_pairs : Bucket K V → List (Pair K V)
  unfolding flatten
  get_pairs bucket = flatten bucket.pairs

module _ {K V : Type 0} ⦃key : Eq K⦄ ⦃val : Eq V⦄ where
  abbrev pub is_pair : K → V → Option (Pair K V) → Bool
  is_pair k v none = false
  is_pair k v (some pair) = key.beq pair.a k && val.beq pair.b v

  -- The loop of `remove` over the places from `i` on.
  unfoldable pub remove_from :
      K → V → ℕ → List (Option (Pair K V)) → Bucket K V × Bool → Option (Bucket K V × Bool)
  unfolding remove_at
  remove_from k v i [] s = some s
  remove_from k v i (pair ∷ rest) s =
      if is_pair k v pair
      then (do b ← remove_at s.0 i; remove_from k v (suc i) rest (b, true))
      else remove_from k v (suc i) rest s

  unfoldable pub remove : Bucket K V → K → V → Option (Bucket K V × Bool)
  unfolding remove_from
  remove bucket k v = remove_from k v 0 bucket.pairs (bucket, false)

module _ {K V : Type 0} ⦃key : Eq K⦄ where
  -- One place of the loop of `find`, put in front of what the later places give.
  unfoldable pub found_at : K → Option (Pair K V) → BitMap → ℕ → List V → Option (List V)
  found_at k none readable i rest = some rest
  found_at k (some pair) readable i rest =
      if key.beq pair.a k
      then (do there ← check readable i; some (if there then pair.b ∷ rest else rest))
      else some rest

  unfoldable pub find_from : K → BitMap → ℕ → List (Option (Pair K V)) → Option (List V)
  unfolding found_at
  find_from k readable i [] = some []
  find_from k readable i (pair ∷ rest) = do
    later ← find_from k readable (suc i) rest
    found_at k pair readable i later

  unfoldable pub find : Bucket K V → K → Option (List V)
  unfolding find_from
  find bucket k = find_from k bucket.readable 0 bucket.pairs
