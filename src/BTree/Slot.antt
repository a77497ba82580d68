-- ===== src/BTree/Slot.antt =====
-- src/btree/slot.rs: the entries of a node and the bytes of `Either`.
pub mod Laws
use dbstorage.Base.{
  ℕ, suc, ◌+◌, Option, some, none, List, [], ◌∷◌, length, ◌==◌, if◌then◌else◌, put, copy_from_slice,
  replicate,
}
use dbstorage.Base.Panic.{◌>>=◌, ◌>>◌, assert}
use dbstorage.Page.{PageId}
use dbstorage.Storable.{Storable, i32, write_to}

pub data Either (V : Type 0) : Type 0 where
  value : V → Either V
  pointer : PageId → Either V

-- `Slot(key, either)`
pub record Slot (T V : Type 0) : Type 0 where
  pub key : T
  pub either : Either V

-- `get_ptr!`, which panics at a value.
unfoldable pub get_ptr : {V : Type 0} → Either V → Option PageId
get_ptr (value v) = none
get_ptr (pointer p) = some p

-- `get_value!`, which panics at a pointer.
unfoldable pub get_value : {V : Type 0} → Either V → Option V
get_value (value v) = some v
get_value (pointer p) = none

module _ {V : Type 0} (s : Storable V) where
  -- `Either::<V>::SIZE`
  abbrev pub either_size : ℕ
  either_size = 1 + s.size_of

  -- The two readable flags; any other is `unreachable!`.
  unfoldable pub either_of : ℕ → List ℕ → Option (Either V)
  either_of flag rest =
      if flag == 0
      then (do v ← s.from_bytes rest; some (value v))
      else if flag == 1
      then (do p ← i32.from_bytes rest; some (pointer p))
      else none

  unfoldable pub either_split : List ℕ → Option (Either V)
  unfolding either_of
  either_split [] = none
  either_split (flag ∷ rest) = either_of flag rest

  -- `Either::from(&[u8])`
  unfoldable pub either_from : List ℕ → Option (Either V)
  unfolding either_split
  either_from bytes = do assert (length bytes == either_size); either_split bytes

  -- `BytesMut::from(&Either<V>)`
  unfoldable pub either_bytes : Either V → Option (List ℕ)
  unfolding write_to
  either_bytes (value v) = write_to s v (put (replicate either_size 0) 0 (0 ∷ [])) 1
  either_bytes (pointer p) = write_to i32 p (put (replicate either_size 0) 0 (1 ∷ [])) 1
