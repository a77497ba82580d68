-- ===== src/PageCache/FreeFrames.antt =====
-- src/page_cache.rs: `FreeList<SIZE>`, the frames that hold no page, as a stack in an array. A call
-- that nobody interrupts succeeds in its first `compare_exchange`.
pub mod Laws
pub mod Interleaving
use dbstorage.Base.{
  ℕ, zero, suc, ◌+◌, ◌-◌, Bool, not, Option, some, none, List, [], ◌∷◌, ◌==◌, if◌then◌else◌, length,
  get_elem?, set,
}
use dbstorage.Base.Panic.{◌>>=◌, ◌>>◌, assert}
use dbstorage.Replacer.Nodes.{FrameId}

pub record FreeList : Type 0 where
  pub free : List FrameId
  pub tail : ℕ

-- The numbers from `i` on.
unfoldable pub range_from : ℕ → ℕ → List FrameId
range_from i zero = []
range_from i (suc n) = i ∷ range_from (suc i) n

-- `FreeList::default()`
unfoldable pub default_free : ℕ → FreeList
unfolding range_from
default_free size = record { free = range_from 0 size; tail = size }

-- `None` is an answer; the outer `none` is the panic of an index out of bounds.
unfoldable pub pop : FreeList → Option (Option FrameId × FreeList)
pop l =
    if l.tail == 0
    then some (none, l)
    else (do i ← get_elem? l.free (l.tail - 1); some (some i, record l { tail = l.tail - 1 }))

-- Panics on a full list.
unfoldable pub push : FreeList → FrameId → Option FreeList
push l frame_id = do
  assert (not (l.tail == length l.free))
  some (record { free = set l.free l.tail frame_id; tail = l.tail + 1 })

unfoldable pub is_empty : FreeList → Bool
is_empty l = l.tail == 0

unfoldable pub frame_count : FreeList → ℕ
frame_count l = l.tail
