-- ===== src/PageCache/FreeFrames/Laws.antt =====
-- The free list is a stack of frames.
use dbstorage.Base.{
  ℕ, zero, suc, ◌+◌, ◌-◌, ◌≤◌, ◌<◌, ◌≡◌, refl, ap, some, List, [], ◌∷◌, ◌++◌, arith, length,
  get_elem?, set, take, ne→==, length-set,
}
use dbstorage.Replacer.Nodes.{FrameId}
use dbstorage.PageCache.FreeFrames.{FreeList, pop, push}

pub record IsValid (l : FreeList) : Type 0 where
  pub within : l.tail ≤ length l.free

-- The stack that the array stands for, its top last.
abbrev pub frames : FreeList → List FrameId
frames l = take l.tail l.free

take-set :
    (xs : List ℕ) (i v : ℕ) → i < length xs → take (suc i) (set xs i v) ≡ take i xs ++ (v ∷ [])
take-set [] i v h = absurd (omega arith)
take-set (x ∷ xs) zero v h = refl
take-set (x ∷ xs) (suc i) v h = ap (◌∷◌ x) (take-set xs i v (omega arith))

pub take-suc :
    (xs : List ℕ) (i : ℕ)
    → i < length xs
    → (v : ℕ) × (get_elem? xs i ≡ some v) × (take (suc i) xs ≡ take i xs ++ (v ∷ []))
take-suc [] i h = absurd (omega arith)
take-suc (x ∷ xs) zero h = (x, refl, refl)
take-suc (x ∷ xs) (suc i) h = let (v, at, e) = take-suc xs i (omega arith) in (v, at, ap (◌∷◌ x) e)

-- A push onto a list with room does not panic and puts the frame on top of the stack.
pub frames-push :
    (l : FreeList) (i : FrameId)
    → l.tail < length l.free
    → (l' : FreeList) × (push l i ≡ some l')
      × (frames l' ≡ frames l ++ (i ∷ []))
      × (length l'.free ≡ length l.free)
unfolding push
frames-push l i room =
    let l' : FreeList = record { free = set l.free l.tail i; tail = l.tail + 1 } in
    let next : l.tail + 1 ≡ suc l.tail = omega arith in
    (
      l',
      rw (ne→== l.tail (length l.free) (λ e. absurd (omega arith))),
      rw next (take-set l.free l.tail i room),
      length-set l.free l.tail i,
    )

-- A pop from a list that is not empty does not panic and takes the top of the stack.
pub frames-pop :
    (l : FreeList)
    → IsValid l
    → 0 < l.tail
    → (i : FrameId) × (l' : FreeList) × (pop l ≡ some (some i, l'))
      × (frames l ≡ frames l' ++ (i ∷ []))
unfolding pop
frames-pop l v some_left =
    let (i, at, e) = take-suc l.free (l.tail - 1) (omega (arith, v.within)) in
    let last : suc (l.tail - 1) ≡ l.tail = omega arith in
    (
      i,
      record l { tail = l.tail - 1 },
      rw (ne→== l.tail 0 (λ q. absurd (omega arith)), at),
      rw last at e,
    )
