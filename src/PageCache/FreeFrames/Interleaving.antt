-- ===== src/PageCache/FreeFrames/Interleaving.antt =====
-- src/page_cache.rs: `push` and `pop` of one `FreeList` by any number of threads. Either call has two atomic
-- steps: the `compare_exchange` that moves the tail (one that fails changes nothing and is tried again), and
-- then the access to the array. A `pop` that sees an empty list ends with no frame; a `push` that sees a full
-- one panics, which changes nothing here.
pub mod Bounds
pub mod Draining
use dbstorage.Base.{
  ℕ, zero, suc, ◌+◌, ◌-◌, ◌<◌, ◌≡◌, ◌≢◌, refl, ap, ◌∙◌, Option, some, none, List, [], ◌∷◌, ◌++◌,
  arith, length, set, take, get_elem?,
}
use dbstorage.Replacer.Nodes.{FrameId}
use dbstorage.PageCache.FreeFrames.{FreeList}
use dbstorage.PageCache.FreeFrames.Laws.{frames}

-- The list; of each `push` under way that has its place, the place and the frame that it still has to store;
-- of each such `pop`, the place that it still has to read; and the answers of the `pop`s that are done, the
-- last one first.
pub record Shared : Type 0 where
  pub list : FreeList
  pub storing : List (ℕ × FrameId)
  pub loading : List ℕ
  pub answers : List (Option FrameId)

-- A step of any thread: a call gets its place, or any of those under way ends.
pub data Step : Shared → Shared → Type 0 where
  claim_push :
      (s : Shared) (f : FrameId)
      → s.list.tail ≢ length s.list.free
      → Step s (record s {
        list = record s.list { tail = s.list.tail + 1 };
        storing = (s.list.tail, f) ∷ s.storing;
      })
  store_frame :
      (s : Shared) (before after : List (ℕ × FrameId)) (i : ℕ) (f : FrameId)
      → s.storing ≡ before ++ ((i, f) ∷ after)
      → Step s (record s {
        list = record s.list { free = set s.list.free i f };
        storing = before ++ after;
      })
  claim_pop :
      (s : Shared)
      → s.list.tail ≢ 0
      → Step s (record s {
        list = record s.list { tail = s.list.tail - 1 };
        loading = (s.list.tail - 1) ∷ s.loading;
      })
  load_frame :
      (s : Shared) (before after : List ℕ) (i : ℕ)
      → s.loading ≡ before ++ (i ∷ after)
      → Step s
          (record s { loading = before ++ after; answers = get_elem? s.list.free i ∷ s.answers })
  find_empty : (s : Shared) → s.list.tail ≡ 0 → Step s (record s { answers = none ∷ s.answers })

pub data Steps : Shared → Shared → Type 0 where
  stop : (s : Shared) → Steps s s
  go : (s s' s'' : Shared) → Step s s' → Steps s' s'' → Steps s s''

-- No call is under way.
abbrev pub at_rest : FreeList → Shared
at_rest l = record { list = l; storing = []; loading = []; answers = [] }

take-set : (xs : List ℕ) (i v : ℕ) → take i (set xs i v) ≡ take i xs
take-set [] zero v = refl
take-set [] (suc i) v = refl
take-set (x ∷ xs) zero v = refl
take-set (x ∷ xs) (suc i) v = ap (◌∷◌ x) (take-set xs i v)

-- From a list with room, a whole `pop` can come between the two steps of a `push`: it answers with the entry
-- that the array had at the tail, not with the frame that is pushed, and in the end, with both calls done, the
-- stack holds what it held before: the frame is lost.
pub frames-overtaken :
    (l : FreeList) (f : FrameId)
    → l.tail < length l.free
    → (s' : Shared) × Steps (at_rest l) s'
      × (s'.storing ≡ [])
      × (s'.loading ≡ [])
      × (s'.answers ≡ get_elem? l.free l.tail ∷ [])
      × (s'.list.free ≡ set l.free l.tail f)
      × (frames s'.list ≡ frames l)
frames-overtaken l f room =
    let s₁ : Shared = record (at_rest l) {
      list = record l { tail = l.tail + 1 };
      storing = (l.tail, f) ∷ [];
    } in
    let s₂ : Shared = record s₁ {
      list = record l { tail = l.tail + 1 - 1 };
      loading = (l.tail + 1 - 1) ∷ [];
    } in
    let s₃ : Shared = record s₂ {
      loading = [];
      answers = get_elem? l.free (l.tail + 1 - 1) ∷ [];
    } in
    let s₄ : Shared = record s₃ {
      list = record s₃.list { free = set l.free l.tail f };
      storing = [];
    } in
    let back : l.tail + 1 - 1 ≡ l.tail = omega arith in
    (
      s₄,
      go _ s₁ _ (claim_push (at_rest l) f (λ e. absurd (omega arith))) (
          go _ s₂ _ (claim_pop s₁ (λ e. absurd (omega arith))) (
            go _ s₃ _ (load_frame s₂ [] [] (l.tail + 1 - 1) refl)
              (go _ s₄ _ (store_frame s₃ [] [] l.tail f refl) (stop s₄)))),
      refl,
      refl,
      ap (λ i. get_elem? l.free i ∷ []) back,
      refl,
      ap (λ n. take n (set l.free l.tail f)) back ∙ take-set l.free l.tail f,
    )
