-- ===== src/PageCache/FreeFrames/Interleaving/Draining.antt =====
-- src/page_cache.rs: any number of threads that only `pop` from a `FreeList`.
use dbstorage.Base.{
  ℕ, suc, ◌+◌, ◌-◌, ◌≤◌, ◌≡◌, refl, sym, ap, ◌∙◌, Option, some, none, List, [], ◌∷◌, ◌++◌, ◌==◌,
  if◌then◌else◌, arith, length, take, get_elem?,
}
use dbstorage.Replacer.Nodes.{FrameId}
use dbstorage.PageCache.FreeFrames.{FreeList}
use dbstorage.PageCache.FreeFrames.Laws.{frames, take-suc}
use dbstorage.PageCache.FreeFrames.Interleaving.{
  Shared, Step, claim_push, store_frame, claim_pop, load_frame, find_empty, Steps, stop, go,
  at_rest,
}

-- No step is one of a `push`.
abbrev pub IsPop : {s s' : Shared} → Step s s' → Type 0
IsPop (claim_push _ _ _) = ⊥
IsPop (store_frame _ _ _ _ _ _) = ⊥
IsPop (claim_pop _ _) = Unit {0}
IsPop (load_frame _ _ _ _ _) = Unit {0}
IsPop (find_empty _ _) = Unit {0}

abbrev pub OnlyPops : {s s' : Shared} → Steps s s' → Type 0
OnlyPops (stop _) = Unit {0}
OnlyPops (go _ _ _ step rest) = IsPop step × OnlyPops rest

-- How often a frame is an answer, and how often it stands in a stack.
abbrev pub one : FrameId → Option FrameId → ℕ
one f none = 0
one f (some g) = if g == f then 1 else 0

abbrev pub given : FrameId → List (Option FrameId) → ℕ
given f [] = 0
given f (o ∷ os) = one f o + given f os

abbrev pub count : FrameId → List FrameId → ℕ
count f [] = 0
count f (g ∷ gs) = one f (some g) + count f gs

-- How often it will be the answer of the `pop`s under way.
abbrev due : FrameId → List FrameId → List ℕ → ℕ
due f free [] = 0
due f free (i ∷ is) = one f (get_elem? free i) + due f free is

count-append : (f : FrameId) (xs ys : List FrameId) → count f (xs ++ ys) ≡ count f xs + count f ys
count-append f [] ys = omega arith
count-append f (x ∷ xs) ys = omega (arith, count-append f xs ys)

due-append :
    (f : FrameId) (free : List FrameId) (is js : List ℕ)
    → due f free (is ++ js) ≡ due f free is + due f free js
due-append f free [] js = omega arith
due-append f free (i ∷ is) js = omega (arith, due-append f free is js)

-- The frame is in the stack, is what a `pop` under way will read, or has been given out.
abbrev all_of : FrameId → Shared → ℕ
all_of f s = count f (frames s.list) + due f s.list.free s.loading + given f s.answers

record Follows (f : FrameId) (s s' : Shared) : Type 0 where
  same : all_of f s' ≡ all_of f s
  within : s'.list.tail ≤ length s'.list.free

Step-Follows :
    (f : FrameId) (s s' : Shared) (step : Step s s')
    → IsPop step
    → s.list.tail ≤ length s.list.free
    → Follows f s s'
Step-Follows f s _ (claim_push _ _ _) pops w = absurd pops
Step-Follows f s _ (store_frame _ _ _ _ _ _) pops w = absurd pops
Step-Follows f s _ (claim_pop _ some_left) pops w =
    let l = s.list in
    let (v, at, e) = take-suc l.free (l.tail - 1) (omega arith) in
    let back : suc (l.tail - 1) ≡ l.tail = omega arith in
    let split : count f (frames l) ≡ count f (take (l.tail - 1) l.free) + count f (v ∷ []) =
      ap (λ n. count f (take n l.free)) (sym back)
      ∙ ap (count f) e
      ∙ count-append f (take (l.tail - 1) l.free) (v ∷ []) in
    record { same = omega (arith, split, ap (one f) at); within = omega arith }
Step-Follows f s _ (load_frame _ before after i e) pops w = record {
  same = omega (
    arith,
    ap (due f s.list.free) e,
    due-append f s.list.free before (i ∷ after),
    due-append f s.list.free before after,
  );
  within = w;
}
Step-Follows f s _ (find_empty _ e) pops w = record { same = omega arith; within = w }

Steps-Follows :
    (f : FrameId) (s s' : Shared) (steps : Steps s s')
    → OnlyPops steps
    → s.list.tail ≤ length s.list.free
    → Follows f s s'
Steps-Follows f s _ (stop _) pops w = record { same = refl; within = w }
Steps-Follows f s _ (go _ s' s'' step rest) pops w =
    let first = Step-Follows f s s' step pops.0 w in
    let others = Steps-Follows f s' s'' rest pops.1 first.within in
    record { same = others.same ∙ first.same; within = others.within }

-- However the steps of any number of `pop`s interleave, when no `push` comes between and all of them are done,
-- each frame has been given out as often as it has left the stack: no frame is lost and none is given twice.
pub given-drained :
    (l : FreeList) (s' : Shared) (f : FrameId) (steps : Steps (at_rest l) s')
    → l.tail ≤ length l.free
    → OnlyPops steps
    → s'.loading ≡ []
    → given f s'.answers + count f (frames s'.list) ≡ count f (frames l)
given-drained l s' f steps w pops done =
    let follows = Steps-Follows f (at_rest l) s' steps pops w in
    omega (arith, follows.same, ap (due f s'.list.free) done)
