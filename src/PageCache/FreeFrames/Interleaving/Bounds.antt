-- ===== src/PageCache/FreeFrames/Interleaving/Bounds.antt =====
-- src/page_cache.rs: no access of `push` or `pop` leaves the array of a `FreeList`, however many threads call.
use dbstorage.Base.{
  ℕ, ◌≤◌, ◌<◌, ◌≡◌, ◌∙◌, subst, List, ◌∷◌, ◌++◌, arith, length, length-set, All, All-append,
  All-append_left, All-append_right,
}
use dbstorage.Replacer.Nodes.{FrameId}
use dbstorage.PageCache.FreeFrames.Interleaving.{
  Shared, Step, claim_push, store_frame, claim_pop, load_frame, find_empty, Steps, stop, go,
}

-- The tail and the places that are claimed lie in the array.
pub record IsWithin (size : ℕ) (s : Shared) : Type 0 where
  pub whole : length s.list.free ≡ size
  pub tail_within : s.list.tail ≤ size
  pub store_within : All (λ (c : ℕ × FrameId). c.0 < size) s.storing
  pub load_within : All (λ i. i < size) s.loading

-- What holds of all holds of the others when one is taken out.
All-without :
    {A : Type 0} (P : A → Type 0) (xs before after : List A) (x : A)
    → xs ≡ before ++ (x ∷ after)
    → All P xs
    → All P (before ++ after)
All-without P xs before after x e h =
    let all = subst (All P) e h in
    All-append P before after (All-append_left P before (x ∷ after) all)
      (All-append_right P before (x ∷ after) all).1

Step-IsWithin : (size : ℕ) (s s' : Shared) → Step s s' → IsWithin size s → IsWithin size s'
Step-IsWithin size s _ (claim_push _ f room) w = record {
  whole = w.whole;
  tail_within = omega (arith, w.tail_within, w.whole);
  store_within = (omega (arith, w.tail_within, w.whole), w.store_within);
  load_within = w.load_within;
}
Step-IsWithin size s _ (store_frame _ before after i f e) w = record {
  whole = length-set s.list.free i f ∙ w.whole;
  tail_within = w.tail_within;
  store_within = All-without _ s.storing before after (i, f) e w.store_within;
  load_within = w.load_within;
}
Step-IsWithin size s _ (claim_pop _ some_left) w = record {
  whole = w.whole;
  tail_within = omega (arith, w.tail_within);
  store_within = w.store_within;
  load_within = (omega (arith, w.tail_within), w.load_within);
}
Step-IsWithin size s _ (load_frame _ before after i e) w = record {
  whole = w.whole;
  tail_within = w.tail_within;
  store_within = w.store_within;
  load_within = All-without _ s.loading before after i e w.load_within;
}
Step-IsWithin size s _ (find_empty _ e) w = record {
  whole = w.whole;
  tail_within = w.tail_within;
  store_within = w.store_within;
  load_within = w.load_within;
}

-- However the steps of any number of `push`es and `pop`s interleave, from a list whose tail lies in the array the
-- tail and every place that a call has claimed and is about to write or read lie in the array.
pub Steps-IsWithin : (size : ℕ) (s s' : Shared) → Steps s s' → IsWithin size s → IsWithin size s'
Steps-IsWithin size s _ (stop _) w = w
Steps-IsWithin size s _ (go _ s' s'' step rest) w =
    Steps-IsWithin size s' s'' rest (Step-IsWithin size s s' step w)
