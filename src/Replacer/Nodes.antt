-- ===== src/Replacer/Nodes.antt =====
-- The nodes of the replacer and what holds of each.
use dbstorage.Base.{
  last, dec_lt, lt→ltb, ℕ, zero, suc, ◌+◌, ◌-◌, ◌^◌, ◌%◌, ◌≤◌, ◌<◌, ◌≡◌, refl, Option, some, none,
  List, [], ◌∷◌, ◌++◌, ltb, if◌then◌else◌, arith, length, get_elem?,
}
use dbstorage.Base.Panic.{◌>>=◌}

abbrev pub FrameId : Type 0
FrameId = ℕ

pub record LrukNode : Type 0 where
  pub i : FrameId
  pub history : List ℕ
  pub pin : ℕ

-- `LRUKNode::new`
unfoldable pub new_node : FrameId → ℕ → LrukNode
new_node i ts = record { i = i; history = ts ∷ []; pin = 0 }

-- The outer `none` is a panic: `unwrap` on an empty history, or an index past its end (`k` is 0).
unfoldable pub get_k_distance : LrukNode → ℕ → Option (Option ℕ)
unfolding last
get_k_distance node k = if ltb (length node.history) k then some none else (do
  latest ← last node.history
  old ← get_elem? node.history (length node.history - k)
  some (some ((latest + 2 ^ 64 - old) % 2 ^ 64)))

-- Timestamps ascend, and all are below the clock; there is one at least.
abbrev pub IsHistory : ℕ → List ℕ → Type 0
IsHistory clock [] = ⊥
IsHistory clock (t ∷ []) = t < clock
IsHistory clock (t ∷ u ∷ ts) = (t < u) × IsHistory clock (u ∷ ts)

pub IsHistory-snoc :
    (clock : ℕ) (ts : List ℕ) → IsHistory clock ts → IsHistory (suc clock) (ts ++ (clock ∷ []))
IsHistory-snoc clock [] h = absurd h
IsHistory-snoc clock (t ∷ []) h = (h, omega arith)
IsHistory-snoc clock (t ∷ u ∷ ts) h = (h.0, IsHistory-snoc clock (u ∷ ts) h.1)

pub IsHistory-mono : (c d : ℕ) (ts : List ℕ) → c ≤ d → IsHistory c ts → IsHistory d ts
IsHistory-mono c d [] h p = p
IsHistory-mono c d (t ∷ []) h p = omega arith
IsHistory-mono c d (t ∷ u ∷ ts) h p = (p.0, IsHistory-mono c d (u ∷ ts) h p.1)

pub last-IsHistory :
    (clock : ℕ) (ts : List ℕ) → IsHistory clock ts → (t : ℕ) × (last ts ≡ some t) × (t < clock)
unfolding last
last-IsHistory clock [] h = absurd h
last-IsHistory clock (t ∷ []) h = (t, refl, h)
last-IsHistory clock (t ∷ u ∷ ts) h = last-IsHistory clock (u ∷ ts) h.1

-- An entry before the last one is below it; how far from the end is what `k` says.
pub older :
    (clock : ℕ) (ts : List ℕ) (i : ℕ)
    → IsHistory clock ts
    → i < length ts
    → (old latest : ℕ) × (get_elem? ts i ≡ some old)
      × (last ts ≡ some latest)
      × (old ≤ latest)
      × (suc i < length ts → old < latest)
      × (latest < clock)
unfolding last
older clock [] i h lt = absurd h
older clock (t ∷ []) zero h lt = (t, t, refl, refl, omega arith, λ q. absurd (omega arith), h)
older clock (t ∷ []) (suc i) h lt = absurd (omega arith)
older clock (t ∷ u ∷ ts) zero h lt =
    let (old, latest, at, end, le, _, bound) = older clock (u ∷ ts) 0 h.1 (omega arith) in
    (t, latest, refl, end, ground arith, λ q. ground arith, bound)
older clock (t ∷ u ∷ ts) (suc i) h lt =
    let (old, latest, at, end, le, strict, bound) = older clock (u ∷ ts) i h.1 (omega arith) in
    (old, latest, at, end, le, λ q. strict (omega arith), bound)

-- For `k` at least 1 the distance is computed without a panic. It is missing exactly when there are
-- fewer than `k` accesses, and it is positive from `k = 2` on.
pub get_k_distance_lem :
    (clock k : ℕ) (node : LrukNode)
    → 0 < k
    → clock < 2 ^ 64
    → IsHistory clock node.history
    → (o : Option ℕ) × (get_k_distance node k ≡ some o) × ((d : ℕ) → o ≡ some d → 2 ≤ k → 0 < d)
unfolding get_k_distance
get_k_distance_lem clock k node pos bound h = elim (dec_lt (length node.history) k) [
  | yes short ↦ (none, rw (lt→ltb _ _ short), λ d q _. cc)
  | no long ↦
      let (old, latest, at, end, le, strict, small) =
        older clock node.history (length node.history - k) h (omega (arith, nonempty clock _ h)) in
      (some ((latest + 2 ^ 64 - old) % 2 ^ 64), ground arith, λ d q two. ground (arith, strict))
]
  where
    nonempty : (c : ℕ) (ts : List ℕ) → IsHistory c ts → 0 < length ts
    nonempty c [] p = absurd p
    nonempty c (t ∷ ts) p = omega arith
