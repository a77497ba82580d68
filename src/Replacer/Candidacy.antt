-- ===== src/Replacer/Candidacy.antt =====
-- src/replacer.rs: the replacer's invariant, and what the loops of `evict` keep of the nodes they pass.
use dbstorage.Base.{
  ℕ, ◌+◌, ◌^◌, ◌≤◌, ◌<◌, ◌≡◌, refl, subst, sym, ◌⊎◌, inl, inr, Option, some, none, List, [], ◌∷◌,
  arith, eq→==, ne→==, lt→ltb, not-lt→ltb, dec_lt, length, length-append, All, All-append,
  ℕ_discrete,
}
use dbstorage.HashMap.{Entries, lookup, IsDistinct, nat_key}
use dbstorage.Replacer.Nodes.{
  FrameId, LrukNode, IsHistory, last-IsHistory, get_k_distance, get_k_distance_lem,
}
use dbstorage.Replacer.{LrukReplacer, Candidates, consider, examine, examine_all, earliest}

-- A frame that may go: it has a node, and no pins.
abbrev pub Evictable : Entries FrameId LrukNode → FrameId → Type 0
Evictable nodes i = (node : LrukNode) × (lookup i nodes ≡ some node) × (node.pin ≡ 0)

-- The replacer's invariant: no frame has two nodes, each node knows its frame, and its timestamps
-- ascend to below the clock, which has not wrapped.
pub record IsValid (r : LrukReplacer) : Type 0 where
  pub distinct : IsDistinct r.nodes
  pub entries :
      All (λ (e : FrameId × LrukNode). (e.1.i ≡ e.0) × IsHistory r.current_ts e.1.history) r.nodes
  pub clock : r.current_ts < 2 ^ 64

-- What holds of each entry: it is the one its key finds, it knows its key, its history is one.
abbrev pub IsEntry : ℕ → Entries FrameId LrukNode → FrameId × LrukNode → Type 0
IsEntry clock nodes e = (lookup e.0 nodes ≡ some e.1) × (e.1.i ≡ e.0) × IsHistory clock e.1.history

-- The best frame so far, with its distance.
abbrev pub Farthest : ℕ → Entries FrameId LrukNode → Candidates → Type 0
Farthest k nodes c =
    (node : LrukNode) × (lookup c.frame nodes ≡ some node)
    × (node.pin ≡ 0)
    × (get_k_distance node k ≡ some (some c.distance))

module _ (clock k : ℕ) (nodes : Entries FrameId LrukNode) (pos : 0 < k)
    (bound : clock < 2 ^ 64) where
  pub record Sound (c : Candidates) : Type 0 where
    pub best : (c.distance ≡ 0) ⊎ Farthest k nodes c
    pub singles :
        All
          (λ (node : LrukNode). Evictable nodes node.i × IsHistory clock node.history)
          c.single_access

  abbrev pub weight : Candidates → ℕ
  weight c = c.distance + length c.single_access

  -- An unpinned node leaves a trace among the candidates, and its distance is not above the best.
  abbrev pub Seen : Candidates → FrameId × LrukNode → Type 0
  Seen c e =
      (e.1.pin ≡ 0 → 2 ≤ k → 0 < weight c)
      × ((d : ℕ) → e.1.pin ≡ 0 → get_k_distance e.1 k ≡ some (some d) → d ≤ c.distance)

  pub record Grows (c c' : Candidates) : Type 0 where
    pub distance_le : c.distance ≤ c'.distance
    pub weight_le : weight c ≤ weight c'

  consider_lem :
      (c : Candidates) (e : FrameId × LrukNode) (o : Option ℕ)
      → IsEntry clock nodes e
      → e.1.pin ≡ 0
      → get_k_distance e.1 k ≡ some o
      → ((d : ℕ) → o ≡ some d → 2 ≤ k → 0 < d)
      → Sound c
      → Sound (consider c e.0 e.1 o)
        × Grows c (consider c e.0 e.1 o)
        × Seen (consider c e.0 e.1 o) e
  unfolding consider
  consider_lem c e none (found, own, hist) free q positive s =
      let size = length-append c.single_access (e.1 ∷ []) in
      (
        record {
          best = s.best;
          singles =
              All-append _ c.single_access (e.1 ∷ []) s.singles
                (((e.1, subst (λ q. lookup q nodes ≡ some e.1) (sym own) found, free), hist), tt);
        },
        record { distance_le = omega arith; weight_le = omega (arith, size) },
        (λ _ _. omega (arith, size), λ d _ r. ground arith),
      )
  consider_lem c e (some d) (found, own, hist) free q positive s = elim (dec_lt c.distance d) [
    | yes better ↦ rw (lt→ltb _ _ better) (
      record { best = inr (e.1, found, free, q); singles = s.singles },
      record { distance_le = omega arith; weight_le = omega arith },
      (λ _ two. omega (arith, positive d refl two), λ d' _ r. ground arith),
    )
    | no worse ↦ rw (not-lt→ltb _ _ worse) (
      s,
      record { distance_le = omega arith; weight_le = omega arith },
      (λ _ two. omega (arith, positive d refl two), λ d' _ r. ground arith),
    )
  ]

  examine_lem :
      (c : Candidates) (e : FrameId × LrukNode)
      → IsEntry clock nodes e
      → Sound c
      → (c' : Candidates) × (examine k c e.0 e.1 ≡ some c') × Sound c' × Grows c c' × Seen c' e
  unfolding examine
  examine_lem c e entry s = elim (ℕ_discrete e.1.pin 0) [
    | yes free ↦
        let (o, q, positive) = get_k_distance_lem clock k e.1 pos bound entry.2 in
        let (s', g, seen) = consider_lem c e o entry free q positive s in
        (consider c e.0 e.1 o, rw (eq→== _ _ free, q), s', g, seen)
    | no held ↦ (
      c,
      rw (ne→== _ _ held),
      s,
      record { distance_le = omega arith; weight_le = omega arith },
      (λ free. absurd (held free), λ d free. absurd (held free)),
    )
  ]

  Seen-mono : (c c' : Candidates) → Grows c c' → (e : FrameId × LrukNode) → Seen c e → Seen c' e
  Seen-mono c c' g e (a, b) =
      (λ free two. omega (arith, a free two), λ d free q. omega (arith, b d free q))

  pub examine_all_lem :
      (c : Candidates) (m : Entries FrameId LrukNode)
      → All (IsEntry clock nodes) m
      → Sound c
      → (c' : Candidates) × (examine_all k c m ≡ some c') × Sound c' × Grows c c' × All (Seen c') m
  unfolding examine_all
  examine_all_lem c [] h s =
      (c, refl, s, record { distance_le = omega arith; weight_le = omega arith }, tt)
  examine_all_lem c ((id, node) ∷ m) h s =
      let (c₁, e₁, s₁, g₁, seen) = examine_lem c (id, node) h.0 s in
      let (c₂, e₂, s₂, g₂, rest) = examine_all_lem c₁ m h.1 s₁ in
      (
        c₂,
        rw (e₁, e₂),
        s₂,
        record { distance_le = omega (arith, g₁, g₂); weight_le = omega (arith, g₁, g₂) },
        (Seen-mono c₁ c₂ g₂ (id, node) seen, rest),
      )

  -- The second loop returns its start or one of the nodes; with a timestamp below the start it is a
  -- node.
  pub earliest_lem :
      (i : FrameId) (ts : ℕ) (l : List LrukNode)
      → All (λ (node : LrukNode). Evictable nodes node.i × IsHistory clock node.history) l
      → Evictable nodes i ⊎ ((clock ≤ ts) × (0 < length l))
      → (j : FrameId) × (earliest i ts l ≡ some j) × Evictable nodes j
  unfolding earliest
  earliest_lem i ts [] h (inl good) = (i, refl, good)
  earliest_lem i ts [] h (inr (_, h0)) = absurd (omega arith)
  earliest_lem i ts (node ∷ rest) h start =
      let (t, last_t, early) = last-IsHistory clock node.history h.0.1 in
      elim (dec_lt t ts) [
        | yes sooner ↦
            let (j, e, good) = earliest_lem node.i t rest h.1 (inl h.0.0) in
            (j, rw (last_t, lt→ltb _ _ sooner, e), good)
        | no later ↦
            let (j, e, good) = earliest_lem i ts rest h.1 (inl (stay start later early)) in
            (j, rw (last_t, not-lt→ltb _ _ later, e), good)
      ]
    where
      stay :
          {t : ℕ}
          → Evictable nodes i ⊎ ((clock ≤ ts) × (0 < length (node ∷ rest)))
          → ¬ (t < ts)
          → t < clock
          → Evictable nodes i
      stay (inl good) later early = good
      stay (inr (le, _)) later early = absurd (later (omega arith))
