-- ===== src/Replacer/Eviction.antt =====
-- Which frame `evict` picks: the loops of `evict` against the entries of the map.
use dbstorage.Base.{
  ℕ, ◌+◌, ◌-◌, ◌^◌, ◌%◌, ◌≤◌, ◌<◌, ◌≡◌, refl, ap, ◌≢◌, inl, inr, Option, some, none, List, [], ◌∷◌,
  arith, last, eq→==, ne→==, not-lt→ltb, get_elem?, length, All, All-mono, ℕ_discrete,
}
use dbstorage.Base.Panic.{◌>>=◌}
use dbstorage.HashMap.{Entries, lookup, entries_found, nat_key}
use dbstorage.Replacer.Nodes.{FrameId, LrukNode, IsHistory, get_k_distance}
use dbstorage.Replacer.{
  LrukReplacer, Candidates, consider, examine, examine_all, earliest, choose, evict, max_u64,
}
use dbstorage.Replacer.Candidacy.{
  Evictable, IsValid, IsEntry, Sound, Seen, examine_all_lem, earliest_lem,
}

-- What `evict` promises. With no frame, every node is pinned. With a frame, the frame has no pins, and no
-- unpinned frame with a positive k-distance is farther.
abbrev pub Choice : LrukReplacer → Option FrameId → Type 0
Choice r none = All (λ (e : FrameId × LrukNode). e.1.pin ≢ 0) r.nodes
Choice r (some i) =
    (node : LrukNode) × (lookup i r.nodes ≡ some node)
    × (node.pin ≡ 0)
    × All
        (λ (e : FrameId × LrukNode).
          (d : ℕ)
          → e.1.pin ≡ 0
          → get_k_distance e.1 r.k ≡ some (some d)
          → 0 < d
          → (d' : ℕ) × (get_k_distance node r.k ≡ some (some d')) × (d ≤ d'))
        r.nodes

choose_lem :
    (r : LrukReplacer) (two : 2 ≤ r.k) (pos : 0 < r.k) (v : IsValid r) (c : Candidates)
    → Sound r.current_ts r.k r.nodes pos v.clock c
    → All (Seen r.current_ts r.k r.nodes pos v.clock c) r.nodes
    → (o : Option FrameId) × (choose c ≡ some o) × Choice r o
unfolding choose
choose_lem r two pos v c s seen = elim (ℕ_discrete c.distance 0) [
  | yes zero ↦ rw (eq→== _ _ zero) (singles c.single_access s.singles refl zero)
  | no far ↦ rw (ne→== _ _ far) (elim s.best [
    | inl zero ↦ absurd (far zero)
    | inr (node, found, free, q) ↦ (
      some c.frame,
      refl,
      (
        node,
        found,
        free,
        All-mono _ _ r.nodes (λ e h d free' q' positive. (c.distance, q, h.1 d free' q')) seen,
      ),
    )
  ])
]
  where
    singles :
        (l : List LrukNode)
        → All
            (λ (node : LrukNode). Evictable r.nodes node.i × IsHistory r.current_ts node.history)
            l
        → c.single_access ≡ l
        → c.distance ≡ 0
        → (o : Option FrameId) × ((elim l [
          | [] ↦ some none
          | node ∷ rest ↦ (do i ← earliest 0 max_u64 (node ∷ rest); some (some i))
        ])
            ≡ some o)
          × Choice r o
    singles [] h e zero = (
      none,
      refl,
      All-mono _ _ r.nodes (λ x seen' free. absurd (omega (arith, seen'.0 free two, ap length e)))
          seen,
    )
    singles (node ∷ rest) h e zero =
        let (i, q, (best, found, free)) =
          earliest_lem r.current_ts r.k r.nodes pos v.clock 0 max_u64 (node ∷ rest) h
            (inr (omega (arith, v.clock), omega arith)) in
        (
          some i,
          rw q,
          (
            best,
            found,
            free,
            All-mono _ _ r.nodes
                (λ x seen' d free' q' positive. absurd (omega (arith, seen'.1 d free' q'))) seen,
          ),
        )

pairs_All {ℓ} :
    {A : Type 0} (P Q : A → Type ℓ) (xs : List A) → All P xs → All Q xs → All (λ a. P a × Q a) xs
pairs_All P Q [] p q = tt
pairs_All P Q (x ∷ xs) p q = ((p.0, q.0), pairs_All P Q xs p.1 q.1)

-- On a valid replacer with `k` at least 2 `evict` does not panic. If it names no frame, every node is
-- pinned. If it names one, that frame has a node with no pins, and no unpinned frame with a positive
-- k-distance is farther.
pub evict-Choice :
    (r : LrukReplacer)
    → IsValid r
    → 2 ≤ r.k
    → (o : Option FrameId) × (evict r ≡ some o) × Choice r o
unfolding evict
evict-Choice r v two =
    let pos : 0 < r.k = omega arith in
    let entries =
      All-mono _ (IsEntry r.current_ts r.nodes) r.nodes (λ e h. (h.0, h.1.0, h.1.1))
        (pairs_All _ _ r.nodes (entries_found r.nodes v.distinct) v.entries) in
    let start : Candidates = record { frame = 0; distance = 0; single_access = [] } in
    let (c, e, s, _, seen) =
      examine_all_lem r.current_ts r.k r.nodes pos v.clock start r.nodes entries
        (record { best = inl refl; singles = tt }) in
    let (o, q, good) = choose_lem r two pos v c s seen in (o, rw (e, q), good)

get_elem?-last :
    (clock : ℕ) (ts : List ℕ)
    → IsHistory clock ts
    → (t : ℕ) × (last ts ≡ some t)
      × (get_elem? ts (length ts - 1) ≡ some t)
      × (0 < length ts)
      × (t < clock)
unfolding last
get_elem?-last clock [] h = absurd h
get_elem?-last clock (t ∷ []) h = (t, refl, ground arith, omega arith, h)
get_elem?-last clock (t ∷ u ∷ ts) h =
    let (l, end, at, size, early) = get_elem?-last clock (u ∷ ts) h.1 in
    (l, end, ground arith, omega arith, early)

get_k_distance-one :
    (clock : ℕ) (node : LrukNode)
    → clock < 2 ^ 64
    → IsHistory clock node.history
    → get_k_distance node 1 ≡ some (some 0)
unfolding get_k_distance
get_k_distance-one clock node bound h =
    let (t, end, at, size, early) = get_elem?-last clock node.history h in
    let zero : (t + 2 ^ 64 - t) % 2 ^ 64 ≡ 0 = omega arith in
    rw (not-lt→ltb (length node.history) 1 (λ q. absurd (omega arith)), end, at, zero)

examine_all-one :
    (clock : ℕ) (m : Entries FrameId LrukNode) (c : Candidates)
    → clock < 2 ^ 64
    → c.distance ≡ 0
    → All (λ (e : FrameId × LrukNode). (e.1.i ≡ e.0) × IsHistory clock e.1.history) m
    → examine_all 1 c m ≡ some c
unfolding examine_all examine consider
examine_all-one clock [] c bound zero h = refl
examine_all-one clock ((id, node) ∷ m) c bound zero h =
    ground
      (arith, get_k_distance-one clock node bound h.0.1, examine_all-one clock m c bound zero h.1)

-- With `k = 1` no frame is ever evicted, pinned or not: each k-distance is 0, and 0 is what the loop
-- takes for "none found".
pub evict-one : (r : LrukReplacer) → IsValid r → r.k ≡ 1 → evict r ≡ some none
unfolding evict choose
evict-one r v e = rw (
  e,
  examine_all-one r.current_ts r.nodes (record { frame = 0; distance = 0; single_access = [] })
      v.clock refl v.entries,
)
