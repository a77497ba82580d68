-- ===== src/BTree/Node/Laws.antt =====
-- src/btree/node.rs: what a node's operations do to its entries, if the order of the keys is a total one.
use dbstorage.Base.{
  ℕ, zero, suc, ◌/◌, ◌≤◌, ◌≡◌, ◌≢◌, refl, ap, Bool, true, false, Option, some, none, List, [], ◌∷◌,
  ◌++◌, arith, length, take, drop, take-append-drop, length-take, length-drop, Bool-cases, ◌⊎◌, inl,
  inr, if◌then◌else◌, All,
}
use dbstorage.Page.{PageId}
use dbstorage.BTree.Order.{Keys, IsOrder, lt→ne, eq_self, ne→eq, ne_comm}
use dbstorage.BTree.Slot.{Slot}
use dbstorage.BTree.Node.{
  NodeType, leaf, internal, Node, insert, insert_place, get, split, is_leaf, no_next,
}
use dbstorage.BTree.Node.Entries.{Place, duplicate, before, shift, scan, find_by, insert_at}

module _ {T V : Type 0} (keys : Keys T) where
  -- The keys are in strictly ascending order.
  unfoldable pub IsSorted : List (Slot T V) → Type 0
  IsSorted [] = Unit {0}
  IsSorted (s ∷ rest) = All (λ r. keys.lt s.key r.key ≡ true) rest × IsSorted rest

  abbrev pub entry : T → List (Slot T V) → Option (Slot T V)
  entry key = find_by (λ s. keys.eq s.key key)

  -- What `insert` does to the list of entries.
  abbrev insert_entry : Place → Slot T V → List (Slot T V) → List (Slot T V) × Bool
  insert_entry (duplicate i) slot xs = (xs, false)
  insert_entry (before i) slot xs = (insert_at i slot xs, true)

  abbrev inserted : Slot T V → List (Slot T V) → List (Slot T V) × Bool
  inserted slot xs = insert_entry (scan keys slot.key xs) slot xs

  -- What is true of the place that `scan` finds.
  unfoldable pub Spec : Slot T V → List (Slot T V) → Place → Type 0
  Spec slot xs (duplicate i) = (old : Slot T V) × (entry slot.key xs ≡ some old)
  Spec slot xs (before i) =
      (entry slot.key xs ≡ none)
      × (entry slot.key (insert_at i slot xs) ≡ some slot)
      × IsSorted (insert_at i slot xs)
      × ((key : T) → key ≢ slot.key → entry key (insert_at i slot xs) ≡ entry key xs)

  All-insert_at :
      (P : Slot T V → Type 0) (i : ℕ) (slot : Slot T V) (xs : List (Slot T V))
      → P slot
      → All P xs
      → All P (insert_at i slot xs)
  unfolding insert_at
  All-insert_at P zero slot xs p h = (p, h)
  All-insert_at P (suc i) slot [] p h = (p, tt)
  All-insert_at P (suc i) slot (x ∷ xs) p h = (h.0, All-insert_at P i slot xs p h.1)

  module _ (law : IsOrder keys) where
    -- A key below all others is not there.
    pub absent :
        (key : T) (xs : List (Slot T V))
        → All (λ r. keys.lt key r.key ≡ true) xs
        → entry key xs ≡ none
    unfolding find_by
    absent key [] h = refl
    absent key (x ∷ xs) h = rw (lt→ne keys law key x.key h.0) (absent key xs h.1)

    below :
        (a b : T) (xs : List (Slot T V))
        → keys.lt a b ≡ true
        → All (λ r. keys.lt b r.key ≡ true) xs
        → All (λ r. keys.lt a r.key ≡ true) xs
    below a b [] h k = tt
    below a b (x ∷ xs) h k = (law.trans a b x.key h k.0, below a b xs h k.1)

    at_front :
        (slot x : Slot T V) (xs : List (Slot T V))
        → IsSorted (x ∷ xs)
        → keys.lt slot.key x.key ≡ true
        → Spec slot (x ∷ xs) (before 0)
    unfolding Spec insert_at find_by IsSorted
    at_front slot x xs sorted h =
        let all : All (λ r. keys.lt slot.key r.key ≡ true) (x ∷ xs) =
          (h, below slot.key x.key xs h sorted.0) in
        (
          absent slot.key (x ∷ xs) all,
          rw (eq_self keys law slot.key),
          (all, sorted),
          λ key ne. rw (ne→eq keys law slot.key key ne),
        )

    shift-Spec :
        (slot x : Slot T V) (xs : List (Slot T V)) (p : Place)
        → IsSorted (x ∷ xs)
        → keys.lt x.key slot.key ≡ true
        → keys.eq x.key slot.key ≡ false
        → Spec slot xs p
        → Spec slot (x ∷ xs) (shift p)
    unfolding Spec insert_at find_by IsSorted
    shift-Spec slot x xs (duplicate i) sorted h ne spec = (spec.0, rw ne spec.1)
    shift-Spec slot x xs (before i) sorted h ne spec = (
      rw ne spec.0,
      rw ne spec.1,
      (All-insert_at (λ r. keys.lt x.key r.key ≡ true) i slot xs h sorted.0, spec.2),
      λ key other. ap (λ o. if keys.eq x.key key then some x else o) (spec.3 key other),
    )

    pub scan-Spec :
        (slot : Slot T V) (xs : List (Slot T V))
        → IsSorted xs
        → Spec slot xs (scan keys slot.key xs)
    unfolding Spec scan insert_at find_by IsSorted
    scan-Spec slot [] h = (
      refl,
      rw (eq_self keys law slot.key),
      (tt, tt),
      λ key ne. rw (ne→eq keys law slot.key key ne),
    )
    scan-Spec slot (x ∷ xs) h = elim (Bool-cases (keys.eq x.key slot.key)) [
      | inl e ↦ rw e (x, rw e)
      | inr e ↦ elim (Bool-cases (keys.lt slot.key x.key)) [
        | inl l ↦ rw (e, l) (at_front slot x xs h l)
        | inr l ↦
            rw (e, l)
              (shift-Spec slot x xs (scan keys slot.key xs) h
                (law.total slot.key x.key (ne_comm keys law x.key slot.key e) l) e
                (scan-Spec slot xs h.1))
      ]
    ]

  module _ (slot : Slot T V) (n : Node T V) where
    -- The two outcomes of an insertion: the key is new and its entry is in its place, every other key as
    -- before; or the key is there and nothing changes.
    pub Inserted : Node T V × Bool → Type 0
    Inserted (after, done) =
        ((get keys n slot.key ≡ none)
          × (done ≡ true)
          × (get keys after slot.key ≡ some slot)
          × IsSorted after.values
          × ((key : T) → key ≢ slot.key → get keys after key ≡ get keys n key))
        ⊎ ((old : Slot T V) × (get keys n slot.key ≡ some old) × (done ≡ false) × (after ≡ n))

    place-Inserted : (p : Place) → Spec slot n.values p → Inserted (insert_place keys p slot n)
    unfolding Inserted Spec insert_place get
    place-Inserted (duplicate i) spec = inr (spec.0, spec.1, refl, refl)
    place-Inserted (before i) spec = inl (spec.0, refl, spec.1, spec.2, spec.3)

    -- Into a node whose keys ascend, under a total order, an entry with a new key is inserted so that the
    -- keys still ascend, the key is found with the entry and every other key as before; a key that is
    -- there is refused and the node is unchanged.
    pub insert-Inserted : IsOrder keys → IsSorted n.values → Inserted (insert keys slot n)
    unfolding insert
    insert-Inserted law sorted =
        place-Inserted (scan keys slot.key n.values) (scan-Spec law slot n.values sorted)

  All-take : (P : Slot T V → Type 0) (k : ℕ) (xs : List (Slot T V)) → All P xs → All P (take k xs)
  All-take P zero xs h = tt
  All-take P (suc k) [] h = tt
  All-take P (suc k) (x ∷ xs) h = (h.0, All-take P k xs h.1)

  All-drop : (P : Slot T V → Type 0) (k : ℕ) (xs : List (Slot T V)) → All P xs → All P (drop k xs)
  All-drop P zero xs h = h
  All-drop P (suc k) [] h = tt
  All-drop P (suc k) (x ∷ xs) h = All-drop P k xs h.1

  take-IsSorted : (k : ℕ) (xs : List (Slot T V)) → IsSorted xs → IsSorted (take k xs)
  unfolding IsSorted
  take-IsSorted zero xs h = tt
  take-IsSorted (suc k) [] h = tt
  take-IsSorted (suc k) (x ∷ xs) h =
      (All-take (λ r. keys.lt x.key r.key ≡ true) k xs h.0, take-IsSorted k xs h.1)

  drop-IsSorted : (k : ℕ) (xs : List (Slot T V)) → IsSorted xs → IsSorted (drop k xs)
  unfolding IsSorted
  drop-IsSorted zero xs h = h
  drop-IsSorted (suc k) [] h = tt
  drop-IsSorted (suc k) (x ∷ xs) h = drop-IsSorted k xs h.1

  -- Every key of the first list is below every key of the second.
  pub IsBelow : List (Slot T V) → List (Slot T V) → Type 0
  IsBelow xs ys = All (λ x. All (λ y. keys.lt x.key y.key ≡ true) ys) xs

  take-IsBelow-drop : (k : ℕ) (xs : List (Slot T V)) → IsSorted xs → IsBelow (take k xs) (drop k xs)
  unfolding IsBelow IsSorted
  take-IsBelow-drop zero xs h = tt
  take-IsBelow-drop (suc k) [] h = tt
  take-IsBelow-drop (suc k) (x ∷ xs) h =
      (All-drop (λ y. keys.lt x.key y.key ≡ true) k xs h.0, take-IsBelow-drop k xs h.1)

  -- The halves of a split, of a leaf and of an internal node.
  pub Halves : Node T V → PageId → Node T V × Node T V → Type 0
  Halves n id (low, high) =
      (low.values ++ high.values ≡ n.values)
      × IsSorted low.values
      × IsSorted high.values
      × IsBelow low.values high.values
      × (length low.values ≤ length high.values)
      × (length high.values ≤ suc (length low.values))
      × (low.id ≡ n.id)
      × (high.id ≡ id)
      × (low.next ≡ (if is_leaf n.t then id else n.next))
      × (high.next ≡ (if is_leaf n.t then n.next else no_next))

  middle :
      (n : Node T V)
      → IsSorted n.values
      → let k : ℕ = length n.values / 2 in
        (take k n.values ++ drop k n.values ≡ n.values)
        × IsSorted (take k n.values)
        × IsSorted (drop k n.values)
        × IsBelow (take k n.values) (drop k n.values)
        × (length (take k n.values) ≤ length (drop k n.values))
        × (length (drop k n.values) ≤ suc (length (take k n.values)))
  middle n h =
      let k : ℕ = length n.values / 2 in
      (
        take-append-drop k n.values,
        take-IsSorted k n.values h,
        drop-IsSorted k n.values h,
        take-IsBelow-drop k n.values h,
        omega (arith, length-take k n.values, length-drop k n.values),
        omega (arith, length-take k n.values, length-drop k n.values),
      )

  typed-Halves :
      (t : NodeType) (n : Node T V) (id : PageId)
      → n.t ≡ t
      → IsSorted n.values
      → Halves n id (split keys n id)
  unfolding split Halves
  typed-Halves leaf n id e h =
      let (whole, low, high, apart, fewer, more) = middle n h in
      rw e (whole, low, high, apart, fewer, more, refl, refl, refl, refl)
  typed-Halves internal n id e h =
      let (whole, low, high, apart, fewer, more) = middle n h in
      rw e (whole, low, high, apart, fewer, more, refl, refl, refl, refl)

  -- A node whose keys ascend is split into two whose entries are together those of the node, in order:
  -- each half ascends, the lower one is below the other and at most one entry shorter; the leaves stay
  -- chained, from the lower to the new one and on to the old next.
  pub split-Halves :
      (n : Node T V) (id : PageId) → IsSorted n.values → Halves n id (split keys n id)
  split-Halves n id h = typed-Halves n.t n id refl h
