-- ===== src/BTree/Node/Replacement.antt =====
-- src/btree/node.rs: what `replace` does to the entries, if the order of the keys is a total one.
use dbstorage.Base.{
  ℕ, zero, suc, ◌≡◌, ◌≢◌, refl, ap, ◌∙◌, subst, true, false, some, List, [], ◌∷◌, Bool-cases, inl,
  inr, if◌then◌else◌, All, set,
}
use dbstorage.BTree.Order.{Keys, IsOrder, eq_self, ne→eq, ne_comm}
use dbstorage.BTree.Slot.{Slot}
use dbstorage.BTree.Node.{Node, replace, replace_place, get}
use dbstorage.BTree.Node.Entries.{Place, duplicate, before, shift, scan, find_by}
use dbstorage.BTree.Node.Laws.{IsSorted, Spec, scan-Spec, entry}

module _ {T V : Type 0} (keys : Keys T) where
  -- A list in which the entry of a key is the given one, and every other key's as in another list.
  Placed : Slot T V → List (Slot T V) → List (Slot T V) → Type 0
  Placed slot xs ys =
      (entry keys slot.key ys ≡ some slot)
      × IsSorted keys ys
      × ((key : T) → key ≢ slot.key → entry keys key ys ≡ entry keys key xs)

  -- At an entry with the key, the new entry can be set.
  Settable : Slot T V → List (Slot T V) → Place → Type 0
  Settable slot xs (duplicate i) = Placed slot xs (set xs i slot)
  Settable slot xs (before i) = Unit {0}

  All-set :
      (P : Slot T V → Type 0) (i : ℕ) (slot : Slot T V) (xs : List (Slot T V))
      → P slot
      → All P xs
      → All P (set xs i slot)
  All-set P i slot [] p h = tt
  All-set P zero slot (x ∷ xs) p h = (p, h.1)
  All-set P (suc i) slot (x ∷ xs) p h = (h.0, All-set P i slot xs p h.1)

  module _ (law : IsOrder keys) (slot : Slot T V) where
    here :
        (x : Slot T V) (xs : List (Slot T V))
        → IsSorted keys (x ∷ xs)
        → keys.eq x.key slot.key ≡ true
        → Placed slot (x ∷ xs) (slot ∷ xs)
    unfolding Placed find_by IsSorted
    here x xs sorted e =
        let same : x.key ≡ slot.key = (law.eq_iff x.key slot.key).0 e in
        (
          rw (eq_self keys law slot.key) refl,
          (subst (λ k. All (λ r. keys.lt k r.key ≡ true) xs) same sorted.0, sorted.1),
          λ key ne.
              rw (ne→eq keys law slot.key key ne, ne→eq keys law x.key key (λ q. ne (q ∙ same)))
                refl,
        )

    further :
        (x : Slot T V) (xs : List (Slot T V)) (p : Place)
        → IsSorted keys (x ∷ xs)
        → keys.lt x.key slot.key ≡ true
        → keys.eq x.key slot.key ≡ false
        → Settable slot xs p
        → Settable slot (x ∷ xs) (shift p)
    unfolding Settable Placed find_by IsSorted
    further x xs (before i) sorted h ne s = tt
    further x xs (duplicate i) sorted h ne s = (
      rw ne s.0,
      (All-set (λ r. keys.lt x.key r.key ≡ true) i slot xs h sorted.0, s.1),
      λ key other. ap (λ o. if keys.eq x.key key then some x else o) (s.2 key other),
    )

    scan-Settable :
        (xs : List (Slot T V)) → IsSorted keys xs → Settable slot xs (scan keys slot.key xs)
    unfolding Settable scan IsSorted
    scan-Settable [] sorted = tt
    scan-Settable (x ∷ xs) sorted = elim (Bool-cases (keys.eq x.key slot.key)) [
      | inl e ↦ rw e (here x xs sorted e)
      | inr e ↦ elim (Bool-cases (keys.lt slot.key x.key)) [
        | inl l ↦ rw (e, l) tt
        | inr l ↦
            rw (e, l)
              (further x xs (scan keys slot.key xs) sorted
                (law.total slot.key x.key (ne_comm keys law x.key slot.key e) l) e
                (scan-Settable xs sorted.1))
      ]
    ]

    replace_place-Placed :
        (n : Node T V) (p : Place)
        → Settable slot n.values p
        → Spec keys slot n.values p
        → Placed slot n.values (replace_place keys p slot n).0.values
    unfolding Settable Spec Placed replace_place
    replace_place-Placed n (duplicate i) s spec = s
    replace_place-Placed n (before i) s spec = (spec.1, spec.2, spec.3)

    -- In a node whose keys ascend, under a total order, `replace` leaves the keys ascending, the key is then
    -- found with the new entry, and every other key as before.
    pub replace-Placed :
        (n : Node T V)
        → IsSorted keys n.values
        → (get keys (replace keys slot n).0 slot.key ≡ some slot)
          × IsSorted keys (replace keys slot n).0.values
          × ((key : T) → key ≢ slot.key → get keys (replace keys slot n).0 key ≡ get keys n key)
    unfolding replace get Placed
    replace-Placed n sorted =
        replace_place-Placed n (scan keys slot.key n.values) (scan-Settable n.values sorted)
          (scan-Spec keys law slot n.values sorted)

  -- The other fields stay.
  pub replace_fields :
      (slot : Slot T V) (n : Node T V)
      → ((replace keys slot n).0.t ≡ n.t)
        × ((replace keys slot n).0.next ≡ n.next)
        × ((replace keys slot n).0.id ≡ n.id)
  unfolding replace replace_place
  replace_fields slot n = by_place (scan keys slot.key n.values)
    where
      by_place :
          (p : Place)
          → ((replace_place keys p slot n).0.t ≡ n.t)
            × ((replace_place keys p slot n).0.next ≡ n.next)
            × ((replace_place keys p slot n).0.id ≡ n.id)
      by_place (duplicate i) = (refl, refl, refl)
      by_place (before i) = (refl, refl, refl)
