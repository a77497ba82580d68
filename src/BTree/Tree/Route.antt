-- ===== src/BTree/Tree/Route.antt =====
-- src/btree/mod.rs: the way of a key down a tree of nodes, and what lookups find once the leaf at its end
-- was changed, whatever keeps the nodes.
use mathlib.Core.Bool.{true≢false}
use dbstorage.Base.{
  ℕ, zero, suc, ◌-◌, ◌<◌, arith, ◌≡◌, ◌≢◌, ◌⊎◌, sym, ap, ◌∙◌, subst, inl, inr, true, false,
  Bool-cases, Option, some, none, if◌then◌else◌,
}
use dbstorage.Base.Panic.{◌>>=◌, >>=-eq-some}
use dbstorage.Bytes.Signed.{◌=ℤ◌, =ℤ_cases, =ℤ_refl}
use dbstorage.Page.{PageId}
use dbstorage.BTree.Order.{Keys, IsOrder}
use dbstorage.BTree.Slot.{Slot}
use dbstorage.BTree.Node
use dbstorage.BTree.Node.{Node, internal, leaf, is_leaf, find_child}
use dbstorage.BTree.Tree.Search.{search, answer}

-- The search for a key goes from a page, so many inner nodes down, to a leaf; the inner nodes on the way
-- have a property.
abbrev pub Route :
    {T V : Type 0}
    → Keys T
    → (Node T V → Type 0)
    → (PageId → Option (Node T V))
    → ℕ
    → T
    → PageId
    → PageId
    → Node T V
    → Type 0
Route keys P nodes zero key id at end = (id ≡ at) × (nodes id ≡ some end) × (end.t ≡ leaf)
Route {T} {V} keys P nodes (suc h) key id at end =
    (node : Node T V) × (next : PageId) × (nodes id ≡ some node)
    × P node
    × (node.t ≡ internal)
    × (find_child keys node key ≡ some (some next))
    × Route keys P nodes h key next at end

-- One page for each inner node and for the leaf, and so many more.
abbrev pub reach : ℕ → ℕ → ℕ
reach zero extra = suc extra
reach (suc h) extra = suc (reach h extra)

pub reach_lem : (h fuel : ℕ) → h < fuel → reach h (fuel - suc h) ≡ fuel
reach_lem h zero lt = elim lt [ ]
reach_lem zero (suc fuel) lt = omega arith
reach_lem (suc h) (suc fuel) lt =
    let e : suc fuel - suc (suc h) ≡ fuel - suc h = omega arith in
    ap (λ k. suc (reach h k)) e ∙ ap suc (reach_lem h fuel (omega arith))

module _ {T V : Type 0} (keys : Keys T) where
  -- The search ends at a leaf.
  pub search-leaf :
      (nodes : PageId → Option (Node T V)) (n : Node T V) (k : T) (id : PageId) (fuel : ℕ)
      → nodes id ≡ some n
      → n.t ≡ leaf
      → search keys nodes (suc fuel) k id ≡ some (Node.get keys n k)
  unfolding search answer find_child
  search-leaf nodes n k id fuel at kind =
      let is : is_leaf n.t ≡ true = ap is_leaf kind in
      rw at (
        ap
          (λ b.
            (if b
              then some none
              else Node.chosen_child keys n.next
                  (Node.Entries.find_by (λ s. keys.lt k s.key) n.values))
            >>= answer keys k (search keys nodes fuel k) n)
          is
        ∙ ap (λ b. some (if b then Node.get keys n k else none)) is)

  -- A leaf sends no key to a child.
  pub find_leaf : (key : T) (node : Node T V) → node.t ≡ leaf → find_child keys node key ≡ some none
  unfolding find_child
  find_leaf key node kind =
      ap
        (λ t.
          if is_leaf t
          then some none
          else Node.chosen_child keys node.next
              (Node.Entries.find_by (λ s. keys.lt key s.key) node.values))
        kind

  pub Route-end :
      (P : Node T V → Type 0) (nodes : PageId → Option (Node T V)) (h : ℕ) (key : T)
      (id at : PageId) (end : Node T V)
      → Route keys P nodes h key id at end
      → (nodes at ≡ some end) × (end.t ≡ leaf)
  Route-end P nodes zero key id at end (same, there, kind) =
      (subst (λ x. nodes x ≡ some end) same there, kind)
  Route-end P nodes (suc h) key id at end (node, next, there, p, kind, chosen, path) =
      Route-end P nodes h key next at end path

  -- The node of the page in which a path begins.
  pub Route-top :
      (P : Node T V → Type 0) (nodes : PageId → Option (Node T V)) (h : ℕ) (key : T)
      (id at : PageId) (end : Node T V)
      → Route keys P nodes h key id at end
      → (node : Node T V) × (nodes id ≡ some node)
  Route-top P nodes zero key id at end (_, there, _) = (end, there)
  Route-top P nodes (suc h) key id at end (node, _, there, _, _, _, _) = (node, there)

  pub search-Route :
      (P : Node T V → Type 0) (nodes : PageId → Option (Node T V)) (h : ℕ) (key : T)
      (id at : PageId) (end : Node T V) (e : ℕ)
      → Route keys P nodes h key id at end
      → search keys nodes (reach h e) key id ≡ some (Node.get keys end key)
  unfolding search answer
  search-Route P nodes zero key id at end e (same, there, kind) =
      search-leaf nodes end key id e there kind
  search-Route P nodes (suc h) key id at end e (node, next, there, p, kind, chosen, path) =
      rw (there, chosen) (search-Route P nodes h key next at end e path)

  -- The nodes after a leaf was changed.
  module _ (nodes nodes' : PageId → Option (Node T V)) (at : PageId) (old new : Node T V)
      (there : nodes at ≡ some old) (was : old.t ≡ leaf) (is : new.t ≡ leaf)
      (changed : (x : PageId) → nodes' x ≡ (if at =ℤ x then some new else nodes x)) where
    apart : (x : PageId) (n : Node T V) → nodes x ≡ some n → n.t ≡ internal → at ≢ x
    apart x n h kind same =
        let e : some old ≡ some n = sym there ∙ ap nodes same ∙ h in
        let t : old.t ≡ n.t = ap (λ (o : Option (Node T V)). kind_of o) e in
        absurd (true≢false (sym (ap is_leaf was) ∙ ap is_leaf (t ∙ kind)))
      where
        kind_of : Option (Node T V) → Node.NodeType
        kind_of (some n) = n.t
        kind_of none = leaf

    elsewhere : (x : PageId) → at ≢ x → nodes' x ≡ nodes x
    elsewhere x other = elim (=ℤ_cases at x) [
      | inl (same, _) ↦ absurd (other same)
      | inr (_, e) ↦ changed x ∙ (rw e)
    ]

    here : nodes' at ≡ some new
    here = changed at ∙ (rw (=ℤ_refl at))

    pub Route-changed :
        (P : Node T V → Type 0) (h : ℕ) (key : T) (id : PageId)
        → Route keys P nodes h key id at old
        → Route keys P nodes' h key id at new
    Route-changed P zero key id (same, _, _) =
        (same, subst (λ x. nodes' x ≡ some new) (sym same) here, is)
    Route-changed P (suc h) key id (node, next, found, p, kind, chosen, path) = (
      node,
      next,
      elsewhere id (apart id node found kind) ∙ found,
      p,
      kind,
      chosen,
      Route-changed P h key next path,
    )

    -- A search ends as before, or at the leaf that was changed.
    Outcomes : ℕ → T → PageId → Option (Slot T V) → Type 0
    Outcomes n k ptr o =
        (search keys nodes' n k ptr ≡ some o)
        ⊎ ((o ≡ Node.get keys old k) × (search keys nodes' n k ptr ≡ some (Node.get keys new k)))

    inside :
        (n : ℕ) (k : T) (ptr : PageId) (o : Option (Slot T V)) (node : Node T V)
        (child : Option PageId)
        → nodes' ptr ≡ some node
        → find_child keys node k ≡ some child
        → answer keys k (search keys nodes n k) node child ≡ some o
        → ((x : PageId) → search keys nodes n k x ≡ some o → Outcomes n k x o)
        → Outcomes (suc n) k ptr o
    unfolding Outcomes search answer
    inside n k ptr o node none found chosen h rec = inl (rw (found, chosen) h)
    inside n k ptr o node (some next) found chosen h rec = elim (rec next h) [
      | inl e ↦ inl (rw (found, chosen) e)
      | inr (e, f) ↦ inr (e, rw (found, chosen) f)
    ]

    one : {a b : Option (Slot T V)} → some a ≡ some b → a ≡ b
    one h = cc

    search-Outcomes :
        (n : ℕ) (k : T) (ptr : PageId) (o : Option (Slot T V))
        → search keys nodes n k ptr ≡ some o
        → Outcomes n k ptr o
    unfolding Outcomes search
    search-Outcomes zero k ptr o h = absurd (cc)
    search-Outcomes (suc n) k ptr o h = elim (=ℤ_cases at ptr) [
      | inl (same, _) ↦
          let found = search-leaf nodes old k at n there was in
          let h' : search keys nodes (suc n) k at ≡ some o =
            subst (λ x. search keys nodes (suc n) k x ≡ some o) (sym same) h in
          inr (
            one (sym h' ∙ found),
            subst (λ x. search keys nodes' (suc n) k x ≡ some (Node.get keys new k)) same
                (search-leaf nodes' new k at n here is),
          )
      | inr (other, _) ↦
          let (node, found, h₁) = >>=-eq-some (nodes ptr) _ h in
          let (child, chosen, h₂) = >>=-eq-some (find_child keys node k) _ h₁ in
          inside n k ptr o node child (elsewhere ptr other ∙ found) chosen h₂
            (λ x q. search-Outcomes n k x o q)
    ]

    -- If the leaf changed for its key only, only this key's lookup changes.
    pub search-changed :
        (law : IsOrder keys) (P : Node T V → Type 0) (h e : ℕ) (key : T) (root : PageId)
        → Route keys P nodes h key root at old
        → ((k : T) → keys.eq key k ≡ false → Node.get keys new k ≡ Node.get keys old k)
        → (k : T) (o : Option (Slot T V)) → search keys nodes (reach h e) k root ≡ some o
        → search keys nodes' (reach h e) k root
          ≡ some (if keys.eq key k then Node.get keys new key else o)
    unfolding Outcomes
    search-changed law P h x key root path rest k o found = elim (Bool-cases (keys.eq key k)) [
      | inl e ↦
          let same : key ≡ k = (law.eq_iff key k).0 e in
          rw e (
            subst (λ y. search keys nodes' (reach h x) y root ≡ some (Node.get keys new key)) same
              (search-Route P nodes' h key root at new x (Route-changed P h key root path)))
      | inr e ↦ elim (search-Outcomes (reach h x) k root o found) [
        | inl q ↦ rw e q
        | inr (q, f) ↦ rw e (f ∙ ap some (rest k e ∙ sym q))
      ]
    ]
