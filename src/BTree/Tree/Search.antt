-- ===== src/BTree/Tree/Search.antt =====
-- src/btree/mod.rs: what a lookup in a tree of nodes finds, whatever keeps the nodes.
use mathlib.Core.Bool.{true≢false}
use dbstorage.Base.{
  ℕ, zero, suc, ◌≡◌, refl, sym, ap, ◌∙◌, inl, inr, true, false, Bool-cases, Option, some, none,
  List, [], ◌∷◌, ◌++◌, if◌then◌else◌, All,
}
use dbstorage.Base.Panic.{◌>>=◌}
use dbstorage.Page.{PageId}
use dbstorage.BTree.Order.{Keys, IsOrder}
use dbstorage.BTree.Slot.{Slot, pointer, get_ptr}
use dbstorage.BTree.Node
use dbstorage.BTree.Node.{Node, internal, leaf, is_leaf, no_next, find_child, chosen_child}
use dbstorage.BTree.Node.Entries.{find_by}

-- The answer at a node, or the search in the child.
unfoldable pub answer :
    {T V : Type 0}
    → Keys T
    → T
    → (PageId → Option (Option (Slot T V)))
    → Node T V
    → Option PageId
    → Option (Option (Slot T V))
answer keys key into node none = some (if is_leaf node.t then Node.get keys node key else none)
answer keys key into node (some next) = into next

-- The reference for `_get`: from node to node, with at most so many nodes on the way.
unfoldable pub search :
    {T V : Type 0}
    → Keys T
    → (PageId → Option (Node T V))
    → ℕ
    → T
    → PageId
    → Option (Option (Slot T V))
unfolding answer
search keys nodes zero key ptr = none
search keys nodes (suc n) key ptr = do
  node ← nodes ptr
  child ← find_child keys node key
  answer keys key (search keys nodes n key) node child

-- The entry of a key in a list.
abbrev pub entry_of : {T V : Type 0} → Keys T → T → List (Slot T V) → Option (Slot T V)
entry_of keys key es = find_by (λ s. keys.eq s.key key) es

-- The children that entries point to hold a list of entries in order; the keys below an entry are less
-- than the entry's, those of the children behind it are not.
abbrev pub Children :
    {T V : Type 0}
    → Keys T
    → (PageId → List (Slot T V) → Type 0)
    → List (Slot T V)
    → List (Slot T V)
    → Type 0
Children keys Below [] es = es ≡ []
Children {V = V} keys Below (s ∷ rest) es =
    (ptr : PageId) × (l : List (Slot _ V)) × (r : List (Slot _ V)) × (s.either ≡ pointer ptr)
    × (es ≡ l ++ r)
    × Below ptr l
    × All (λ e. keys.lt e.key s.key ≡ true) l
    × All (λ e. keys.lt e.key s.key ≡ false) r
    × Children keys Below rest r

-- The page is the root of a tree of a height, whose leaves hold a list of entries.
abbrev pub Holds :
    {T V : Type 0} → Keys T → (PageId → Option (Node T V)) → ℕ → PageId → List (Slot T V) → Type 0
Holds {T} {V} keys nodes zero ptr es =
    (node : Node T V) × (nodes ptr ≡ some node) × (node.t ≡ leaf) × (node.values ≡ es)
Holds {T} {V} keys nodes (suc h) ptr es =
    (node : Node T V) × (nodes ptr ≡ some node)
    × (node.t ≡ internal)
    × (node.next ≡ no_next)
    × Children keys (Holds keys nodes h) node.values es

module _ {T V : Type 0} (keys : Keys T) (law : IsOrder keys) (key : T) where
  -- No entry of a list has the key.
  absent :
      (es more : List (Slot T V))
      → All (λ e. keys.eq e.key key ≡ false) es
      → entry_of keys key (es ++ more) ≡ entry_of keys key more
  unfolding find_by
  absent [] more h = refl
  absent (e ∷ es) more h = rw h.0 (absent es more h.1)

  below :
      (k : T) (es : List (Slot T V))
      → keys.lt key k ≡ false
      → All (λ e. keys.lt e.key k ≡ true) es
      → All (λ e. keys.eq e.key key ≡ false) es
  below k [] h a = tt
  below k (e ∷ es) h a = (
    elim (Bool-cases (keys.eq e.key key)) [
      | inl q ↦
          let same : e.key ≡ key = (law.eq_iff e.key key).0 q in
          absurd (true≢false (sym a.0 ∙ ap (λ x. keys.lt x k) same ∙ h))
      | inr q ↦ q
    ],
    below k es h a.1,
  )

  above :
      (k : T) (es : List (Slot T V))
      → keys.lt key k ≡ true
      → All (λ e. keys.lt e.key k ≡ false) es
      → All (λ e. keys.eq e.key key ≡ false) es
  above k [] h a = tt
  above k (e ∷ es) h a = (
    elim (Bool-cases (keys.eq e.key key)) [
      | inl q ↦
          let same : e.key ≡ key = (law.eq_iff e.key key).0 q in
          absurd (true≢false (sym h ∙ ap (λ x. keys.lt x k) (sym same) ∙ a.0))
      | inr q ↦ q
    ],
    above k es h a.1,
  )

  no_more :
      (l r : List (Slot T V))
      → All (λ e. keys.eq e.key key ≡ false) r
      → entry_of keys key (l ++ r) ≡ entry_of keys key l
  unfolding find_by
  no_more [] [] h = refl
  no_more [] (e ∷ r) h = rw h.0 (no_more [] r h.1)
  no_more (e ∷ l) r h = elim (Bool-cases (keys.eq e.key key)) [
    | inl q ↦ rw q refl
    | inr q ↦ rw q (no_more l r h)
  ]

  -- The child that the search enters holds the key's entry, if there is one; without a child no entry has
  -- the key.
  abbrev pub Chosen :
      (PageId → List (Slot T V) → Type 0) → List (Slot T V) → Option (Slot T V) → Type 0
  Chosen Below es none = entry_of keys key es ≡ none
  Chosen Below es (some s) =
      (ptr : PageId) × (l : List (Slot T V)) × (s.either ≡ pointer ptr)
      × Below ptr l
      × (entry_of keys key es ≡ entry_of keys key l)

  Chosen-mono :
      (Below : PageId → List (Slot T V) → Type 0) (es fewer : List (Slot T V))
      (o : Option (Slot T V))
      → entry_of keys key es ≡ entry_of keys key fewer
      → Chosen Below fewer o
      → Chosen Below es o
  Chosen-mono Below es fewer none h c = h ∙ c
  Chosen-mono Below es fewer (some s) h (ptr, l, e, b, q) = (ptr, l, e, b, h ∙ q)

  Children-Chosen :
      (Below : PageId → List (Slot T V) → Type 0) (values es : List (Slot T V))
      → Children keys Below values es
      → Chosen Below es (find_by (λ s. keys.lt key s.key) values)
  unfolding find_by
  Children-Chosen Below [] es h = ap (entry_of keys key) h
  Children-Chosen Below (s ∷ rest) es (ptr, l, r, e, split, b, less, more, children) =
      elim (Bool-cases (keys.lt key s.key)) [
        | inl q ↦
            rw q (ptr, l, e, b, ap (entry_of keys key) split ∙ no_more l r (above s.key r q more))
        | inr q ↦ rw q (
            Chosen-mono Below es r _
              (ap (entry_of keys key) split ∙ absent l r (below s.key l q less))
              (Children-Chosen Below rest r children))
      ]

  module _ (nodes : PageId → Option (Node T V)) where
    -- The search goes on in the chosen child.
    enter :
        (h : ℕ) (node : Node T V) (es : List (Slot T V)) (o : Option (Slot T V))
        → node.t ≡ internal
        → node.next ≡ no_next
        → ((ptr : PageId) (l : List (Slot T V))
            → Holds keys nodes h ptr l
            → search keys nodes (suc h) key ptr ≡ some (entry_of keys key l))
        → Chosen (Holds keys nodes h) es o
        → (chosen_child keys node.next o >>= answer keys key (search keys nodes (suc h) key) node)
          ≡ some (entry_of keys key es)
    unfolding chosen_child answer get_ptr
    enter h node es none inner last rec c = rw (last, inner, c) refl
    enter h node es (some s) inner last rec (ptr, l, e, b, q) = rw (e, rec ptr l b, q) refl

  at_leaf :
      (nodes : PageId → Option (Node T V)) (node : Node T V) (es : List (Slot T V))
      → node.t ≡ leaf
      → node.values ≡ es
      → (find_child keys node key >>= answer keys key (search keys nodes zero key) node)
        ≡ some (entry_of keys key es)
  unfolding answer find_child Node.get
  at_leaf nodes node es kind all =
      let none_here : find_child keys node key ≡ some none =
        ap
          (λ t.
            if is_leaf t
            then some none
            else chosen_child keys node.next (find_by (λ s. keys.lt key s.key) node.values))
          kind in
      ap (λ o. o >>= answer keys key (search keys nodes zero key) node) none_here
      ∙ ap (λ t. some (if is_leaf t then Node.get keys node key else none)) kind
      ∙ ap (λ l. some (entry_of keys key l)) all

  find_child-internal :
      (node : Node T V)
      → node.t ≡ internal
      → find_child keys node key
        ≡ chosen_child keys node.next (find_by (λ s. keys.lt key s.key) node.values)
  unfolding find_child
  find_child-internal node e =
      ap
        (λ t.
          if is_leaf t
          then some none
          else chosen_child keys node.next (find_by (λ s. keys.lt key s.key) node.values))
        e

  -- Under a total order, in a tree whose separators bound the keys of their children, the search with the
  -- tree's height as bound ends, and finds what a search through all entries of the leaves finds.
  pub search-Holds :
      (nodes : PageId → Option (Node T V)) (h : ℕ) (ptr : PageId) (es : List (Slot T V))
      → Holds keys nodes h ptr es
      → search keys nodes (suc h) key ptr ≡ some (entry_of keys key es)
  unfolding search
  search-Holds nodes zero ptr es (node, at, kind, all) = rw at (at_leaf nodes node es kind all)
  search-Holds nodes (suc h) ptr es (node, at, kind, last, children) =
      rw (at, find_child-internal node kind)
        (enter nodes h node es (find_by (λ s. keys.lt key s.key) node.values) kind last
          (search-Holds nodes h) (Children-Chosen (Holds keys nodes h) node.values es children))
