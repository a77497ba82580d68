-- ===== src/BTree/Tree/Scan.antt =====
-- src/btree/mod.rs: `scan` goes down to the first leaf and along the chain of leaves.
use mathlib.Core.List.{append_assoc}
use dbstorage.Base.{
  ℕ, zero, suc, ◌+◌, ◌≡◌, ◌≢◌, sym, ap, ◌∙◌, inl, inr, true, false, Option, some, List, [], ◌++◌,
  subst, arith, get_elem?, ok,
}
use dbstorage.Base.Panic.{>>=-eq-some}
use dbstorage.Bytes.Signed.{ℤ, ◌=ℤ◌, =ℤ_cases}
use dbstorage.Page.{PageId, PageInner}
use dbstorage.Disk.{Disk}
use dbstorage.HashMap.{lookup, int_key}
use dbstorage.Storable.{Storable}
use dbstorage.Replacer.{LrukReplacer, unpin}
use dbstorage.Replacer.Nodes.{FrameId}
use dbstorage.PageCache.{PageCache, Pin}
use dbstorage.PageCache.Scopes.{pick_yes, pick_no}
use dbstorage.PageCache.Consistency.{IsConsistent}
use dbstorage.PageCache.Picks.{relabel}
use dbstorage.BTree.Order.{Keys}
use dbstorage.BTree.Node.{Node, internal, leaf, is_leaf, no_next}
use dbstorage.BTree.Node.Image.{KeyCodec, from_page}
use dbstorage.BTree.Tree.{BTree, no_root, first_child, pairs_of, scan_from, scan}
use dbstorage.BTree.Tree.Lookup.{frame_node, noted, fetched, read_node-at, visit}

true≢false : ¬ (true ≡ false)
true≢false h = cc

-- A test for equality, once the answer is known.
pub =ℤ_no : (a b : ℤ) → a ≢ b → (a =ℤ b) ≡ false
=ℤ_no a b h = elim (=ℤ_cases a b) [ inl (e, _) ↦ absurd (h e) | inr (_, e) ↦ e ]

-- A leaf, and so many leaves behind it, hold pairs of keys and values in order.
abbrev pub Leaves :
    {T V : Type 0} → (PageId → Option (Node T V)) → ℕ → Node T V → List (T × V) → Type 0
Leaves nodes zero node ps =
    (node.t ≡ leaf) × (node.next ≡ no_next) × (pairs_of node.values ≡ some ps)
Leaves {T} {V} nodes (suc n) node ps =
    (qs : List (T × V)) × (rest : List (T × V)) × (node' : Node T V) × (node.t ≡ leaf)
    × (node.next ≢ no_next)
    × (pairs_of node.values ≡ some qs)
    × (ps ≡ qs ++ rest)
    × (nodes node.next ≡ some node')
    × Leaves nodes n node' rest

-- From a node, so many first children down, there is such a leaf.
abbrev pub Under :
    {T V : Type 0}
    → Keys T
    → (PageId → Option (Node T V))
    → ℕ
    → ℕ
    → Node T V
    → List (T × V)
    → Type 0
Under keys nodes zero n node ps = Leaves nodes n node ps
Under {T} {V} keys nodes (suc h) n node ps =
    (ptr : PageId) × (node' : Node T V) × (node.t ≡ internal)
    × (first_child keys node ≡ some ptr)
    × (nodes ptr ≡ some node')
    × Under keys nodes h n node' ps

-- The pages on the way: the first children and the leaves.
abbrev steps : ℕ → ℕ → ℕ
steps zero n = suc n
steps (suc h) n = suc (steps h n)

steps_lem : (h n : ℕ) → steps h n ≡ h + suc n
steps_lem zero n = omega arith
steps_lem (suc h) n = omega (arith, steps_lem h n)

module _ {D T V : Type 0} (disk : Disk D) (keys : Keys T) (codec : KeyCodec T)
    (vs : Storable V) where
  -- The frame of a page and what it holds.
  Framed : PageCache D → PageId → Node T V → Type 0
  Framed s id node =
      (i : FrameId) × (p : PageInner) × (lookup id s.page_table ≡ some i)
      × (get_elem? s.pages i ≡ some p)
      × (from_page codec vs p.content ≡ some node)

  frame_node-Framed :
      (s : PageCache D) (id : PageId) (node : Node T V)
      → frame_node disk keys codec vs s id ≡ some node
      → Framed s id node
  unfolding Framed
  frame_node-Framed s id node at =
      let (i, e, at₁) = >>=-eq-some (lookup id s.page_table) _ at in
      let (p, held, image) = >>=-eq-some (get_elem? s.pages i) _ at₁ in (i, p, e, held, image)

  -- The scan from a page that is held.
  Scans : ℕ → PageCache D → Pin → List (T × V) → List (T × V) → Type 0
  Scans fuel s q acc ps =
      (r : LrukReplacer) × (scan_from disk keys codec vs fuel q acc s
        ≡ (ok (acc ++ ps), noted disk keys codec vs s r))

  scan_from-Leaves :
      (n : ℕ) (s : PageCache D) (q : Pin) (p : PageInner) (acc ps : List (T × V)) (node : Node T V)
      → IsConsistent disk s
      → get_elem? s.pages q.i ≡ some p
      → from_page codec vs p.content ≡ some node
      → Leaves (frame_node disk keys codec vs s) n node ps
      → Scans (suc n) s q acc ps
  unfolding Scans scan_from Framed
  scan_from-Leaves zero s q p acc ps node v held image (kind, last, pairs) =
      let is : is_leaf node.t ≡ true = ap is_leaf kind in
      let end : (node.next =ℤ no_next) ≡ true = ap (λ x. x =ℤ no_next) last in
      (
        s.replacer,
        rw (read_node-at disk keys codec vs s q p node held image) (
            pick_yes (is_leaf node.t) _ _ s is
            ∙ (rw pairs (pick_yes (node.next =ℤ no_next) _ _ s end))),
      )
  scan_from-Leaves (suc n) s q p acc ps node v held image
        (qs, rest, node', kind, more, pairs, split, at, leaves) =
      let is : is_leaf node.t ≡ true = ap is_leaf kind in
      let go : (node.next =ℤ no_next) ≡ false = =ℤ_no node.next no_next more in
      let (i, p', e, held', image') = frame_node-Framed s node.next node' at in
      let f = fetched disk keys codec vs s i in
      let (r, found) =
        scan_from-Leaves n (noted disk keys codec vs s f) (record { i = i; id = node.next }) p'
          (acc ++ qs) rest node' (relabel disk s s.free f s.next_page_id v) held' image' leaves in
      let whole : (acc ++ qs) ++ rest ≡ acc ++ ps =
        append_assoc acc qs rest ∙ ap (◌++◌ acc) (sym split) in
      (
        unpin r i,
        rw (read_node-at disk keys codec vs s q p node held image) (
              pick_yes (is_leaf node.t) _ _ s is
              ∙ (rw pairs (
                  pick_no (node.next =ℤ no_next) _ _ s go
                  ∙ visit disk keys codec vs s node.next i _ ((acc ++ qs) ++ rest) r v e found)))
            ∙ ap (λ l. (ok l, noted disk keys codec vs s (unpin r i))) whole,
      )

  scan_from-Under :
      (h n : ℕ) (s : PageCache D) (q : Pin) (p : PageInner) (ps : List (T × V)) (node : Node T V)
      → IsConsistent disk s
      → get_elem? s.pages q.i ≡ some p
      → from_page codec vs p.content ≡ some node
      → Under keys (frame_node disk keys codec vs s) h n node ps
      → Scans (steps h n) s q [] ps
  unfolding Scans scan_from Framed
  scan_from-Under zero n s q p ps node v held image under =
      scan_from-Leaves n s q p [] ps node v held image under
  scan_from-Under (suc h) n s q p ps node v held image (ptr, node', kind, down, at, under) =
      let is : is_leaf node.t ≡ false = ap is_leaf kind in
      let (i, p', e, held', image') = frame_node-Framed s ptr node' at in
      let f = fetched disk keys codec vs s i in
      let (r, found) =
        scan_from-Under h n (noted disk keys codec vs s f) (record { i = i; id = ptr }) p' ps node'
          (relabel disk s s.free f s.next_page_id v) held' image' under in
      (
        unpin r i,
        rw (read_node-at disk keys codec vs s q p node held image) (
            pick_no (is_leaf node.t) _ _ s is
            ∙ (rw down (visit disk keys codec vs s ptr i _ ps r v e found))),
      )

  -- In a consistent cache whose frames hold a root, a number of first children below it, and a chain of leaves
  -- from the last of them on, `scan` with as many pages as fuel as there are on this way ends without an error,
  -- gives the keys and values of the leaves in order, and changes nothing but what the replacer notes.
  pub scan-Under :
      (h n : ℕ) (s : PageCache D) (tree : BTree) (node : Node T V) (ps : List (T × V))
      → IsConsistent disk s
      → tree.root ≢ no_root
      → frame_node disk keys codec vs s tree.root ≡ some node
      → Under keys (frame_node disk keys codec vs s) h n node ps
      → (r : LrukReplacer) × (scan disk keys codec vs (h + suc n) tree s
          ≡ (ok ps, noted disk keys codec vs s r))
  unfolding scan Framed Scans
  scan-Under h n s tree node ps v real at under =
      let (i, p, e, held, image) = frame_node-Framed s tree.root node at in
      let f = fetched disk keys codec vs s i in
      let (r, found) =
        scan_from-Under h n (noted disk keys codec vs s f) (record { i = i; id = tree.root }) p ps
          node (relabel disk s s.free f s.next_page_id v) held image under in
      let fuel : steps h n ≡ h + suc n = steps_lem h n in
      (
        unpin r i,
        subst
            (λ k.
              scan disk keys codec vs k tree s ≡ (ok ps, noted disk keys codec vs s (unpin r i)))
            fuel
            (elim (=ℤ_cases tree.root no_root) [
              | inl (same, _) ↦ absurd (real same)
              | inr (_, other) ↦ rw other (visit disk keys codec vs s tree.root i _ ps r v e found)
            ]),
      )
