-- ===== src/BTree/Tree/Lookup.antt =====
-- src/btree/mod.rs: `get` over the page cache finds what the search in the nodes of its pages finds.
use dbstorage.Base.{
  ℕ, zero, suc, ◌≡◌, ◌≢◌, refl, inl, inr, Bool, true, false, Option, some, none, List,
  if◌then◌else◌, get_elem?, ok,
}
use dbstorage.Base.Panic.{>>=-eq-some}
use dbstorage.Bytes.Signed.{=ℤ_cases}
use dbstorage.Page.{PageId, PageInner}
use dbstorage.Disk.{Disk}
use dbstorage.HashMap.{lookup, int_key}
use dbstorage.Storable.{Storable}
use dbstorage.Replacer.{LrukReplacer, unpin}
use dbstorage.Replacer.Nodes.{FrameId}
use dbstorage.PageCache
use dbstorage.PageCache.{PageCache, Pin, Call, found_page, page_at, fetch_page, read_pin, drop_pin}
use dbstorage.PageCache.Scopes.{finally}
use dbstorage.PageCache.Views
use dbstorage.PageCache.Consistency.{IsConsistent}
use dbstorage.PageCache.Picks.{relabel}
use dbstorage.BTree.Order.{Keys, IsOrder}
use dbstorage.BTree.Slot.{Slot}
use dbstorage.BTree.Node
use dbstorage.BTree.Node.{Node, is_leaf, find_child}
use dbstorage.BTree.Node.Image.{KeyCodec, from_page}
use dbstorage.BTree.Tree.{BTree, no_root, read_node, get_from, get}
use dbstorage.BTree.Tree.Search.{search, answer, Holds, entry_of, search-Holds}

module _ {D T V : Type 0} (disk : Disk D) (keys : Keys T) (codec : KeyCodec T)
    (vs : Storable V) where
  -- The node of a page that has a frame.
  abbrev pub frame_node : PageCache D → PageId → Option (Node T V)
  frame_node = Views.view disk (from_page codec vs)

  abbrev pub noted : PageCache D → LrukReplacer → PageCache D
  noted = Views.noted disk

  abbrev pub fetched : PageCache D → FrameId → LrukReplacer
  fetched = Views.fetched disk

  pub read_node-at :
      (s : PageCache D) (q : Pin) (p : PageInner) (node : Node T V)
      → get_elem? s.pages q.i ≡ some p
      → from_page codec vs p.content ≡ some node
      → read_node disk keys codec vs q s ≡ (ok node, s)
  unfolding read_node read_pin page_at found_page
  read_node-at s q p node at e = rw (at, e) refl

  -- A page that has a frame is fetched, something is done with it, and it is dropped.
  pub visit :
      {A : Type 0} (s : PageCache D) (id : PageId) (i : FrameId) (f : Pin → Call D A) (a : A)
      (r : LrukReplacer)
      → IsConsistent disk s
      → lookup id s.page_table ≡ some i
      → f (record { i = i; id = id }) (noted s (fetched s i)) ≡ (ok a, noted s r)
      → PageCache.◌>>=◌ (fetch_page disk id) (λ q. finally disk q (f q)) s
        ≡ (ok a, noted s (unpin r i))
  visit s id i f a r v e h = Views.visit disk s id i f (ok a) (noted s r) v e h

  -- One page on the way, whose node is known.
  module _ (n : ℕ) (s : PageCache D) (key : T) (id : PageId) (o : Option (Slot T V))
      (v : IsConsistent disk s) (i : FrameId) (e : lookup id s.page_table ≡ some i) (p : PageInner)
      (held : get_elem? s.pages i ≡ some p) (node : Node T V)
      (image : from_page codec vs p.content ≡ some node) where
    Found : ℕ → PageCache D → PageId → Type 0
    Found m t x = (r : LrukReplacer) × (get_from disk keys codec vs m key x t ≡ (ok o, noted t r))

    at_end :
        (b : Bool) (x : Option (Slot T V)) {t : PageCache D}
        → some (if b then x else none) ≡ some o
        → (if b then PageCache.pure x else PageCache.pure none) t ≡ (ok o, t)
    at_end true x h = cc
    at_end false x h = cc

    step :
        (child : Option PageId)
        → find_child keys node key ≡ some child
        → answer keys key (search keys (frame_node s) n key) node child ≡ some o
        → ((x : PageId)
            → search keys (frame_node s) n key x ≡ some o
            → Found n (noted s (fetched s i)) x)
        → Found (suc n) s id
    unfolding Found answer get_from
    step none chosen h rec = (
      unpin (fetched s i) i,
      visit s id i _ o (fetched s i) v e (
          rw
            (
              read_node-at (noted s (fetched s i)) (record { i = i; id = id }) p node held image,
              chosen,
            )
            (at_end (is_leaf node.t) (Node.get keys node key) h)),
    )
    step (some next) chosen h rec =
        let (r, found) = rec next h in
        (
          unpin r i,
          visit s id i _ o r v e (
              rw
                (
                  read_node-at (noted s (fetched s i)) (record { i = i; id = id }) p node held
                      image,
                  chosen,
                )
                found),
        )

  -- If the search in the nodes of the pages that have frames ends, `get_from` with the same bound gives its
  -- answer, and changes nothing but what the replacer notes.
  pub get_from-search :
      (n : ℕ) (s : PageCache D) (key : T) (id : PageId) (o : Option (Slot T V))
      → IsConsistent disk s
      → search keys (frame_node s) n key id ≡ some o
      → (r : LrukReplacer) × (get_from disk keys codec vs n key id s ≡ (ok o, noted s r))
  unfolding search Found
  get_from-search zero s key id o v h = absurd (cc)
  get_from-search (suc n) s key id o v h =
      let (node, at, h₁) = >>=-eq-some (frame_node s id) _ h in
      let (i, e, at₁) = >>=-eq-some (lookup id s.page_table) _ at in
      let (p, held, image) = >>=-eq-some (get_elem? s.pages i) _ at₁ in
      let (child, chosen, h₂) = >>=-eq-some (find_child keys node key) _ h₁ in
      let s₁ = noted s (fetched s i) in
      let v₁ = relabel disk s s.free (fetched s i) s.next_page_id v in
      step n s key id o v i e p held node image child chosen h₂
        (λ x q. get_from-search n s₁ key x o v₁ q)

  -- The call at a tree with a root.
  pub get_real :
      (fuel : ℕ) (s : PageCache D) (tree : BTree) (k : T)
      → tree.root ≢ no_root
      → get disk keys codec vs fuel tree k s ≡ get_from disk keys codec vs fuel k tree.root s
  unfolding get
  get_real fuel s tree k real = elim (=ℤ_cases tree.root no_root) [
    | inl (same, _) ↦ absurd (real same)
    | inr (_, e) ↦ rw e refl
  ]

  -- Under a total order, in a consistent cache whose frames hold a tree whose separators bound the keys of
  -- their children, `get` with one more than the tree's height as fuel ends without an error, finds what a
  -- search through all entries of the leaves finds, and changes nothing but what the replacer notes.
  pub get-Holds :
      (law : IsOrder keys) (h : ℕ) (s : PageCache D) (tree : BTree) (key : T) (es : List (Slot T V))
      → IsConsistent disk s
      → tree.root ≢ no_root
      → Holds keys (frame_node s) h tree.root es
      → (r : LrukReplacer) × (get disk keys codec vs (suc h) tree key s
          ≡ (ok (entry_of keys key es), noted s r))
  unfolding get
  get-Holds law h s tree key es v real holds =
      let found = search-Holds keys law key (frame_node s) h tree.root es holds in
      let (r, q) = get_from-search (suc h) s key tree.root (entry_of keys key es) v found in
      elim (=ℤ_cases tree.root no_root) [
        | inl (same, e) ↦ absurd (real same)
        | inr (other, e) ↦ (r, rw e q)
      ]
