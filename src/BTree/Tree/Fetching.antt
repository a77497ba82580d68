-- ===== src/BTree/Tree/Fetching.antt =====
-- src/btree/mod.rs: `get` when pages of the tree have to be fetched, and others to go for them.
use dbstorage.Base.{
  ℕ, zero, suc, ◌≡◌, ◌≢◌, refl, sym, ap, ◌∙◌, subst, inl, inr, Bool, true, false, Option, some,
  none, List, if◌then◌else◌, ok,
}
use dbstorage.Base.Panic.{>>=-eq-some}
use dbstorage.Bytes.Signed.{◌=ℤ◌, =ℤ_cases}
use dbstorage.Page.{PageId, PageBuf}
use dbstorage.Disk.{Disk, IsLawful, IoResult, done, fail, panics}
use dbstorage.Storable.{Storable}
use dbstorage.Replacer.{unpin}
use dbstorage.PageCache
use dbstorage.PageCache.{PageCache, Pin, Call, fetch_page, read_pin, drop_pin}
use dbstorage.PageCache.Scopes.{finally}
use dbstorage.PageCache.Consistency.{no_page, content, IsConsistent}
use dbstorage.PageCache.Picks.{relabel, next-ok}
use dbstorage.PageCache.Access.{fetch_page-read_pin}
use dbstorage.BTree.Order.{Keys, IsOrder}
use dbstorage.BTree.Slot.{Slot}
use dbstorage.BTree.Node
use dbstorage.BTree.Node.{Node, is_leaf, find_child}
use dbstorage.BTree.Node.Image.{KeyCodec, from_page}
use dbstorage.BTree.Tree.{BTree, no_root, read_node, get_from, get}
use dbstorage.BTree.Tree.Search.{search, answer, Holds, entry_of, search-Holds}

module _ {D T V : Type 0} (disk : Disk D) (keys : Keys T) (codec : KeyCodec T)
    (vs : Storable V) where
  abbrev buf_node : IoResult PageBuf → Option (Node T V)
  buf_node (done buf) = from_page codec vs buf
  buf_node (fail e) = none
  buf_node panics = none

  -- The node of a page, in a frame or on the disk.
  abbrev pub page_node : PageCache D → PageId → Option (Node T V)
  page_node s id = if id =ℤ no_page then none else buf_node (content disk s id)

  -- What a call keeps.
  abbrev pub Kept : PageCache D → PageCache D → Type 0
  Kept s s' = IsConsistent disk s' × ((j : PageId) → content disk s' j ≡ content disk s j)

  page_node-real :
      (s : PageCache D) (id : PageId) {node : Node T V}
      → page_node s id ≡ some node
      → (id ≢ no_page) × (buf_node (content disk s id) ≡ some node)
  page_node-real s id h = elim (=ℤ_cases id no_page) [
    | inl (same, e) ↦
        absurd (none≢some (sym (ap (λ b. if b then none else buf_node (content disk s id)) e) ∙ h))
    | inr (other, e) ↦
        (other, sym (ap (λ b. if b then none else buf_node (content disk s id)) e) ∙ h)
  ]
    where
      none≢some : {n : Node T V} → ¬ (◌≡◌ {A = Option (Node T V)} none (some n))
      none≢some q = cc

  finally-ok :
      {A : Type 0} (q : Pin) (m : Call D A) (s : PageCache D) {a : A} {s' : PageCache D}
      → finally disk q m s ≡ (ok a, s')
      → (t : PageCache D) × (m s ≡ (ok a, t)) × (s' ≡ record t { replacer = unpin t.replacer q.i })
  unfolding drop_pin
  finally-ok q m s {a} {s'} h = ((m s).1, (λ j. ((h j).0, (m s).1)), λ j. (sym h j).1)

  read_node-ok :
      (q : Pin) (s : PageCache D) (buf : PageBuf) (node : Node T V)
      → read_pin disk q s ≡ (ok buf, s)
      → from_page codec vs buf ≡ some node
      → read_node disk keys codec vs q s ≡ (ok node, s)
  unfolding read_node
  read_node-ok q s buf node e image = rw (e, image) refl

  -- One page on the way: it is fetched, and the call goes on from a cache that shows the same pages.
  module _ (law : IsLawful disk) (n : ℕ) (key : T) (o : Option (Slot T V)) where
    Right : ℕ → Type 0
    Right m =
        (s : PageCache D) (id : PageId) (r : Option (Slot T V)) (s' : PageCache D)
        → IsConsistent disk s
        → search keys (page_node s) m key id ≡ some o
        → get_from disk keys codec vs m key id s ≡ (ok r, s')
        → (r ≡ o) × Kept s s'

    at_end :
        (b : Bool) (x : Option (Slot T V)) {r : Option (Slot T V)} {t t' : PageCache D}
        → some (if b then x else none) ≡ some o
        → (if b then PageCache.pure x else PageCache.pure none) t ≡ (ok r, t')
        → (r ≡ o) × (t' ≡ t)
    at_end true x h k = (cc, cc)
    at_end false x h k = (cc, cc)

    -- What is done with the fetched page.
    inside : Pin → Call D (Option (Slot T V))
    inside q = PageCache.◌>>=◌ (read_node disk keys codec vs q) λ node.
        PageCache.◌>>=◌ (PageCache.Scopes.lift (find_child keys node key)) λ child. elim child [
          | some next ↦ get_from disk keys codec vs n key next
          | none ↦
              if is_leaf node.t
              then PageCache.pure (Node.get keys node key)
              else PageCache.pure none
        ]

    go_on :
        (q : Pin) (s : PageCache D) (node : Node T V) (child : Option PageId)
        (r : Option (Slot T V)) (t : PageCache D)
        → Right n
        → IsConsistent disk s
        → read_node disk keys codec vs q s ≡ (ok node, s)
        → find_child keys node key ≡ some child
        → answer keys key (search keys (page_node s) n key) node child ≡ some o
        → inside q s ≡ (ok r, t)
        → (r ≡ o) × Kept s t
    unfolding Right inside answer
    go_on q s node none r t rec v read chosen h k =
        let (same, still) =
          at_end (is_leaf node.t) (Node.get keys node key) h (rw (read, chosen) at k) in
        (same, subst (λ x. Kept s x) (sym still) (v, λ j. refl))
    go_on q s node (some next) r t rec v read chosen h k =
        rec s next r t v h (rw (read, chosen) at k)

    step : Right n → Right (suc n)
    unfolding Right search get_from inside
    step rec s id r s' v h k =
        let (node, at, h₁) = >>=-eq-some (page_node s id) _ h in
        let (child, chosen, h₂) = >>=-eq-some (find_child keys node key) _ h₁ in
        let (real, image) = page_node-real s id at in
        let (q, s₁, fetch, k₁) = next-ok (fetch_page disk id s) _ k in
        let (buf, read, shown, v₁, _, same) = fetch_page-read_pin disk law s id v real fetch in
        let (t, k₂, dropped) = finally-ok q (inside q) s₁ k₁ in
        let node_read = read_node-ok q s₁ buf node read (sym (ap buf_node shown) ∙ image) in
        let nodes : page_node s₁ ≡ page_node s =
          λ j x. if x =ℤ no_page then none else buf_node (same x j) in
        let h₃ =
          subst (λ f. answer keys key (search keys f n key) node child ≡ some o) (sym nodes) h₂ in
        let (e, (v₂, same₂)) = go_on q s₁ node child r t rec v₁ node_read chosen h₃ k₂ in
        (
          e,
          subst (λ x. Kept s x) (sym dropped)
              (
                relabel disk t t.free (unpin t.replacer q.i) t.next_page_id v₂,
                λ j. same₂ j ∙ same j,
              ),
        )

  right : (law : IsLawful disk) (n : ℕ) (key : T) (o : Option (Slot T V)) → Right law n key o n
  unfolding Right search
  right law zero key o = λ s id r s' v h k. absurd (cc)
  right law (suc n) key o = step law n key o (right law n key o)

  -- Under a total order and over a lawful disk, in a consistent cache whose pages, in frames or on the disk,
  -- are a tree whose separators bound the keys of their children: if `get` with one more than the tree's height
  -- as fuel ends without an error, whatever pages had to leave, it has found what a search through all entries
  -- of the leaves finds, the cache is consistent, and no page has changed.
  pub get-Kept :
      (order : IsOrder keys) (law : IsLawful disk) (h : ℕ) (s : PageCache D) (tree : BTree)
      (key : T) (es : List (Slot T V)) {r : Option (Slot T V)} {s' : PageCache D}
      → IsConsistent disk s
      → tree.root ≢ no_root
      → Holds keys (page_node s) h tree.root es
      → get disk keys codec vs (suc h) tree key s ≡ (ok r, s')
      → (r ≡ entry_of keys key es) × Kept s s'
  unfolding get Right
  get-Kept order law h s tree key es {r} {s'} v real holds k =
      let found = search-Holds keys order key (page_node s) h tree.root es holds in
      elim (=ℤ_cases tree.root no_root) [
        | inl (same, e) ↦ absurd (real same)
        | inr (other, e) ↦
            right law (suc h) key (entry_of keys key es) s tree.root r s' v found (rw e at k)
      ]
