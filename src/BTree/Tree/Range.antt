-- ===== src/BTree/Tree/Range.antt =====
-- src/btree/mod.rs: `range` finds the leaf of its first key and goes along the chain of leaves.
use mathlib.Core.Path.{fun_ext}
use dbstorage.Base.{
  ℕ, zero, suc, ◌<◌, ◌-◌, arith, ◌≡◌, ◌≢◌, refl, sym, ap, ◌∙◌, subst, some, none, List, [], ok,
}
use dbstorage.Page.{PageId}
use dbstorage.Disk.{Disk}
use dbstorage.HashMap.{lookup, int_key}
use dbstorage.Storable.{Storable}
use dbstorage.Replacer.{LrukReplacer, unpin}
use dbstorage.Replacer.Nodes.{FrameId}
use dbstorage.PageCache.{PageCache}
use dbstorage.PageCache.Consistency.{IsConsistent}
use dbstorage.PageCache.Picks.{relabel}
use dbstorage.BTree.Order.{Keys, IsOrder}
use dbstorage.BTree.Slot.{Slot}
use dbstorage.BTree.Node.{Node, is_leaf}
use dbstorage.BTree.Node.Image.{KeyCodec, from_page}
use dbstorage.BTree.Node.Laws.{IsSorted}
use dbstorage.BTree.Tree.{BTree, no_root, pairs_of, leaf_of, range}
use dbstorage.BTree.Tree.Between.{between}
use dbstorage.BTree.Tree.Scan.{=ℤ_no}
use dbstorage.BTree.Tree.Lookup.{frame_node, noted, fetched, read_node-at, visit}
use dbstorage.BTree.Tree.Route.{Route, Route-end, find_leaf, reach, reach_lem}
use dbstorage.BTree.Tree.Removal.{Anything}
use dbstorage.PageCache.Views
use dbstorage.BTree.Tree.Updates.{Frame}
use dbstorage.BTree.Tree.LeafChain.{Chain, Ranges, range_from-Chain, range_from-empty}

module _ {D T V : Type 0} (disk : Disk D) (keys : Keys T) (codec : KeyCodec T) (vs : Storable V)
    (from to : T) where
  framed-real :
      (s : PageCache D) (id : PageId) (i : FrameId)
      → IsConsistent disk s
      → lookup id s.page_table ≡ some i
      → id ≢ no_root
  framed-real s id i v e same =
      absurd (none_some i (sym v.reserved ∙ ap (λ x. lookup x s.page_table) (sym same) ∙ e))
    where
      none_some : (i : FrameId) → ¬ (none ≡ some i)
      none_some i h = cc

  -- The leaf that a range begins in, behind so many inner nodes.
  leaf_of-Route :
      (h e : ℕ) (s : PageCache D) (id at : PageId) (end : Node T V)
      → IsConsistent disk s
      → Route keys Anything (frame_node disk keys codec vs s) h from id at end
      → (r : LrukReplacer) × (leaf_of disk keys codec vs (reach h e) from id s
          ≡ (ok (some at), noted disk keys codec vs s r))
  unfolding leaf_of
  leaf_of-Route zero e s id at end v (same, there, kind) =
      let f = Views.Frame_of disk (from_page codec vs) s id end v there in
      let s₁ = noted disk keys codec vs s (fetched disk keys codec vs s f.i) in
      (
        unpin (fetched disk keys codec vs s f.i) f.i,
        rw (=ℤ_no id no_root (framed-real s id f.i v f.framed)) (
              visit disk keys codec vs s id f.i _ (some id) (fetched disk keys codec vs s f.i) v
                f.framed
                (rw
                  (
                    read_node-at disk keys codec vs s₁ (record { i = f.i; id = id }) f.p end f.held
                        f.image,
                    find_leaf keys from end kind,
                    ap is_leaf kind,
                  )
                  refl))
            ∙ ap
                (λ x. (
                  ok (some x),
                  noted disk keys codec vs s (unpin (fetched disk keys codec vs s f.i) f.i),
                ))
                same,
      )
  leaf_of-Route (suc h) e s id at end v (node, next, found, _, kind, chosen, path) =
      let f = Views.Frame_of disk (from_page codec vs) s id node v found in
      let t = fetched disk keys codec vs s f.i in
      let s₁ = noted disk keys codec vs s t in
      let (r, below) =
        leaf_of-Route h e s₁ next at end (relabel disk s s.free t s.next_page_id v) path in
      (
        unpin r f.i,
        rw (=ℤ_no id no_root (framed-real s id f.i v f.framed)) (
            visit disk keys codec vs s id f.i _ (some at) r v f.framed (
              rw
                (
                  read_node-at disk keys codec vs s₁ (record { i = f.i; id = id }) f.p node f.held
                      f.image,
                  chosen,
                )
                below)),
      )

  -- What `range` answers.
  abbrev Answers : PageCache D → BTree → List (T × V) → ℕ → Type 0
  Answers s tree ps fuel =
      (r : LrukReplacer) × (range disk keys codec vs fuel tree from to s
        ≡ (ok ps, noted disk keys codec vs s r))

  module _ (law : IsOrder keys) (h fuel : ℕ) (s : PageCache D) (tree : BTree) (at : PageId)
      (end : Node T V) (enough : h < fuel) (v : IsConsistent disk s)
      (path : Route keys Anything (frame_node disk keys codec vs s) h from tree.root at end) where
    begin :
        (r : LrukReplacer) × (leaf_of disk keys codec vs fuel from tree.root s
          ≡ (ok (some at), noted disk keys codec vs s r))
    begin =
        subst
          (λ n.
            (r : LrukReplacer) × (leaf_of disk keys codec vs n from tree.root s
              ≡ (ok (some at), noted disk keys codec vs s r)))
          (reach_lem h fuel enough) (leaf_of-Route h (fuel - suc h) s tree.root at end v path)

    -- What the range from the leaf answers, `range` answers.
    from_leaf :
        (ps : List (T × V))
        → ((s₁ : PageCache D) (f : Frame disk keys codec vs s₁ at end)
            → IsConsistent disk s₁
            → ((x : PageId)
                → frame_node disk keys codec vs s₁ x ≡ frame_node disk keys codec vs s x)
            → Ranges disk keys codec vs from to fuel s₁ (record { i = f.i; id = at }) [] ps)
        → Answers s tree ps fuel
    unfolding range Ranges
    from_leaf ps rec =
        let (r, found) = begin in
        let s₁ = noted disk keys codec vs s r in
        let v₁ = relabel disk s s.free r s.next_page_id v in
        let (there, kind) =
          Route-end keys Anything (frame_node disk keys codec vs s) h from tree.root at end path in
        let f = Views.Frame_of disk (from_page codec vs) s at end v there in
        let t = fetched disk keys codec vs s₁ f.i in
        let s₂ = noted disk keys codec vs s₁ t in
        let f₂ : Frame disk keys codec vs s₂ at end = record {
          i = f.i;
          p = f.p;
          framed = f.framed;
          held = f.held;
          name = f.name;
          image = f.image;
        } in
        let (r₂, answer) = rec s₂ f₂ (relabel disk s₁ s₁.free t s₁.next_page_id v₁) (λ x. refl) in
        (unpin r₂ f.i, rw found (visit disk keys codec vs s₁ at f.i _ ps r₂ v₁ f.framed answer))

  -- Under a total order, in a consistent cache whose frames hold the nodes from the root, so many inner nodes
  -- down the way of the first key, to a leaf, and a chain of leaves from there on, none of them empty and with
  -- all keys ascending: if the first of these leaves has an entry in the range, `range` with more fuel than
  -- inner nodes and than leaves behind the first ends without an error, gives the keys and values of exactly
  -- the entries of the chain whose keys lie between the bounds, in order, and changes nothing but what the
  -- replacer notes.
  pub range-between :
      (law : IsOrder keys) (h n fuel : ℕ) (s : PageCache D) (tree : BTree) (at : PageId)
      (end : Node T V) (es : List (Slot T V)) (ps : List (T × V))
      → h < fuel
      → n < fuel
      → IsConsistent disk s
      → Route keys Anything (frame_node disk keys codec vs s) h from tree.root at end
      → Chain (frame_node disk keys codec vs s) n end es
      → IsSorted keys es
      → between keys from to end.values ≢ []
      → pairs_of (between keys from to es) ≡ some ps
      → (r : LrukReplacer) × (range disk keys codec vs fuel tree from to s
          ≡ (ok ps, noted disk keys codec vs s r))
  range-between law h n fuel s tree at end es ps enough leaves v path chain sorted some_in pairs =
      from_leaf law h fuel s tree at end enough v path ps (λ s₁ f v₁ same.
        subst (λ k. Ranges disk keys codec vs from to k s₁ (record { i = f.i; id = at }) [] ps)
          (reach_lem n fuel leaves)
          (range_from-Chain disk keys codec vs from to law n (fuel - suc n) s₁ at [] ps end es f v₁
            (subst (λ nodes. Chain nodes n end es) (sym (fun_ext same)) chain) sorted
            (λ nothing. absurd (some_in nothing)) pairs))

  -- Under a total order, in a consistent cache whose frames hold the nodes from the root, so many inner nodes
  -- down the way of the first key, to a leaf whose keys ascend: if this leaf has no entry in the range,
  -- `range` with more fuel than inner nodes answers that there is nothing, whatever the leaves behind it hold.
  pub range-gap :
      (law : IsOrder keys) (h fuel : ℕ) (s : PageCache D) (tree : BTree) (at : PageId)
      (end : Node T V)
      → h < fuel
      → IsConsistent disk s
      → Route keys Anything (frame_node disk keys codec vs s) h from tree.root at end
      → IsSorted keys end.values
      → between keys from to end.values ≡ []
      → (r : LrukReplacer) × (range disk keys codec vs fuel tree from to s
          ≡ (ok [], noted disk keys codec vs s r))
  unfolding Ranges
  range-gap law h fuel s tree at end enough v path sorted nothing =
      from_leaf law h fuel s tree at end enough v path [] (λ s₁ f v₁ same.
        subst (λ k. Ranges disk keys codec vs from to k s₁ (record { i = f.i; id = at }) [] [])
          (reach_lem zero fuel (omega arith))
          (
            s₁.replacer,
            range_from-empty disk keys codec vs from to law (fuel - 1) s₁ at [] end f sorted
                nothing,
          ))
