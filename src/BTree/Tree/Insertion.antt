-- ===== src/BTree/Tree/Insertion.antt =====
-- src/btree/mod.rs: `insert` down a path of the tree whose nodes have room, and `get` after it.
use mathlib.Core.Bool.{true≢false}
use dbstorage.Base.{
  ℕ, zero, suc, ◌-◌, ◌<◌, arith, ◌≡◌, ◌≢◌, refl, sym, ap, ◌∙◌, subst, inl, inr, false, Option, some,
  if◌then◌else◌, ok,
}
use dbstorage.Bytes.Signed.{=ℤ_cases}
use dbstorage.Page.{PageId}
use dbstorage.Disk.{Disk}
use dbstorage.Storable.{Storable}
use dbstorage.Replacer.{LrukReplacer, unpin}
use dbstorage.PageCache.{PageCache, Pin, drop_pin}
use dbstorage.PageCache.Consistency.{IsConsistent}
use dbstorage.PageCache.Picks.{relabel}
use dbstorage.PageCache.Access.{fetch_page-hit}
use dbstorage.BTree.Order.{Keys, IsOrder, eq_self}
use dbstorage.BTree.Slot.{Slot, value}
use dbstorage.BTree.Node
use dbstorage.BTree.Node.{Node, leaf, almost_full, replace}
use dbstorage.BTree.Node.Image.{KeyCodec, from_page}
use dbstorage.BTree.Node.Laws.{IsSorted}
use dbstorage.BTree.Node.Replacement.{replace-Placed, replace_fields}
use dbstorage.BTree.Tree.{BTree, no_root, get}
use dbstorage.BTree.Tree.Changes.{
  first_node, grow, insert_at_root, insert_end, insert_held, root_page, insert,
}
use dbstorage.BTree.Tree.Search.{search}
use dbstorage.BTree.Tree.Route.{
  Route, reach, reach_lem, Route-end, Route-top, search-leaf, search-changed,
}
use dbstorage.PageCache.Views
use dbstorage.BTree.Tree.Updates.{IsWritable, Updated, Frame}
use dbstorage.BTree.Tree.Descent.{IsPassable, slot_of, grown, Inserts, insert_in-Route}
use dbstorage.BTree.Tree.Lookup.{frame_node, get_from-search, get_real, noted, fetched}

module _ {D T V : Type 0} (disk : Disk D) (keys : Keys T) (codec : KeyCodec T)
    (vs : Storable V) where
  first_node-real :
      (tree : BTree) (q : Pin) (s : PageCache D)
      → tree.root ≢ no_root
      → first_node disk keys codec vs tree q s ≡ (ok tt, s)
  unfolding first_node
  first_node-real tree q s real = elim (=ℤ_cases tree.root no_root) [
    | inl (same, _) ↦ absurd (real same)
    | inr (_, e) ↦ rw e refl
  ]

  module _ (key : T) (v : V) where
    insert-Updated :
        (h e : ℕ) (s : PageCache D) (tree : BTree) (at : PageId) (end : Node T V)
        → IsConsistent disk s
        → tree.root ≢ no_root
        → Route keys
            (IsPassable keys codec vs)
            (frame_node disk keys codec vs s)
            h
            key
            tree.root
            at
            end
        → almost_full keys end ≡ false
        → IsWritable codec vs (grown disk keys codec vs key v end)
        → (s' : PageCache D) × (insert disk keys codec vs (reach h e) key v tree s
            ≡ (ok tt, tree, s'))
          × Updated disk keys codec vs s s' at (grown disk keys codec vs key v end)
    unfolding insert root_page insert_held insert_end drop_pin insert_at_root grow Inserts
    insert-Updated h e s tree at end ok_cache real path room w =
        let (node, found) =
          Route-top keys (IsPassable keys codec vs) (frame_node disk keys codec vs s) h key
            tree.root at end path in
        let f = Views.Frame_of disk (from_page codec vs) s tree.root node ok_cache found in
        let s₀ = noted disk keys codec vs s (fetched disk keys codec vs s f.i) in
        let v₀ = relabel disk s s.free (fetched disk keys codec vs s f.i) s.next_page_id ok_cache in
        let q : Pin = record { i = f.i; id = tree.root } in
        let f₀ : Frame disk keys codec vs s₀ tree.root node = record {
          i = f.i;
          p = f.p;
          framed = f.framed;
          held = f.held;
          name = f.name;
          image = f.image;
        } in
        let (s₁, inserted, u) =
          insert_in-Route disk keys codec vs key v h e s₀ tree.root at node end f₀ v₀ found path
            room w in
        (
          noted disk keys codec vs s₁ (unpin s₁.replacer f.i),
          elim (=ℤ_cases tree.root no_root) [
            | inl (same, _) ↦ absurd (real same)
            | inr (_, q₀) ↦
                rw
                  (
                    q₀,
                    fetch_page-hit disk s tree.root f.i ok_cache f.framed,
                    Views.write_guard-at disk s₀ q f.p f.held f.name,
                    first_node-real tree q s₀ real,
                    inserted,
                  )
                  (λ j. (
                    ok tt,
                    record { root = f.name j },
                    noted disk keys codec vs s₁ (unpin s₁.replacer f.i),
                  ))
          ],
          Views.Updated-noted disk (from_page codec vs) s s₁ at (grown disk keys codec vs key v end)
              _
              (Views.Updated-since disk (from_page codec vs) s s₁ at
                (grown disk keys codec vs key v end) _ u),
        )

  -- What a lookup finds in a leaf once an entry took its place there.
  get-grown :
      (law : IsOrder keys) (key : T) (v : V) (node : Node T V)
      → IsSorted keys node.values
      → (Node.get keys (grown disk keys codec vs key v node) key
          ≡ some (slot_of disk keys codec vs key v))
        × ((k : T)
            → keys.eq key k ≡ false
            → Node.get keys (grown disk keys codec vs key v node) k ≡ Node.get keys node k)
  get-grown law key v node sorted =
      let placed = replace-Placed keys law (slot_of disk keys codec vs key v) node sorted in
      (
        placed.0,
        λ k e.
            placed.2 k (λ q. true≢false (sym (eq_self keys law k) ∙ ap (λ x. keys.eq x k) q ∙ e)),
      )

  -- What a call with so much fuel does.
  abbrev Fuelled : PageCache D → BTree → T → V → ℕ → Type 0
  Fuelled s tree key v fuel =
      (s' : PageCache D) × (insert disk keys codec vs fuel key v tree s ≡ (ok tt, tree, s'))
      × IsConsistent disk s'
      × ((k : T) (o : Option (Slot T V))
          → search keys (frame_node disk keys codec vs s) fuel k tree.root ≡ some o
          → (r : LrukReplacer) × (get disk keys codec vs fuel tree k s' ≡ (
            ok (if keys.eq key k then some (record { key = key; either = value v }) else o),
            noted disk keys codec vs s' r,
          )))

  get-insert_reach :
      (law : IsOrder keys) (h e : ℕ) (s : PageCache D) (tree : BTree) (key : T) (v : V)
      (at : PageId) (end : Node T V)
      → IsConsistent disk s
      → tree.root ≢ no_root
      → Route keys
          (IsPassable keys codec vs)
          (frame_node disk keys codec vs s)
          h
          key
          tree.root
          at
          end
      → almost_full keys end ≡ false
      → IsSorted keys end.values
      → IsWritable codec vs (replace keys (record { key = key; either = value v }) end).0
      → Fuelled s tree key v (reach h e)
  get-insert_reach law h e s tree key v at end ok_cache real path room sorted w =
      let (mine, others) = get-grown law key v end sorted in
      let (s', done, u) = insert-Updated key v h e s tree at end ok_cache real path room w in
      let slot : Slot T V = record { key = key; either = value v } in
      let (there, kind) =
        Route-end keys (IsPassable keys codec vs) (frame_node disk keys codec vs s) h key tree.root
          at end path in
      (
        s',
        done,
        u.consistent,
        λ k o found.
            let found' =
              search-changed keys (frame_node disk keys codec vs s)
                (frame_node disk keys codec vs s') at end (replace keys slot end).0 there kind
                ((replace_fields keys slot end).0 ∙ kind) u.nodes law (IsPassable keys codec vs) h e
                key tree.root path others k o found in
            let found'' =
              subst
                (λ x.
                  search keys (frame_node disk keys codec vs s') (reach h e) k tree.root
                  ≡ some (if keys.eq key k then x else o))
                mine found' in
            let (r, q) =
              get_from-search disk keys codec vs (reach h e) s' k tree.root
                (if keys.eq key k then some slot else o) u.consistent found'' in
            (r, get_real disk keys codec vs (reach h e) s' tree k real ∙ q),
      )

  -- Under a total order, in a consistent cache whose frames hold the nodes from the root, so many inner nodes
  -- down the way of the key, to a leaf: if none of them is almost full and they can be written, the leaf with
  -- the new entry, and the leaf's keys ascend, then `insert` with more fuel than inner nodes ends without an error and without a new root, the cache stays consistent, and under its key `get` then finds
  -- the new entry, and under every other key what the search in the nodes found before.
  pub get-insert_path :
      (law : IsOrder keys) (h fuel : ℕ) (s : PageCache D) (tree : BTree) (key : T) (v : V)
      (at : PageId) (end : Node T V)
      → h < fuel
      → IsConsistent disk s
      → tree.root ≢ no_root
      → Route keys
          (IsPassable keys codec vs)
          (frame_node disk keys codec vs s)
          h
          key
          tree.root
          at
          end
      → almost_full keys end ≡ false
      → IsSorted keys end.values
      → IsWritable codec vs (replace keys (record { key = key; either = value v }) end).0
      → (s' : PageCache D) × (insert disk keys codec vs fuel key v tree s ≡ (ok tt, tree, s'))
        × IsConsistent disk s'
        × ((k : T) (o : Option (Slot T V))
            → search keys (frame_node disk keys codec vs s) fuel k tree.root ≡ some o
            → (r : LrukReplacer) × (get disk keys codec vs fuel tree k s' ≡ (
              ok (if keys.eq key k then some (record { key = key; either = value v }) else o),
              noted disk keys codec vs s' r,
            )))
  get-insert_path law h fuel s tree key v at end enough ok_cache real path room sorted w =
      subst (Fuelled s tree key v) (reach_lem h fuel enough)
        (get-insert_reach law h (fuel - suc h) s tree key v at end ok_cache real path room sorted w)

  -- A tree that is one leaf with room.
  pub get-insert_leaf :
      (law : IsOrder keys) (s : PageCache D) (tree : BTree) (key : T) (v : V) (node : Node T V)
      (fuel : ℕ)
      → IsConsistent disk s
      → tree.root ≢ no_root
      → frame_node disk keys codec vs s tree.root ≡ some node
      → node.t ≡ leaf
      → almost_full keys node ≡ false
      → IsSorted keys node.values
      → IsWritable codec vs (replace keys (record { key = key; either = value v }) node).0
      → (s' : PageCache D) × (insert disk keys codec vs (suc fuel) key v tree s ≡ (ok tt, tree, s'))
        × IsConsistent disk s'
        × ((k : T)
            → (r : LrukReplacer) × (get disk keys codec vs (suc fuel) tree k s' ≡ (
              ok (
                  if keys.eq key k
                  then some (record { key = key; either = value v })
                  else Node.get keys node k),
              noted disk keys codec vs s' r,
            )))
  get-insert_leaf law s tree key v node fuel ok_cache real there kind room sorted w =
      let (s', done, v', found) =
        get-insert_path law zero (suc fuel) s tree key v tree.root node (omega arith) ok_cache real
          (refl, there, kind) room sorted w in
      (
        s',
        done,
        v',
        λ k.
            found k (Node.get keys node k)
              (search-leaf keys (frame_node disk keys codec vs s) node k tree.root fuel there kind),
      )
