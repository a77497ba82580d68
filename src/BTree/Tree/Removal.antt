-- ===== src/BTree/Tree/Removal.antt =====
-- src/btree/mod.rs: `delete` down a path of the tree, and `get` after it.
use dbstorage.Base.{
  ℕ, zero, suc, ◌-◌, ◌<◌, ◌≡◌, ◌≢◌, refl, sym, ap, ◌∙◌, subst, inl, inr, Option, some, none,
  if◌then◌else◌, ok, Bool-cases, arith,
}
use dbstorage.Bytes.Signed.{=ℤ_cases, IsI32}
use dbstorage.Page.{PageId}
use dbstorage.Disk.{Disk}
use dbstorage.Storable.{Storable}
use dbstorage.Replacer.{LrukReplacer, unpin}
use dbstorage.PageCache.{PageCache, Pin}
use dbstorage.PageCache.Consistency.{IsConsistent}
use dbstorage.PageCache.Picks.{relabel}
use dbstorage.BTree.Order.{Keys, IsOrder}
use dbstorage.BTree.Slot.{Slot}
use dbstorage.BTree.Node
use dbstorage.BTree.Node.{Node, leaf, is_leaf, find_child, remove}
use dbstorage.BTree.Node.Image.{KeyCodec, from_page}
use dbstorage.BTree.Node.Laws.{IsSorted}
use dbstorage.BTree.Node.Written.{Readable}
use dbstorage.BTree.Node.Removing.{
  is_some, remove-Removed, remove_none, remove_fields, remove-All, remove-total_size,
}
use dbstorage.BTree.Tree.{BTree, no_root, get}
use dbstorage.BTree.Tree.Changes.{remove_here, delete_from, delete}
use dbstorage.BTree.Tree.Search.{search}
use dbstorage.BTree.Tree.Lookup.{
  frame_node, get_from-search, get_real, noted, fetched, read_node-at,
}
use dbstorage.BTree.Tree.Route.{Route, Route-end, reach, reach_lem, search-changed, find_leaf}
use dbstorage.PageCache.Views
use dbstorage.BTree.Tree.Updates.{IsWritable, Updated, Frame, write_node-Updated}

-- Any node.
abbrev pub Anything : {T V : Type 0} → Node T V → Type 0
Anything n = Unit {0}

module _ {D T V : Type 0} (disk : Disk D) (keys : Keys T) (codec : KeyCodec T)
    (vs : Storable V) where
  remove-IsWritable :
      (key : T) (n : Node T V) → IsWritable codec vs n → IsWritable codec vs (remove keys key n).0
  remove-IsWritable key n w =
      let f = remove_fields keys key n in
      record {
        readable = remove-All keys key (Readable codec vs) n w.readable;
        fits = omega (arith, w.fits, remove-total_size keys key codec vs n);
        next_ok = subst IsI32 (sym f.1) w.next_ok;
        id_ok = subst IsI32 (sym f.2) w.id_ok;
      }

  -- The leaf of the key, whose page is held.
  Gone : T → PageCache D → Pin → Node T V → Type 0
  Gone key s q node =
      (s' : PageCache D) × (remove_here disk keys codec vs key q node s
        ≡ (ok (remove keys key node).1, s'))
      × Updated disk keys codec vs s s' q.id (remove keys key node).0

  remove_here-Updated :
      (s : PageCache D) (key : T) (id : PageId) (node : Node T V)
      → IsConsistent disk s
      → (f : Frame disk keys codec vs s id node) → frame_node disk keys codec vs s id ≡ some node
      → IsWritable codec vs node
      → Gone key s (record { i = f.i; id = id }) node
  unfolding Gone remove_here
  remove_here-Updated s key id node v f at w = elim (Bool-cases (remove keys key node).1) [
    | inl e ↦
        let (s', wrote, u) =
          write_node-Updated disk keys codec vs s id f.i f.p (remove keys key node).0 v f.framed
            f.held f.name (remove-IsWritable key node w) in
        (s', (rw (e, wrote) refl), u)
    | inr e ↦ (
      s,
      (rw e refl),
      subst (Updated disk keys codec vs s s id) (sym (remove_none keys key node e))
          (Views.Updated-same disk (from_page codec vs) s id node v at),
    )
  ]

  Deletes : PageCache D → ℕ → ℕ → T → PageId → PageId → Node T V → Type 0
  Deletes s h e key id at end =
      (s' : PageCache D) × (delete_from disk keys codec vs (reach h e) key id s
        ≡ (ok (remove keys key end).1, s'))
      × Updated disk keys codec vs s s' at (remove keys key end).0

  delete_from-Route :
      (h e : ℕ) (s : PageCache D) (key : T) (id at : PageId) (end : Node T V)
      → IsConsistent disk s
      → Route keys Anything (frame_node disk keys codec vs s) h key id at end
      → IsWritable codec vs end
      → Deletes s h e key id at end
  unfolding Deletes delete_from Gone
  delete_from-Route zero e s key id at end v (same, there, kind) w =
      let f = Views.Frame_of disk (from_page codec vs) s id end v there in
      let s₁ = noted disk keys codec vs s (fetched disk keys codec vs s f.i) in
      let v₁ = relabel disk s s.free (fetched disk keys codec vs s f.i) s.next_page_id v in
      let q : Pin = record { i = f.i; id = id } in
      let (s', removed, u) =
        remove_here-Updated s₁ key id end v₁
          (record {
            i = f.i;
            p = f.p;
            framed = f.framed;
            held = f.held;
            name = f.name;
            image = f.image;
          })
          there w in
      (
        noted disk keys codec vs s' (unpin s'.replacer f.i),
        Views.visit disk s id f.i _ _ s' v f.framed (
            rw
              (
                Views.write_guard-at disk s₁ q f.p f.held f.name,
                read_node-at disk keys codec vs s₁ q f.p end f.held f.image,
                find_leaf keys key end kind,
                ap is_leaf kind,
              )
              removed),
        subst
            (λ x.
              Updated disk keys codec vs s (noted disk keys codec vs s' (unpin s'.replacer f.i)) x
                (remove keys key end).0)
            same
            (Views.Updated-noted disk (from_page codec vs) s s' id _ _
              (Views.Updated-since disk (from_page codec vs) s s' id _ _ u)),
      )
  delete_from-Route (suc h) e s key id at end v (node, next, found, _, kind, chosen, path) w =
      let f = Views.Frame_of disk (from_page codec vs) s id node v found in
      let s₁ = noted disk keys codec vs s (fetched disk keys codec vs s f.i) in
      let v₁ = relabel disk s s.free (fetched disk keys codec vs s f.i) s.next_page_id v in
      let q : Pin = record { i = f.i; id = id } in
      let (s', removed, u) = delete_from-Route h e s₁ key next at end v₁ path w in
      (
        noted disk keys codec vs s' (unpin s'.replacer f.i),
        Views.visit disk s id f.i _ _ s' v f.framed (
            rw
              (
                Views.write_guard-at disk s₁ q f.p f.held f.name,
                read_node-at disk keys codec vs s₁ q f.p node f.held f.image,
                chosen,
              )
              removed),
        Views.Updated-noted disk (from_page codec vs) s s' at _ _
            (Views.Updated-since disk (from_page codec vs) s s' at _ _ u),
      )

  -- What a call with so much fuel does.
  abbrev Fuelled : PageCache D → BTree → T → Node T V → ℕ → Type 0
  Fuelled s tree key end fuel =
      (s' : PageCache D) × (delete disk keys codec vs fuel key tree s
        ≡ (ok (is_some (Node.get keys end key)), s'))
      × IsConsistent disk s'
      × ((k : T) (o : Option (Slot T V))
          → search keys (frame_node disk keys codec vs s) fuel k tree.root ≡ some o
          → (r : LrukReplacer) × (get disk keys codec vs fuel tree k s'
              ≡ (ok (if keys.eq key k then none else o), noted disk keys codec vs s' r)))

  get-delete_reach :
      (law : IsOrder keys) (h e : ℕ) (s : PageCache D) (tree : BTree) (key : T) (at : PageId)
      (end : Node T V)
      → IsConsistent disk s
      → tree.root ≢ no_root
      → Route keys Anything (frame_node disk keys codec vs s) h key tree.root at end
      → IsWritable codec vs end
      → IsSorted keys end.values
      → Fuelled s tree key end (reach h e)
  unfolding Deletes delete
  get-delete_reach law h e s tree key at end v real path w sorted =
      let (answered, gone, rest) = remove-Removed keys key law end sorted in
      let (s', deleted, u) = delete_from-Route h e s key tree.root at end v path w in
      let (there, kind) =
        Route-end keys Anything (frame_node disk keys codec vs s) h key tree.root at end path in
      (
        s',
        elim (=ℤ_cases tree.root no_root) [
          | inl (same, _) ↦ absurd (real same)
          | inr (_, q) ↦ rw q (deleted ∙ ap (λ b. (ok b, s')) answered)
        ],
        u.consistent,
        λ k o found.
            let found' =
              search-changed keys (frame_node disk keys codec vs s)
                (frame_node disk keys codec vs s') at end (remove keys key end).0 there kind
                ((remove_fields keys key end).0 ∙ kind) u.nodes law Anything h e key tree.root path
                rest k o found in
            let found'' =
              subst
                (λ x.
                  search keys (frame_node disk keys codec vs s') (reach h e) k tree.root
                  ≡ some (if keys.eq key k then x else o))
                gone found' in
            let (r, q) =
              get_from-search disk keys codec vs (reach h e) s' k tree.root
                (if keys.eq key k then none else o) u.consistent found'' in
            (r, get_real disk keys codec vs (reach h e) s' tree k real ∙ q),
      )

  -- Under a total order, in a consistent cache whose frames hold the nodes from the root, so many inner nodes
  -- down the way of the key, to a leaf whose keys ascend and that can be written: `delete` with more fuel than
  -- inner nodes ends without an error and answers whether the leaf had the key, the cache stays
  -- consistent, and under the key `get` then finds nothing, and under every other key what the search in the
  -- nodes found before.
  pub get-delete :
      (law : IsOrder keys) (h fuel : ℕ) (s : PageCache D) (tree : BTree) (key : T) (at : PageId)
      (end : Node T V)
      → h < fuel
      → IsConsistent disk s
      → tree.root ≢ no_root
      → Route keys Anything (frame_node disk keys codec vs s) h key tree.root at end
      → IsWritable codec vs end
      → IsSorted keys end.values
      → (s' : PageCache D) × (delete disk keys codec vs fuel key tree s
          ≡ (ok (is_some (Node.get keys end key)), s'))
        × IsConsistent disk s'
        × ((k : T) (o : Option (Slot T V))
            → search keys (frame_node disk keys codec vs s) fuel k tree.root ≡ some o
            → (r : LrukReplacer) × (get disk keys codec vs fuel tree k s'
                ≡ (ok (if keys.eq key k then none else o), noted disk keys codec vs s' r)))
  get-delete law h fuel s tree key at end enough v real path w sorted =
      subst (Fuelled s tree key end) (reach_lem h fuel enough)
        (get-delete_reach law h (fuel - suc h) s tree key at end v real path w sorted)
