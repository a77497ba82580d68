-- ===== src/BTree/Tree/LeafChain.antt =====
-- src/btree/mod.rs: `_range` along a chain of leaves.
use mathlib.Core.List.{append_assoc, append-nil}
use mathlib.Core.Option.{some_inj}
use dbstorage.Base.{
  ℕ, zero, suc, ◌==◌, ◌≡◌, ◌≢◌, refl, sym, ap, ◌∙◌, subst, inl, inr, false, Option, some, List, [],
  ◌++◌, length, ok,
}
use dbstorage.Bytes.Signed.{◌=ℤ◌}
use dbstorage.Page.{PageId}
use dbstorage.Disk.{Disk}
use dbstorage.HashMap.{lookup, int_key}
use dbstorage.Storable.{Storable}
use dbstorage.Replacer.{LrukReplacer, unpin}
use dbstorage.Replacer.Nodes.{FrameId}
use dbstorage.PageCache.{PageCache, Pin}
use dbstorage.PageCache.Scopes.{pick_yes, pick_no}
use dbstorage.PageCache.Consistency.{IsConsistent}
use dbstorage.PageCache.Picks.{relabel}
use dbstorage.BTree.Order.{Keys, IsOrder}
use dbstorage.BTree.Slot.{Slot}
use dbstorage.BTree.Node.{Node, no_next}
use dbstorage.BTree.Node.Image.{KeyCodec, from_page}
use dbstorage.BTree.Node.Laws.{IsSorted}
use dbstorage.BTree.Tree.{pairs_of, entries_between, range_from}
use dbstorage.BTree.Tree.Between.{
  between, between-append, entries_between_lem, Sorted-right, Sorted-left, nothing_more,
}
use dbstorage.BTree.Tree.Scan.{=ℤ_no}
use dbstorage.BTree.Tree.Lookup.{frame_node, noted, fetched, read_node-at, visit}
use dbstorage.BTree.Tree.Route.{reach}
use dbstorage.PageCache.Views
use dbstorage.BTree.Tree.Updates.{Frame}
use dbstorage.BTree.Tree.Pairs.{
  pairs_of_nil, pairs_of-append, length-pairs_of, empty_test, list_cases,
}

-- A leaf, and so many leaves behind it, all of them with entries, hold a list of entries in order.
abbrev pub Chain :
    {T V : Type 0} → (PageId → Option (Node T V)) → ℕ → Node T V → List (Slot T V) → Type 0
Chain nodes zero node es = (node.next ≡ no_next) × (node.values ≢ []) × (es ≡ node.values)
Chain {T} {V} nodes (suc n) node es =
    (rest : List (Slot T V)) × (node' : Node T V) × (node.next ≢ no_next)
    × (node.values ≢ [])
    × (es ≡ node.values ++ rest)
    × (nodes node.next ≡ some node')
    × Chain nodes n node' rest

module _ {D T V : Type 0} (disk : Disk D) (keys : Keys T) (codec : KeyCodec T) (vs : Storable V)
    (from to : T) where
  -- The range from a page that is held.
  unfoldable pub Ranges : ℕ → PageCache D → Pin → List (T × V) → List (T × V) → Type 0
  Ranges fuel s q acc ps =
      (r : LrukReplacer) × (range_from disk keys codec vs fuel q acc from to s
        ≡ (ok (acc ++ ps), noted disk keys codec vs s r))

  nothing_added :
      (acc ps : List (T × V)) (es : List (Slot T V))
      → between keys from to es ≡ []
      → pairs_of (between keys from to es) ≡ some ps
      → acc ≡ acc ++ ps
  nothing_added acc ps es nothing pairs =
      sym (append-nil acc)
      ∙ ap (◌++◌ acc) (some_inj.0 (sym pairs_of_nil ∙ ap pairs_of (sym nothing) ∙ pairs))

  -- What the first leaf of a chain needs behind a leaf that adds something.
  ends :
      (law : IsOrder keys) (nodes : PageId → Option (Node T V)) (n : ℕ) (xs rest : List (Slot T V))
      (node' : Node T V)
      → IsSorted keys (xs ++ rest)
      → between keys from to xs ≢ []
      → Chain nodes n node' rest
      → between keys from to node'.values ≡ []
      → between keys from to rest ≡ []
  ends law nodes zero xs rest node' sorted some_in (last, filled, all) nothing =
      ap (between keys from to) all ∙ nothing
  ends law nodes (suc n) xs rest node' sorted some_in (zs, _, _, filled, all, _, _) nothing =
      ap (between keys from to) all
      ∙ nothing_more keys from to law xs node'.values zs
          (subst (λ l. IsSorted keys (xs ++ l)) all sorted) some_in filled nothing

  module _ (law : IsOrder keys) where
    -- A leaf that adds nothing is the end.
    pub range_from-empty :
        (fuel : ℕ) (s : PageCache D) (id : PageId) (acc : List (T × V)) (node : Node T V)
        (f : Frame disk keys codec vs s id node)
        → IsSorted keys node.values
        → between keys from to node.values ≡ []
        → range_from disk keys codec vs (suc fuel) (record { i = f.i; id = id }) acc from to s
          ≡ (ok acc, s)
    unfolding range_from
    range_from-empty fuel s id acc node f sorted nothing =
        let taken : pairs_of (entries_between keys from to node.values) ≡ some [] =
          ap pairs_of (entries_between_lem keys from to law node.values sorted ∙ nothing)
          ∙ pairs_of_nil in
        rw
          (
            read_node-at disk keys codec vs s (record { i = f.i; id = id }) f.p node f.held f.image,
            taken,
          )
          refl

    -- A leaf that adds something.
    module _ (fuel : ℕ) (s : PageCache D) (id : PageId) (acc qs : List (T × V)) (node : Node T V)
        (f : Frame disk keys codec vs s id node) (sorted : IsSorted keys node.values)
        (some_in : between keys from to node.values ≢ [])
        (pairs : pairs_of (between keys from to node.values) ≡ some qs) where
      taken : pairs_of (entries_between keys from to node.values) ≡ some qs
      taken = ap pairs_of (entries_between_lem keys from to law node.values sorted) ∙ pairs

      more : (length qs == 0) ≡ false
      more =
          ap (λ l. l == 0) (length-pairs_of (between keys from to node.values) pairs)
          ∙ empty_test (between keys from to node.values) some_in

      range_from-last :
          node.next ≡ no_next
          → range_from disk keys codec vs (suc fuel) (record { i = f.i; id = id }) acc from to s
            ≡ (ok (acc ++ qs), s)
      unfolding range_from
      range_from-last last =
          rw
            (
              read_node-at disk keys codec vs s (record { i = f.i; id = id }) f.p node f.held
                  f.image,
              taken,
            )
            (pick_no (length qs == 0) _ _ s more
              ∙ pick_yes (node.next =ℤ no_next) _ _ s (ap (λ x. x =ℤ no_next) last))

      range_from-next :
          (i : FrameId) (r : LrukReplacer) (out : List (T × V))
          → IsConsistent disk s
          → node.next ≢ no_next
          → lookup node.next s.page_table ≡ some i
          → range_from disk keys codec vs fuel
              (record { i = i; id = node.next })
              (acc ++ qs)
              from
              to
              (noted disk keys codec vs s (fetched disk keys codec vs s i))
            ≡ (ok out, noted disk keys codec vs s r)
          → range_from disk keys codec vs (suc fuel) (record { i = f.i; id = id }) acc from to s
            ≡ (ok out, noted disk keys codec vs s (unpin r i))
      unfolding range_from
      range_from-next i r out v go framed found =
          rw
            (
              read_node-at disk keys codec vs s (record { i = f.i; id = id }) f.p node f.held
                  f.image,
              taken,
            )
            (pick_no (length qs == 0) _ _ s more
              ∙ pick_no (node.next =ℤ no_next) _ _ s (=ℤ_no node.next no_next go)
              ∙ visit disk keys codec vs s node.next i _ out r v framed found)

    pub range_from-Chain :
        (n e : ℕ) (s : PageCache D) (id : PageId) (acc ps : List (T × V)) (node : Node T V)
        (es : List (Slot T V)) (f : Frame disk keys codec vs s id node)
        → IsConsistent disk s
        → Chain (frame_node disk keys codec vs s) n node es
        → IsSorted keys es
        → (between keys from to node.values ≡ [] → between keys from to es ≡ [])
        → pairs_of (between keys from to es) ≡ some ps
        → Ranges (reach n e) s (record { i = f.i; id = id }) acc ps
    unfolding Ranges
    range_from-Chain zero e s id acc ps node es f v (last, filled, all) sorted first pairs =
        let sorted' : IsSorted keys node.values = subst (IsSorted keys) all sorted in
        elim (list_cases (between keys from to node.values)) [
          | inl nothing ↦ (
            s.replacer,
            range_from-empty e s id acc node f sorted' nothing
                ∙ ap (λ l. (ok l, s)) (nothing_added acc ps es (first nothing) pairs),
          )
          | inr some_in ↦ (
            s.replacer,
            range_from-last e s id acc ps node f sorted' some_in
                (subst (λ l. pairs_of (between keys from to l) ≡ some ps) all pairs) last,
          )
        ]
    range_from-Chain (suc n) e s id acc ps node es f v (rest, node', go, filled, all, at, chain)
          sorted first pairs =
        let whole : IsSorted keys (node.values ++ rest) = subst (IsSorted keys) all sorted in
        elim (list_cases (between keys from to node.values)) [
          | inl nothing ↦ (
            s.replacer,
            range_from-empty (reach n e) s id acc node f (Sorted-left keys node.values rest whole)
                  nothing
                ∙ ap (λ l. (ok l, s)) (nothing_added acc ps es (first nothing) pairs),
          )
          | inr some_in ↦
              let both : pairs_of (between keys from to node.values ++ between keys from to rest)
                  ≡ some ps =
                subst (λ l. pairs_of l ≡ some ps)
                  (ap (between keys from to) all ∙ between-append keys from to node.values rest)
                  pairs in
              let (qs, rs, here, behind, split) =
                pairs_of-append (between keys from to node.values) (between keys from to rest)
                  both in
              let g = Views.Frame_of disk (from_page codec vs) s node.next node' v at in
              let t = fetched disk keys codec vs s g.i in
              let s₁ = noted disk keys codec vs s t in
              let g₁ : Frame disk keys codec vs s₁ node.next node' = record {
                i = g.i;
                p = g.p;
                framed = g.framed;
                held = g.held;
                name = g.name;
                image = g.image;
              } in
              let (r, found) =
                range_from-Chain n e s₁ node.next (acc ++ qs) rs node' rest g₁
                  (relabel disk s s.free t s.next_page_id v) chain
                  (Sorted-right keys node.values rest whole)
                  (ends law (frame_node disk keys codec vs s) n node.values rest node' whole some_in
                    chain)
                  behind in
              (
                unpin r g.i,
                range_from-next (reach n e) s id acc qs node f
                      (Sorted-left keys node.values rest whole) some_in here g.i r
                      ((acc ++ qs) ++ rs) v go g.framed found
                    ∙ ap (λ l. (ok l, noted disk keys codec vs s (unpin r g.i)))
                        (append_assoc acc qs rs ∙ ap (◌++◌ acc) (sym split)),
              )
        ]
