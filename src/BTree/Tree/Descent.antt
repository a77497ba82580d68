-- ===== src/BTree/Tree/Descent.antt =====
-- src/btree/mod.rs: `_insert` in a page that is held, down a path of nodes with room.
use mathlib.Core.Bool.{true≢false}
use dbstorage.Base.{
  ℕ, zero, suc, ◌≡◌, refl, sym, ap, ◌∙◌, subst, inl, inr, false, Option, some, none, if◌then◌else◌,
  ok,
}
use dbstorage.Base.Panic
use dbstorage.Bytes.Signed.{=ℤ_cases}
use dbstorage.Page.{PageId}
use dbstorage.Disk.{Disk}
use dbstorage.HashMap.{lookup, int_key}
use dbstorage.Storable.{Storable}
use dbstorage.Replacer.{unpin}
use dbstorage.PageCache.{PageCache, Pin, Call, ◌>>=◌, ◌>>◌, pure}
use dbstorage.PageCache.Scopes.{pick_no, write_guard}
use dbstorage.PageCache.Consistency.{IsConsistent}
use dbstorage.PageCache.Picks.{relabel}
use dbstorage.BTree.Order.{Keys}
use dbstorage.BTree.Slot.{Slot, value}
use dbstorage.BTree.Node.{
  Node, internal, leaf, is_leaf, find_child, almost_full, replace, get_separators,
}
use dbstorage.BTree.Node.Image.{KeyCodec, from_page}
use dbstorage.BTree.Tree.Changes
use dbstorage.BTree.Tree.Changes.{
  write_node, open_child, child_or_raise, put_separators, insert_below, insert_in, first_node, grow,
  insert_at_root, insert_end, insert_held, root_page, insert,
}
use dbstorage.BTree.Tree.Route.{Route, reach, Route-end, Route-top, find_leaf}
use dbstorage.PageCache.Views
use dbstorage.BTree.Tree.Updates.{IsWritable, Updated, Frame, write_node-Updated}
use dbstorage.BTree.Tree.Lookup.{frame_node, noted, fetched, read_node-at}

-- An inner node that an insertion passes: it is not almost full, and it can be written again.
pub record IsPassable {T V : Type 0} (keys : Keys T) (codec : KeyCodec T) (vs : Storable V)
    (n : Node T V) : Type 0 where
  pub room : almost_full keys n ≡ false
  pub writable : IsWritable codec vs n

module _ {D T V : Type 0} (disk : Disk D) (keys : Keys T) (codec : KeyCodec T)
    (vs : Storable V) where
  open_child-leaf :
      (key : T) (node : Node T V) → node.t ≡ leaf → open_child keys key node ≡ some (node, none)
  unfolding open_child child_or_raise
  open_child-leaf key node kind =
      ap (λ o. Panic.◌>>=◌ o (child_or_raise keys key node)) (find_leaf keys key node kind)
      ∙ ap (λ t. if is_leaf t then some (node, none) else raised) kind
    where
      raised : Option (Node T V × Option PageId)
      raised =
          Panic.◌>>=◌ (Changes.raise_last keys key node)
            λ n'. Panic.◌>>=◌ (find_child keys n' key) (Changes.required keys n')

  open_child-inner :
      (key : T) (node : Node T V) (next : PageId)
      → find_child keys node key ≡ some (some next)
      → open_child keys key node ≡ some (node, some next)
  unfolding open_child child_or_raise
  open_child-inner key node next chosen = rw chosen refl

  -- The entry that is inserted, and the leaf with it.
  module _ (key : T) (v : V) where
    abbrev pub slot_of : Slot T V
    slot_of = record { key = key; either = value v }

    abbrev pub grown : Node T V → Node T V
    grown node = (replace keys slot_of node).0

    -- The insertion in a page that is held.
    unfoldable pub Inserts : PageCache D → ℕ → ℕ → Pin → PageId → Node T V → Type 0
    Inserts s h e q at end =
        (s' : PageCache D) × (insert_in disk keys codec vs (reach h e) key v q s ≡ (ok none, s'))
        × Updated disk keys codec vs s s' at (grown end)

    insert_in-leaf :
        (e : ℕ) (s : PageCache D) (id : PageId) (end : Node T V)
        (f : Frame disk keys codec vs s id end)
        → IsConsistent disk s
        → end.t ≡ leaf
        → almost_full keys end ≡ false
        → IsWritable codec vs (grown end)
        → Inserts s zero e (record { i = f.i; id = id }) id end
    unfolding Inserts insert_in insert_below get_separators
    insert_in-leaf e s id end f ok_cache kind room w =
        let q : Pin = record { i = f.i; id = id } in
        let (s', wrote, u) =
          write_node-Updated disk keys codec vs s id f.i f.p (grown end) ok_cache f.framed f.held
            f.name w in
        (
          s',
          rw (read_node-at disk keys codec vs s q f.p end f.held f.image) (
              pick_no (almost_full keys end) _ _ s room
              ∙ (rw (open_child-leaf key end kind, wrote) refl)),
          u,
        )

    -- What `insert_below` does with a child that is held.
    abbrev into_child : ℕ → Pin → Node T V → Pin → Call D (Node T V)
    into_child fuel page node child = do
      _ ← write_guard child
      separators ← insert_in disk keys codec vs fuel key v child
      let n' = put_separators keys separators node
      write_node disk keys codec vs page n'
      pure n'

    -- What is below was inserted; the page of the inner node is written as it was.
    insert_in-inner :
        (h e : ℕ) (s : PageCache D) (id next at : PageId) (node child end : Node T V)
        (f : Frame disk keys codec vs s id node) (g : Frame disk keys codec vs s next child)
        → IsConsistent disk s
        → node.t ≡ internal
        → IsPassable keys codec vs node
        → find_child keys node key ≡ some (some next)
        → frame_node disk keys codec vs s id ≡ some node
        → frame_node disk keys codec vs s at ≡ some end
        → end.t ≡ leaf
        → Inserts
            (noted disk keys codec vs s (fetched disk keys codec vs s g.i))
            h
            e
            (record { i = g.i; id = next })
            at
            end
        → Inserts s (suc h) e (record { i = f.i; id = id }) at end
    unfolding Inserts insert_in insert_below get_separators put_separators
    insert_in-inner h e s id next at node child end f g ok_cache kind pass chosen found there
          is_leaf' (s₁, below, u₁) =
        let q : Pin = record { i = f.i; id = id } in
        let q' : Pin = record { i = g.i; id = next } in
        let s₀ = noted disk keys codec vs s (fetched disk keys codec vs s g.i) in
        let u = Views.Updated-since disk (from_page codec vs) s s₁ at (grown end) _ u₁ in
        let still : frame_node disk keys codec vs s₁ id ≡ some node = elim (=ℤ_cases at id) [
          | inl (same, _) ↦ absurd (
              not_both node end kind is_leaf'
                (sym found ∙ ap (frame_node disk keys codec vs s) (sym same) ∙ there))
          | inr (_, q) ↦ u.nodes id ∙ (rw q found)
        ] in
        let f₁ = Views.Frame_of disk (from_page codec vs) s₁ id node u.consistent still in
        let same_frame : f₁.i ≡ f.i =
          one (sym f₁.framed ∙ ap (λ t. lookup id t) u.table ∙ f.framed) in
        let (s₂, wrote, w) =
          write_node-Updated disk keys codec vs s₁ id f₁.i f₁.p node u.consistent f₁.framed f₁.held
            f₁.name pass.writable in
        let wrote' =
          subst
            (λ i. write_node disk keys codec vs (record { i = i; id = id }) node s₁ ≡ (ok tt, s₂))
            same_frame wrote in
        (
          noted disk keys codec vs s₂ (unpin s₂.replacer g.i),
          rw (read_node-at disk keys codec vs s q f.p node f.held f.image) (
              pick_no (almost_full keys node) _ _ s pass.room
              ∙ (rw
                  (
                    open_child-inner key node next chosen,
                    Views.visit disk s next g.i (into_child (reach h e) q node) (ok node) s₂
                        ok_cache g.framed
                        (rw (Views.write_guard-at disk s₀ q' g.p g.held g.name, below, wrote')
                          refl),
                  )
                  refl)),
          Views.Updated-noted disk (from_page codec vs) s s₂ at (grown end) _ (
              Views.Updated-again disk (from_page codec vs) s s₁ s₂ at id (grown end) node u w
                still),
        )
      where
        one : {A : Type 0} {a b : A} → some a ≡ some b → a ≡ b
        one h = cc

        not_both : (a b : Node T V) → a.t ≡ internal → b.t ≡ leaf → ¬ (some a ≡ some b)
        not_both a b k l e = true≢false (
            sym (ap is_leaf l)
            ∙ ap is_leaf (ap (λ (x : Node T V). x.t) (sym (one {A = Node T V} {a = a} {b = b} e)))
            ∙ ap is_leaf k)

    abbrev renamed :
        (s : PageCache D) (id : PageId) (a b : Node T V) (f : Frame disk keys codec vs s id a)
        → some a ≡ some b
        → Frame disk keys codec vs s id b
    renamed s id a b f e = record {
      i = f.i;
      p = f.p;
      framed = f.framed;
      held = f.held;
      name = f.name;
      image = f.image ∙ e;
    }

    pub insert_in-Route :
        (h e : ℕ) (s : PageCache D) (id at : PageId) (node end : Node T V)
        (f : Frame disk keys codec vs s id node)
        → IsConsistent disk s
        → frame_node disk keys codec vs s id ≡ some node
        → Route keys (IsPassable keys codec vs) (frame_node disk keys codec vs s) h key id at end
        → almost_full keys end ≡ false
        → IsWritable codec vs (grown end)
        → Inserts s h e (record { i = f.i; id = id }) at end
    insert_in-Route zero e s id at node end f ok_cache found (same, there, kind) room w =
        subst (λ x. Inserts s zero e (record { i = f.i; id = id }) x end) same
          (insert_in-leaf e s id end (renamed s id node end f (sym found ∙ there)) ok_cache kind
            room w)
    insert_in-Route (suc h) e s id at node end f ok_cache found
          (node', next, there, pass, kind, chosen, path) room w =
        let (child, below) =
          Route-top keys (IsPassable keys codec vs) (frame_node disk keys codec vs s) h key next at
            end path in
        let (last, is_leaf') =
          Route-end keys (IsPassable keys codec vs) (frame_node disk keys codec vs s) h key next at
            end path in
        let g = Views.Frame_of disk (from_page codec vs) s next child ok_cache below in
        let r = fetched disk keys codec vs s g.i in
        let s₀ = noted disk keys codec vs s r in
        let g₀ : Frame disk keys codec vs s₀ next child = record {
          i = g.i;
          p = g.p;
          framed = g.framed;
          held = g.held;
          name = g.name;
          image = g.image;
        } in
        insert_in-inner h e s id next at node' child end
          (renamed s id node node' f (sym found ∙ there)) g ok_cache kind pass chosen there last
          is_leaf'
          (insert_in-Route h e s₀ next at child end g₀
            (relabel disk s s.free r s.next_page_id ok_cache) below path room w)
