-- ===== src/BTree/Node/Equality.antt =====
-- src/btree/node.rs: `PartialEq` of nodes.
use dbstorage.Base.{Bool, true, false, ◌&&◌, List, ◌∷◌, ◌==◌, length}
use dbstorage.Bytes.Signed.{◌=ℤ◌}
use dbstorage.BTree.Order.{Keys}
use dbstorage.BTree.Slot.{Either, value, pointer, Slot}
use dbstorage.BTree.Node.{NodeType, internal, leaf, Node}

unfoldable pub same_type : NodeType → NodeType → Bool
same_type internal internal = true
same_type leaf leaf = true
same_type _ _ = false

unfoldable pub same_bool : Bool → Bool → Bool
same_bool true true = true
same_bool false false = true
same_bool _ _ = false

module _ {T V : Type 0} (keys : Keys T) (same_value : V → V → Bool) where
  -- The derived `PartialEq` of `Either`.
  unfoldable pub same_either : Either V → Either V → Bool
  same_either (value a) (value b) = same_value a b
  same_either (pointer p) (pointer q) = p =ℤ q
  same_either _ _ = false

  -- The loop over the entries of two nodes, which are as many.
  unfoldable pub same_entries : List (Slot T V) → List (Slot T V) → Bool
  unfolding same_either
  same_entries (a ∷ as') (b ∷ bs) =
      keys.eq a.key b.key && same_either a.either b.either && same_entries as' bs
  same_entries _ _ = true

  unfoldable pub same_node : Node T V → Node T V → Bool
  unfolding same_type same_bool same_entries
  same_node a b =
      (same_type a.t b.t && same_bool a.is_root b.is_root && a.next =ℤ b.next && a.id =ℤ b.id)
      && length a.values == length b.values
      && same_entries a.values b.values
