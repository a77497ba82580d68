-- ===== src/Tests/Changes.antt =====
-- Changes of a tree of two pages.
use dbstorage.Base.{if◌then◌else◌, ◌==◌, arith, none, ℕ, ◌≡◌, refl, true, some, Option, ok}
use dbstorage.Bytes.Words.{to_be_bytes}
use dbstorage.Bytes.Signed.{pos}
use dbstorage.Disk.{Memory, memory}
use dbstorage.HashMap.{int_key}
use dbstorage.Storable.{unsigned}
use dbstorage.Replacer
use dbstorage.PageCache.{PageCache}
use dbstorage.PageCache.Consistency.{IsConsistent}
use dbstorage.BTree.Slot.{Slot, get_ptr, value}
use dbstorage.BTree.Node.{replace, replace_place, almost_full, Node, internal, leaf, node_type_from}
use dbstorage.BTree.Node.Entries.{scan, insert_at, find_by}
use dbstorage.BTree.Tree.{get}
use dbstorage.BTree.Slot.Laws.{either_from-pointer}
use dbstorage.BTree.Node
use dbstorage.BTree.Tree.Changes
use dbstorage.BTree.Tree.Changes.{delete}
use dbstorage.BTree.Tree.Search.{search}
use dbstorage.BTree.Tree.Lookup.{frame_node, noted}
use dbstorage.Tests.Trees.{numbers, numbers-IsOrder}
use dbstorage.Tests.Pages.{
  words, entry, root_node, leaf_node, both, both-IsConsistent, framed, index, words_read, readable,
  leaf_node-IsSorted, leaf_node_room,
}
use dbstorage.BTree.Tree.Route.{Route}
use dbstorage.BTree.Tree.Updates.{IsWritable}
use dbstorage.BTree.Tree.Descent.{IsPassable}
use dbstorage.BTree.Tree.Insertion.{get-insert_path}
use dbstorage.BTree.Tree.Removal.{Anything, get-delete}

-- The search goes from the root to the leaf.
way :
    (k : ℕ) (P : Node ℕ ℕ → Type 0)
    → P root_node
    → Node.find_child numbers root_node k ≡ some (some (pos 1))
    → Route numbers P
        (frame_node memory numbers words (unsigned 4) both)
        1
        k
        (pos 0)
        (pos 1)
        leaf_node
way k P p chosen = (root_node, pos 1, framed.0, p, refl, chosen, (refl, framed.1, refl))

to_leaf :
    (Node.find_child numbers root_node 5 ≡ some (some (pos 1)))
    × (Node.find_child numbers root_node 7 ≡ some (some (pos 1)))
unfolding Node.find_child find_by Node.chosen_child get_ptr
to_leaf = (refl, refl)

leaf_node-IsWritable : IsWritable words (unsigned 4) leaf_node
unfolding unsigned to_be_bytes
leaf_node-IsWritable = record {
  readable = (readable 3 (omega arith), (readable 7 (omega arith), tt));
  fits = omega arith;
  next_ok = omega arith;
  id_ok = omega arith;
}

get-delete_example :
    (s' : PageCache Memory) × (delete memory numbers words (unsigned 4) 2 7 index both
      ≡ (ok true, s'))
    × IsConsistent memory s'
    × ((k : ℕ) (o : Option (Slot ℕ ℕ))
        → search numbers (frame_node memory numbers words (unsigned 4) both) 2 k (pos 0) ≡ some o
        → (r : Replacer.LrukReplacer) × (get memory numbers words (unsigned 4) 2 index k s'
            ≡ (ok (if 7 == k then none else o), noted memory numbers words (unsigned 4) s' r)))
unfolding find_by Node.get
get-delete_example =
    get-delete memory numbers words (unsigned 4) numbers-IsOrder 1 2 both index 7 (pos 1) leaf_node
      (omega arith) both-IsConsistent (λ h. cc) (way 7 Anything tt to_leaf.1) leaf_node-IsWritable
      leaf_node-IsSorted

root_node-IsPassable : IsPassable numbers words (unsigned 4) root_node
unfolding unsigned to_be_bytes almost_full
root_node-IsPassable = record {
  room = refl;
  writable = record {
    readable = (
      (either_from-pointer (unsigned 4) (pos 1) (omega arith) refl, words_read 8 (omega arith)),
      tt,
    );
    fits = omega arith;
    next_ok = omega arith;
    id_ok = omega arith;
  };
}

grown-IsWritable :
    IsWritable words
      (unsigned 4)
      (replace numbers (record { key = 5; either = value 50 }) leaf_node).0
unfolding unsigned to_be_bytes replace replace_place scan insert_at
grown-IsWritable = record {
  readable = (readable 3 (omega arith), (readable 5 (omega arith), (readable 7 (omega arith), tt)));
  fits = omega arith;
  next_ok = omega arith;
  id_ok = omega arith;
}

get-insert_path_example :
    (s' : PageCache Memory) × (Changes.insert memory numbers words (unsigned 4) 2 5 50 index both
      ≡ (ok tt, index, s'))
    × IsConsistent memory s'
    × ((k : ℕ) (o : Option (Slot ℕ ℕ))
        → search numbers (frame_node memory numbers words (unsigned 4) both) 2 k (pos 0) ≡ some o
        → (r : Replacer.LrukReplacer) × (get memory numbers words (unsigned 4) 2 index k s' ≡ (
          ok (if 5 == k then some (entry 5) else o),
          noted memory numbers words (unsigned 4) s' r,
        )))
get-insert_path_example =
    get-insert_path memory numbers words (unsigned 4) numbers-IsOrder 1 2 both index 5 50 (pos 1)
      leaf_node (omega arith) both-IsConsistent (λ h. cc)
      (way 5 (IsPassable numbers words (unsigned 4)) root_node-IsPassable to_leaf.0) leaf_node_room
      leaf_node-IsSorted grown-IsWritable
