-- ===== src/Tests/Lookups.antt =====
-- Lookups in a tree of two pages.
use dbstorage.Base.{arith, length, ◌≡◌, refl, some, [], ◌∷◌, ok}
use dbstorage.Bytes.Words.{to_be_bytes}
use dbstorage.Bytes.Signed.{pos}
use dbstorage.Page.{PageBuf, page_size}
use dbstorage.Disk.{memory}
use dbstorage.Disk.MemoryLaws.{memory-IsLawful}
use dbstorage.HashMap.{int_key}
use dbstorage.Storable.{unsigned}
use dbstorage.Replacer
use dbstorage.BTree.Slot.{get_ptr, get_value}
use dbstorage.BTree.Node.{replace, replace_place, almost_full, Node, internal, leaf, node_type_from}
use dbstorage.BTree.Node.Entries.{find_by}
use dbstorage.BTree.Node.Image.{to_page, from_page}
use dbstorage.BTree.Tree
use dbstorage.BTree.Tree.{BTree, get, first_child, pairs_of}
use dbstorage.BTree.Tree.Scan.{scan-Under}
use dbstorage.BTree.Tree.Route.{Route}
use dbstorage.BTree.Tree.Removal.{Anything}
use dbstorage.BTree.Tree.Range.{range-between, range-gap}
use dbstorage.BTree.Node.RoundTrip.{from_page-to_page_node}
use dbstorage.BTree.Node
use dbstorage.BTree.Tree.Search.{entry_of}
use dbstorage.BTree.Tree.Lookup.{frame_node, noted, get-Holds}
use dbstorage.BTree.Tree.Fetching.{page_node, Kept, get-Kept}
use dbstorage.Tests.Trees.{numbers, numbers-IsOrder}
use dbstorage.Tests.Pages.{
  words, entry, root_node, leaf_node, both, both-IsConsistent, framed, shown, entries, index, held,
  readable, leaf_node-IsSorted,
}

get-Holds_example :
    (r : Replacer.LrukReplacer) × (get memory numbers words (unsigned 4) 2 index 7 both
      ≡ (ok (some (entry 7)), noted memory numbers words (unsigned 4) both r))
unfolding find_by
get-Holds_example =
    get-Holds memory numbers words (unsigned 4) numbers-IsOrder 1 both index 7 entries
      both-IsConsistent (λ h. cc) (held (frame_node memory numbers words (unsigned 4) both) framed)

get-Kept_example :
    (some (entry 7) ≡ entry_of numbers 7 entries)
    × Kept memory numbers words
        (unsigned 4)
        both
        (noted memory numbers words (unsigned 4) both get-Holds_example.0)
get-Kept_example =
    get-Kept memory numbers words (unsigned 4) numbers-IsOrder memory-IsLawful 1 both index 7
      entries both-IsConsistent (λ h. cc)
      (held (page_node memory numbers words (unsigned 4) both) shown) get-Holds_example.1

scan-Under_example :
    (r : Replacer.LrukReplacer) × (Tree.scan memory numbers words (unsigned 4) 2 index both
      ≡ (ok ((3, 30) ∷ (7, 70) ∷ []), noted memory numbers words (unsigned 4) both r))
unfolding first_child get_ptr pairs_of get_value find_by dbstorage.BTree.Node.first
scan-Under_example =
    scan-Under memory numbers words (unsigned 4) 1 0 both index root_node ((3, 30) ∷ (7, 70) ∷ [])
      both-IsConsistent (λ h. cc) framed.0
      (pos 1, leaf_node, refl, refl, framed.1, (refl, refl, refl))

from_page-to_page_node_example :
    (page : PageBuf) × (to_page words (unsigned 4) leaf_node ≡ some page)
    × (length page ≡ page_size)
    × (from_page words (unsigned 4) page ≡ some leaf_node)
unfolding unsigned to_be_bytes
from_page-to_page_node_example =
    from_page-to_page_node words (unsigned 4) leaf_node
      (readable 3 (omega arith), (readable 7 (omega arith), tt)) (omega arith) (omega arith)
      (omega arith)

to_leaf : Node.find_child numbers root_node 4 ≡ some (some (pos 1))
unfolding Node.find_child find_by Node.chosen_child get_ptr
to_leaf = refl

way :
    Route numbers Anything
      (frame_node memory numbers words (unsigned 4) both)
      1
      4
      (pos 0)
      (pos 1)
      leaf_node
way = (root_node, pos 1, framed.0, tt, refl, to_leaf, (refl, framed.1, refl))

range-between_example :
    (r : Replacer.LrukReplacer) × (Tree.range memory numbers words (unsigned 4) 2 index 4 9 both
      ≡ (ok ((7, 70) ∷ []), noted memory numbers words (unsigned 4) both r))
unfolding pairs_of get_value
range-between_example =
    range-between memory numbers words (unsigned 4) 4 9 numbers-IsOrder 1 0 2 both index (pos 1)
      leaf_node entries ((7, 70) ∷ []) (omega arith) (omega arith) both-IsConsistent way
      (refl, (λ h. cc), refl) leaf_node-IsSorted (λ h. cc) refl

range-gap_example :
    (r : Replacer.LrukReplacer) × (Tree.range memory numbers words (unsigned 4) 2 index 4 6 both
      ≡ (ok [], noted memory numbers words (unsigned 4) both r))
range-gap_example =
    range-gap memory numbers words (unsigned 4) 4 6 numbers-IsOrder 1 2 both index (pos 1) leaf_node
      (omega arith) both-IsConsistent way leaf_node-IsSorted refl
