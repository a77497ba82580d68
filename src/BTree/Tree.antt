-- ===== src/BTree/Tree.antt =====
-- src/btree/mod.rs: the tree's calls that read, over the page cache. A call that goes from page to page
-- has as fuel the pages it may visit: without fuel the source goes on until its stack is full, which is a
-- panic.
pub mod Changes
pub mod Scan
pub mod Between
pub mod Range
pub mod Pairs
pub mod LeafChain
pub mod Insertion
pub mod Search
pub mod Writing
pub mod Lookup
pub mod Fetching
pub mod Route
pub mod Descent
pub mod Updates
pub mod Removal
use dbstorage.Base.{
  ℕ, zero, suc, Bool, true, false, not, Option, some, none, List, [], ◌∷◌, ◌++◌, ◌==◌,
  if◌then◌else◌, length, Outcome, ok, err, panic,
}
use dbstorage.Base.Panic
use dbstorage.Base.Panic.{assert}
use dbstorage.Bytes.Signed.{ℤ, negsuc, ◌=ℤ◌}
use dbstorage.Page.{PageId}
use dbstorage.Disk.{Disk}
use dbstorage.Storable.{Storable}
use dbstorage.PageCache.{PageCache, Pin, Call, ◌>>=◌, ◌>>◌, pure, fetch_page, read_pin}
use dbstorage.PageCache.Scopes.{lift, finally}
use dbstorage.BTree.Order.{Keys}
use dbstorage.BTree.Slot.{Slot, get_ptr, get_value}
use dbstorage.BTree.Node
use dbstorage.BTree.Node.{Node, is_leaf, find_child, no_next}
use dbstorage.BTree.Node.Image.{KeyCodec, from_page}

pub record BTree : Type 0 where
  pub root : PageId

-- No page: the tree has no node yet.
abbrev pub no_root : PageId
no_root = negsuc 0

-- `BTree::new`
unfoldable pub new : BTree
new = record { root = no_root }

-- `BTree::new_with_root`
unfoldable pub new_with_root : PageId → BTree
new_with_root root = record { root = root }

abbrev pub out_of_fuel : {D A : Type 0} → Call D A
out_of_fuel s = (panic, s)

module _ {A : Type 0} where
  -- `skip_while`, `take_while`
  unfoldable pub skip_while : (A → Bool) → List A → List A
  skip_while test [] = []
  skip_while test (x ∷ xs) = if test x then skip_while test xs else x ∷ xs

  unfoldable pub take_while : (A → Bool) → List A → List A
  take_while test [] = []
  take_while test (x ∷ xs) = let rest = take_while test xs in if test x then x ∷ rest else []

-- The keys and values of entries; a pointer among them is `unreachable!`.
unfoldable pub pairs_of : {T V : Type 0} → List (Slot T V) → Option (List (T × V))
unfolding get_value
pairs_of [] = some []
pairs_of (s ∷ rest) =
    Panic.◌>>=◌ (get_value s.either)
      λ v. Panic.◌>>=◌ (pairs_of rest) λ more. some ((s.key, v) ∷ more)

-- The pointer of the first entry; that there is none is a panic.
unfoldable pub first_child : {T V : Type 0} → Keys T → Node T V → Option PageId
unfolding get_ptr
first_child keys n = Panic.◌>>=◌ (Node.first keys n) λ s. get_ptr s.either

-- The entries of a leaf from a key to a key, both included.
unfoldable pub entries_between : {T V : Type 0} → Keys T → T → T → List (Slot T V) → List (Slot T V)
unfolding skip_while take_while
entries_between keys from to values =
    take_while (λ s. not (keys.lt to s.key)) (skip_while (λ s. keys.lt s.key from) values)

module _ {D T V : Type 0} (disk : Disk D) (keys : Keys T) (codec : KeyCodec T)
    (vs : Storable V) where
  -- `Node::from(&page.data, schema)` of a page that is held.
  unfoldable pub read_node : Pin → Call D (Node T V)
  unfolding from_page
  read_node pin = do buf ← read_pin disk pin; lift (from_page codec vs buf)

  -- `_get`
  unfoldable pub get_from : ℕ → T → PageId → Call D (Option (Slot T V))
  unfolding read_node find_child Node.get
  get_from zero key ptr = out_of_fuel
  get_from (suc fuel) key ptr = do
    page ← fetch_page disk ptr
    finally disk page (do
      node ← read_node page
      child ← lift (find_child keys node key)
      elim child [
        | some next ↦ get_from fuel key next
        | none ↦ if is_leaf node.t then pure (Node.get keys node key) else pure none
      ])

  unfoldable pub get : ℕ → BTree → T → Call D (Option (Slot T V))
  unfolding get_from
  get fuel tree key = if tree.root =ℤ no_root then pure none else get_from fuel key tree.root

  -- `get_ptr`: the leaf of a key.
  unfoldable pub leaf_of : ℕ → T → PageId → Call D (Option PageId)
  unfolding read_node find_child
  leaf_of zero key ptr = out_of_fuel
  leaf_of (suc fuel) key ptr = do
    lift (assert (not (ptr =ℤ no_root)))
    page ← fetch_page disk ptr
    finally disk page (do
      node ← read_node page
      child ← lift (find_child keys node key)
      elim child [
        | some next ↦ leaf_of fuel key next
        | none ↦ if is_leaf node.t then pure (some ptr) else pure none
      ])

  -- `_scan`: down to the first leaf, then from leaf to leaf. Every page stays pinned until the end.
  unfoldable pub scan_from : ℕ → Pin → List (T × V) → Call D (List (T × V))
  unfolding read_node pairs_of first_child
  scan_from zero page acc = out_of_fuel
  scan_from (suc fuel) page acc = do
    node ← read_node page
    elim (is_leaf node.t) [
      | false ↦ (do
        ptr ← lift (first_child keys node)
        pin ← fetch_page disk ptr
        finally disk pin (scan_from fuel pin acc))
      | true ↦ (do
        pairs ← lift (pairs_of node.values)
        elim (node.next =ℤ no_next) [
          | true ↦ pure (acc ++ pairs)
          | false ↦ (do
            pin ← fetch_page disk node.next
            finally disk pin (scan_from fuel pin (acc ++ pairs)))
        ])
    ]

  unfoldable pub scan : ℕ → BTree → Call D (List (T × V))
  unfolding scan_from
  scan fuel tree =
      if tree.root =ℤ no_root
      then pure []
      else (do pin ← fetch_page disk tree.root; finally disk pin (scan_from fuel pin []))

  -- `_range`: it ends at a leaf that adds nothing.
  unfoldable pub range_from : ℕ → Pin → List (T × V) → T → T → Call D (List (T × V))
  unfolding read_node pairs_of entries_between
  range_from zero page acc from to = out_of_fuel
  range_from (suc fuel) page acc from to = do
    node ← read_node page
    pairs ← lift (pairs_of (entries_between keys from to node.values))
    elim (length pairs == 0) [
      | true ↦ pure acc
      | false ↦ elim (node.next =ℤ no_next) [
        | true ↦ pure (acc ++ pairs)
        | false ↦ (do
          pin ← fetch_page disk node.next
          finally disk pin (range_from fuel pin (acc ++ pairs) from to))
      ]
    ]

  unfoldable pub range : ℕ → BTree → T → T → Call D (List (T × V))
  unfolding leaf_of range_from
  range fuel tree from to = do
    leaf ← leaf_of fuel from tree.root
    elim leaf [
      | none ↦ pure []
      | some cur ↦ (do
        page ← fetch_page disk cur
        finally disk page (range_from fuel page [] from to))
    ]
