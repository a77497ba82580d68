-- ===== src/BTree/Node.antt =====
-- src/btree/node.rs: a node of the tree, over the order of its keys. `none` is a panic; `unreachable!`
-- is one too.
pub mod Entries
pub mod Laws
pub mod Image
pub mod Replacement
pub mod Removing
pub mod Written
pub mod RoundTrip
pub mod Equality
use dbstorage.Base.{
  ℕ, zero, suc, ◌+◌, ◌*◌, ◌/◌, Bool, true, false, not, Option, some, none, List, [], ◌∷◌, ◌++◌, ltb,
  leb, ◌==◌, if◌then◌else◌, length, take, drop, set, last,
}
use dbstorage.Base.Panic.{◌>>=◌, ◌>>◌, assert}
use dbstorage.Bytes.Signed.{ℤ, negsuc, ◌=ℤ◌}
use dbstorage.Page.{PageId, page_size}
use dbstorage.BTree.Order.{Keys}
use dbstorage.BTree.Slot.{Either, value, pointer, Slot, get_ptr}
use Entries.{find_by, Place, duplicate, before, scan, insert_at, remove_first}

pub data NodeType : Type 0 where
  internal leaf : NodeType

-- `NodeType::from(u8)`
unfoldable pub node_type_from : ℕ → Option NodeType
node_type_from b = if b == 1 then some internal else if b == 2 then some leaf else none

unfoldable pub node_type_byte : NodeType → ℕ
node_type_byte internal = 1
node_type_byte leaf = 2

abbrev pub is_leaf : NodeType → Bool
is_leaf internal = false
is_leaf leaf = true

pub record Node (T V : Type 0) : Type 0 where
  pub t : NodeType
  pub is_root : Bool
  pub next : PageId
  pub id : PageId
  pub values : List (Slot T V)

-- No page: the end of the chain of leaves.
abbrev pub no_next : PageId
no_next = negsuc 0

module _ {T V : Type 0} (keys : Keys T) where
  -- `Node::new`
  unfoldable pub new : PageId → NodeType → Bool → Node T V
  new id t is_root = record { t = t; is_root = is_root; next = no_next; id = id; values = [] }

  -- Self after the split, and the new node with the greater half.
  unfoldable pub split : Node T V → PageId → Node T V × Node T V
  split n id =
      let at = length n.values / 2 in
      let rest = drop at n.values in
      if is_leaf n.t
      then (
        record n { values = take at n.values; is_root = false; next = id },
        record { t = n.t; is_root = false; next = n.next; id = id; values = rest },
      )
      else (
        record n { values = take at n.values; is_root = false },
        record { t = n.t; is_root = false; next = no_next; id = id; values = rest },
      )

  unfoldable pub get_separator : Node T V → Option (Slot T V)
  get_separator n = do
    s ← last n.values
    k ← (if is_leaf n.t then keys.next s.key else some s.key)
    some (record { key = k; either = pointer n.id })

  -- The outer `none` is the panic of an empty node.
  unfoldable pub get_separators :
      Node T V → Option (Node T V) → Option (Option (Slot T V × Slot T V))
  unfolding get_separator
  get_separators n none = some none
  get_separators n (some other) = do
    s ← get_separator n
    os ← get_separator other
    some (some (s, os))

  unfoldable pub chosen_child : PageId → Option (Slot T V) → Option (Option PageId)
  chosen_child next (some s) = do p ← get_ptr s.either; some (some p)
  chosen_child next none = if next =ℤ no_next then some none else some (some next)

  -- `None` at a leaf, or if every key is at most the argument and there is no next node.
  unfoldable pub find_child : Node T V → T → Option (Option PageId)
  unfolding chosen_child find_by
  find_child n key =
      if is_leaf n.t
      then some none
      else chosen_child n.next (find_by (λ s. keys.lt key s.key) n.values)

  unfoldable pub first : Node T V → Option (Slot T V)
  first n = find_by (λ _. true) n.values

  -- Of a value it panics.
  unfoldable pub first_ptr : Node T V → Option (Option PageId)
  first_ptr n = elim n.values [ [] ↦ some none | s ∷ _ ↦ (do p ← get_ptr s.either; some (some p)) ]

  unfoldable pub last_key : Node T V → Option T
  last_key n = do s ← last n.values; some s.key

  unfoldable pub almost_full : Node T V → Bool
  almost_full n = leb (page_size / 2) (length n.values * keys.schema_size)

  unfoldable pub insert_place : Place → Slot T V → Node T V → Node T V × Bool
  insert_place (duplicate i) slot n = (n, false)
  insert_place (before i) slot n = (record n { values = insert_at i slot n.values }, true)

  -- `false`, the node unchanged, if the key is there.
  unfoldable pub insert : Slot T V → Node T V → Node T V × Bool
  unfolding insert_place scan insert_at
  insert slot n = insert_place (scan keys slot.key n.values) slot n

  unfoldable pub replace_place : Place → Slot T V → Node T V → Node T V × Option (Slot T V)
  replace_place (duplicate i) slot n =
      (record n { values = set n.values i slot }, Entries.nth n.values i)
  replace_place (before i) slot n = (record n { values = insert_at i slot n.values }, none)

  -- The old entry of the key, if there is one; the new one takes its place.
  unfoldable pub replace : Slot T V → Node T V → Node T V × Option (Slot T V)
  unfolding replace_place scan insert_at
  replace slot n = replace_place (scan keys slot.key n.values) slot n

  -- `pop_last`: the last entry and the node without it.
  unfoldable pub pop_last : Node T V → Option (Slot T V) × Node T V
  pop_last n = (last n.values, record n { values = Entries.drop_last n.values })

  unfoldable pub get : Node T V → T → Option (Slot T V)
  unfolding find_by
  get n key = find_by (λ s. keys.eq s.key key) n.values

  unfoldable pub remove : T → Node T V → Node T V × Bool
  unfolding remove_first
  remove key n =
      let (values, found) = remove_first (λ s. keys.eq s.key key) n.values in
      (record n { values = values }, found)
