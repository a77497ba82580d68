-- ===== src/BTree/Tree/Changes.antt =====
-- src/btree/mod.rs: insertion and deletion.
use dbstorage.Base.{
  ℕ, zero, suc, Bool, true, false, Option, some, none, if◌then◌else◌, Outcome, ok, err, panic,
}
use dbstorage.Base.Panic
use dbstorage.Bytes.Signed.{◌=ℤ◌}
use dbstorage.Page.{PageId}
use dbstorage.Disk.{Disk}
use dbstorage.Storable.{Storable}
use dbstorage.PageCache.{PageCache, Pin, Call, ◌>>=◌, ◌>>◌, pure, fetch_page, new_page}
use dbstorage.PageCache.Scopes.{lift, finally, overwrite, write_guard}
use dbstorage.BTree.Order.{Keys}
use dbstorage.BTree.Slot.{Slot, value}
use dbstorage.BTree.Node
use dbstorage.BTree.Node.{
  Node, internal, leaf, is_leaf, find_child, almost_full, last_key, replace, pop_last,
  get_separators,
}
use dbstorage.BTree.Node.Image.{KeyCodec, to_page}
use dbstorage.BTree.Tree.{BTree, no_root, out_of_fuel, read_node}

module _ {T V : Type 0} (keys : Keys T) where
  -- The last entry's key is raised above a key that no entry's key is greater than.
  unfoldable pub raise_last : T → Node T V → Option (Node T V)
  unfolding pop_last Node.insert
  raise_last key n =
      let (popped, n') = pop_last keys n in
      Panic.◌>>=◌ popped λ s.
        Panic.◌>>=◌ (keys.next key)
          λ k. some (Node.insert keys (record { key = k; either = s.either }) n').0

  unfoldable pub required : Node T V → Option PageId → Option (Node T V × Option PageId)
  required n none = none
  required n (some ptr) = some (n, some ptr)

  unfoldable pub child_or_raise : T → Node T V → Option PageId → Option (Node T V × Option PageId)
  unfolding raise_last required
  child_or_raise key n (some ptr) = some (n, some ptr)
  child_or_raise key n none =
      if is_leaf n.t
      then some (n, none)
      else Panic.◌>>=◌ (raise_last key n) λ n'. Panic.◌>>=◌ (find_child keys n' key) (required n')

  -- "Find the child node": no child at a leaf; an inner node without one has its last key raised, after
  -- which there must be one.
  unfoldable pub open_child : T → Node T V → Option (Node T V × Option PageId)
  unfolding child_or_raise find_child
  open_child key n = Panic.◌>>=◌ (find_child keys n key) (child_or_raise key n)

  -- The separators of a child that was split.
  unfoldable pub put_separators : Option (Slot T V × Slot T V) → Node T V → Node T V
  unfolding replace
  put_separators none n = n
  put_separators (some (s, os)) n = (replace keys os (replace keys s n).0).0

-- What is left to do once a full node is split: nothing, or the insertion into the lower half.
pub data Split (T V : Type 0) : Type 0 where
  answered : Option (Slot T V × Slot T V) → Split T V
  lower : Node T V → Node T V → Split T V

module _ {D T V : Type 0} (disk : Disk D) (keys : Keys T) (codec : KeyCodec T)
    (vs : Storable V) where
  -- `writep!(page, &PageBuf::from(&node))`
  unfoldable pub write_node : Pin → Node T V → Call D (Unit {0})
  unfolding to_page overwrite
  write_node pin node = do image ← lift (to_page codec vs node); overwrite pin image

  -- "Find and insert" in a node, whose page is then written; the call into the child is an argument.
  unfoldable pub insert_below :
      (Pin → Call D (Option (Slot T V × Slot T V))) → Pin → Node T V → T → V → Call D (Node T V)
  unfolding open_child put_separators replace write_node write_guard
  insert_below into page n key v = do
    opened ← lift (open_child keys key n)
    elim opened.1 [
      | none ↦ (do
        let n' = (replace keys (record { key = key; either = value v }) opened.0).0
        write_node page n'
        pure n')
      | some ptr ↦ (do
        child ← fetch_page disk ptr
        finally disk child (do
          _ ← write_guard child
          separators ← into child
          let n' = put_separators keys separators opened.0
          write_node page n'
          pure n'))
    ]

  -- The block for a node that is almost full.
  unfoldable pub split_full :
      (Pin → Call D (Option (Slot T V × Slot T V))) → Pin → Node T V → T → V → Call D (Split T V)
  unfolding Node.split last_key insert_below write_node write_guard get_separators
  split_full into page full key v = do
    fresh ← new_page disk
    finally disk fresh (do
      _ ← write_guard fresh
      let (node, upper) = Node.split keys full fresh.id
      last ← lift (last_key keys node)
      elim (keys.lt key last) [
        | true ↦ (do write_node fresh upper; pure (lower node upper))
        | false ↦ (do
          write_node page node
          upper' ← insert_below into fresh upper key v
          separators ← lift (get_separators keys node (some upper'))
          pure (answered separators))
      ])

  -- `_insert`, in a page that is held.
  unfoldable pub insert_in : ℕ → T → V → Pin → Call D (Option (Slot T V × Slot T V))
  unfolding read_node almost_full split_full insert_below get_separators
  insert_in zero key v page = out_of_fuel
  insert_in (suc fuel) key v page = do
    node ← read_node disk keys codec vs page
    elim (almost_full keys node) [
      | false ↦ (do
        node' ← insert_below (insert_in fuel key v) page node key v
        lift (get_separators keys node' none))
      | true ↦ (do
        split ← split_full (insert_in fuel key v) page node key v
        elim split [
          | answered separators ↦ pure separators
          | lower node' upper ↦ (do
            node'' ← insert_below (insert_in fuel key v) page node' key v
            lift (get_separators keys node'' (some upper)))
        ])
    ]

  -- The page of the root, which an empty tree does not have yet.
  unfoldable pub root_page : BTree → Call D Pin
  root_page tree = if tree.root =ℤ no_root then new_page disk else fetch_page disk tree.root

  unfoldable pub first_node : BTree → Pin → Call D (Unit {0})
  unfolding write_node
  first_node tree pin =
      if tree.root =ℤ no_root then write_node pin (Node.new keys pin.id leaf true) else pure tt

  -- The tree has a new root above the two halves of the old one.
  unfoldable pub grow : PageId → Option (Slot T V × Slot T V) → Call D PageId
  unfolding Node.insert write_node write_guard
  grow root none = pure root
  grow root (some (s, os)) = do
    new_root_page ← new_page disk
    finally disk new_root_page (do
      let new_root = Node.new keys new_root_page.id internal true
      _ ← write_guard new_root_page
      write_node new_root_page (Node.insert keys os (Node.insert keys s new_root).0).0
      pure new_root_page.id)

  unfoldable pub insert_at_root : ℕ → T → V → BTree → Pin → Call D PageId
  unfolding first_node insert_in grow write_guard
  insert_at_root fuel key v tree pin = do
    rpage ← write_guard pin
    first_node tree pin
    separators ← insert_in fuel key v pin
    grow rpage.id separators

  -- The tree after `insert`: a call that fails behind the root has set the root already.
  unfoldable pub insert_end :
      Pin → Outcome PageId × PageCache D → Outcome (Unit {0}) × BTree × PageCache D
  insert_end pin (ok root, s) = (ok tt, record { root = root }, s)
  insert_end pin (err e, s) = (err e, record { root = pin.id }, s)
  insert_end pin (panic, s) = (panic, record { root = pin.id }, s)

  unfoldable pub insert_held :
      ℕ → T → V → BTree → Outcome Pin × PageCache D → Outcome (Unit {0}) × BTree × PageCache D
  unfolding insert_at_root insert_end
  insert_held fuel key v tree (ok pin, s) =
      insert_end pin (finally disk pin (insert_at_root fuel key v tree pin) s)
  insert_held fuel key v tree (err e, s) = (err e, tree, s)
  insert_held fuel key v tree (panic, s) = (panic, tree, s)

  unfoldable pub insert : ℕ → T → V → BTree → PageCache D → Outcome (Unit {0}) × BTree × PageCache D
  unfolding root_page insert_held
  insert fuel key v tree s = insert_held fuel key v tree (root_page tree s)

  unfoldable pub remove_here : T → Pin → Node T V → Call D Bool
  unfolding Node.remove write_node
  remove_here key page node = do
    let (node', removed) = Node.remove keys key node
    if removed then write_node page node' else pure tt
    pure removed

  -- `_delete`
  unfoldable pub delete_from : ℕ → T → PageId → Call D Bool
  unfolding read_node find_child remove_here write_guard
  delete_from zero key ptr = out_of_fuel
  delete_from (suc fuel) key ptr = do
    page ← fetch_page disk ptr
    finally disk page (do
      _ ← write_guard page
      node ← read_node disk keys codec vs page
      child ← lift (find_child keys node key)
      elim child [
        | some next ↦ delete_from fuel key next
        | none ↦ if is_leaf node.t then remove_here key page node else pure false
      ])

  unfoldable pub delete : ℕ → T → BTree → Call D Bool
  unfolding delete_from
  delete fuel key tree = if tree.root =ℤ no_root then pure false else delete_from fuel key tree.root
