-- ===== src/BTree/Tree/Writing.antt =====
-- src/btree/mod.rs: a write of a node through a pin that is held.
use dbstorage.Base.{◌≡◌, refl, some, get_elem?, ok}
use dbstorage.Page.{PageInner, PageBuf}
use dbstorage.Disk.{Disk}
use dbstorage.Storable.{Storable}
use dbstorage.PageCache.{PageCache, Pin}
use dbstorage.PageCache.Views
use dbstorage.BTree.Order.{Keys}
use dbstorage.BTree.Node.{Node}
use dbstorage.BTree.Node.Image.{KeyCodec, to_page}
use dbstorage.BTree.Tree.Changes.{write_node}

module _ {D T V : Type 0} (disk : Disk D) (keys : Keys T) (codec : KeyCodec T)
    (vs : Storable V) where
  pub write_node-at :
      (s : PageCache D) (q : Pin) (p : PageInner) (node : Node T V) (image : PageBuf)
      → get_elem? s.pages q.i ≡ some p
      → to_page codec vs node ≡ some image
      → write_node disk keys codec vs q node s ≡ (ok tt, Views.written disk s q.i p image)
  unfolding write_node
  write_node-at s q p node image held e = rw (e, Views.overwrite-at disk s q p held image) refl
