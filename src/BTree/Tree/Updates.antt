-- ===== src/BTree/Tree/Updates.antt =====
-- src/btree/mod.rs: calls that change one node of the tree, as the frames of the page cache show it.
use dbstorage.Base.{◌+◌, ◌≤◌, ◌≡◌, some, get_elem?, All, ok}
use dbstorage.Bytes.Signed.{IsI32}
use dbstorage.Page.{PageId, PageInner, page_size}
use dbstorage.Disk.{Disk}
use dbstorage.HashMap.{lookup, int_key}
use dbstorage.Storable.{Storable}
use dbstorage.Replacer.Nodes.{FrameId}
use dbstorage.PageCache.Views
use dbstorage.PageCache.{PageCache}
use dbstorage.PageCache.Consistency.{IsConsistent}
use dbstorage.BTree.Order.{Keys}
use dbstorage.BTree.Node.{Node}
use dbstorage.BTree.Node.Image.{values_start, KeyCodec, from_page}
use dbstorage.BTree.Node.Written.{Readable, total_size}
use dbstorage.BTree.Node.RoundTrip.{from_page-to_page_node}
use dbstorage.BTree.Tree.Changes.{write_node}
use dbstorage.BTree.Tree.Writing.{write_node-at}

-- A node that fits in a page, whose pointers are `i32`s and whose entries are read back from their bytes.
pub record IsWritable {T V : Type 0} (codec : KeyCodec T) (vs : Storable V) (n : Node T V)
    : Type 0 where
  pub readable : All (Readable codec vs) n.values
  pub fits : values_start + total_size codec vs n.values ≤ page_size
  pub next_ok : IsI32 n.next
  pub id_ok : IsI32 n.id

module _ {D T V : Type 0} (disk : Disk D) (keys : Keys T) (codec : KeyCodec T)
    (vs : Storable V) where
  abbrev pub Updated : PageCache D → PageCache D → PageId → Node T V → Type 0
  Updated = Views.Updated disk (from_page codec vs)

  abbrev pub Frame : PageCache D → PageId → Node T V → Type 0
  Frame = Views.Frame disk (from_page codec vs)

  -- A node that can be written is written through a pin that is held.
  pub write_node-Updated :
      (s : PageCache D) (id : PageId) (i : FrameId) (p : PageInner) (node : Node T V)
      → IsConsistent disk s
      → lookup id s.page_table ≡ some i
      → get_elem? s.pages i ≡ some p
      → p.id ≡ id
      → IsWritable codec vs node
      → (s' : PageCache D) × (write_node disk keys codec vs (record { i = i; id = id }) node s
          ≡ (ok tt, s'))
        × Updated s s' id node
  write_node-Updated s id i p node v framed held name w =
      let (image, wrote, size, back) =
        from_page-to_page_node codec vs node w.readable w.fits w.next_ok w.id_ok in
      (
        Views.written disk s i p image,
        write_node-at disk keys codec vs s (record { i = i; id = id }) p node image held wrote,
        Views.written-Updated disk (from_page codec vs) s id i p node v framed held name image size
            back,
      )
