-- ===== src/Tests/Pages.antt =====
-- A tree of two pages, a root and a leaf with the keys 3 and 7, in a page cache over a disk in memory.
use dbstorage.Base.{
  false, ◌<◌, ◌^◌, arith, range-append_middle, ℕ, ◌*◌, ◌≡◌, refl, true, false, some, [], ◌∷◌, ◌++◌,
  List, Option, ok, replicate, range, slice,
}
use dbstorage.Base.Panic.{◌>>=◌}
use dbstorage.Bytes.Words.{
  to_be_bytes, from_be_bytes, length-to_be_bytes, from_be_bytes-to_be_bytes,
}
use dbstorage.Bytes.Signed.{negsuc, pos, i32_of_bits}
use dbstorage.Page.{PageId, PageBuf, page_size, zeroed, default_page}
use dbstorage.Disk.{Memory, memory, read_memory, offset_of}
use dbstorage.Disk.MemoryLaws.{memory-IsLawful}
use dbstorage.HashMap.{lookup, insert, remove, int_key}
use dbstorage.Storable.{unsigned, read_word, read_i32, i32}
use dbstorage.Replacer
use dbstorage.PageCache.{
  PageCache, Pin, new, fetch_page, try_get_page, load, fetch_from, pick_frame, pick_from, page_at,
  found_page, take_over, install, write_back, remap, read_in, fill,
}
use dbstorage.PageCache.Consistency.{IsConsistent}
use dbstorage.PageCache.Initial.{new-IsConsistent}
use dbstorage.PageCache.Access.{fetch_page-read_pin}
use dbstorage.PageCache.FreeFrames.{pop, default_free, range_from}
use dbstorage.BTree.Slot.{Slot, value, pointer, either_from, either_split, either_of}
use dbstorage.BTree.Node.{almost_full, Node, internal, leaf, node_type_from}
use dbstorage.BTree.Node.Image.{KeyCodec, from_page, read_slots}
use dbstorage.BTree.Tree.{BTree}
use dbstorage.Storable.Laws.{unsigned-IsLawful}
use dbstorage.BTree.Slot.Laws.{either_from-value}
use dbstorage.BTree.Node.Written.{Readable}
use dbstorage.BTree.Node.Laws.{IsSorted}
use dbstorage.BTree.Tree.Search.{Holds}
use dbstorage.BTree.Tree.Lookup.{frame_node}
use dbstorage.BTree.Tree.Fetching.{page_node}
use dbstorage.Tests.Trees.{numbers}

-- A key is a word of four bytes.
abbrev pub words : KeyCodec ℕ
words = record {
  bytes = to_be_bytes 4;
  read = λ buf. range buf 0 4 >>= λ b. some (from_be_bytes b);
}

abbrev pub padded : List ℕ → ℕ → PageBuf
padded bytes n = bytes ++ replicate n 0

abbrev pub root_image : PageBuf
root_image =
    padded
      (1 ∷ 1 ∷ 0 ∷ 0 ∷ 0 ∷ 1 ∷ 255 ∷ 255 ∷ 255 ∷ 255 ∷ 0 ∷ 0 ∷ 0 ∷ 0 ∷ 0 ∷ 0 ∷ 0 ∷ 8 ∷ 1 ∷ 0 ∷ 0 ∷ 0
        ∷ 1 ∷ [])
      4073

abbrev pub leaf_image : PageBuf
leaf_image =
    padded
      (2 ∷ 0 ∷ 0 ∷ 0 ∷ 0 ∷ 2 ∷ 255 ∷ 255 ∷ 255 ∷ 255 ∷ 0 ∷ 0 ∷ 0 ∷ 1 ∷ 0 ∷ 0 ∷ 0 ∷ 3 ∷ 0 ∷ 0 ∷ 0 ∷ 0
        ∷ 30 ∷ 0 ∷ 0 ∷ 0 ∷ 7 ∷ 0 ∷ 0 ∷ 0 ∷ 0 ∷ 70 ∷ [])
      4064

abbrev pub entry : ℕ → Slot ℕ ℕ
entry k = record { key = k; either = value (k * 10) }

abbrev pub root_node : Node ℕ ℕ
root_node = record {
  t = internal;
  is_root = true;
  next = negsuc 0;
  id = pos 0;
  values = record { key = 8; either = pointer (pos 1) } ∷ [];
}

abbrev pub leaf_node : Node ℕ ℕ
leaf_node = record {
  t = leaf;
  is_root = false;
  next = negsuc 0;
  id = pos 1;
  values = entry 3 ∷ entry 7 ∷ [];
}

pub root_read : from_page words (unsigned 4) root_image ≡ some root_node
unfolding from_page node_type_from read_slots either_from either_split either_of unsigned read_word
    read_i32 i32 range slice from_be_bytes i32_of_bits to_be_bytes
root_read = refl

pub leaf_read : from_page words (unsigned 4) leaf_image ≡ some leaf_node
unfolding from_page node_type_from read_slots either_from either_split either_of unsigned read_word
    read_i32 i32 range slice from_be_bytes i32_of_bits to_be_bytes
leaf_read = refl

abbrev pub two_pages : Memory
two_pages = record { buf = root_image ++ leaf_image; size = 2 * page_size }

abbrev pub start : PageCache Memory
start = new two_pages (Replacer.new 2) (pos 2)

pub start-IsConsistent : IsConsistent memory start
start-IsConsistent = (new-IsConsistent memory two_pages (Replacer.new 2) (pos 2) (pos 0)).0

-- The cache once both pages were fetched.
pub one : PageCache Memory
one = (fetch_page memory (pos 0) start).1

pub both : PageCache Memory
both = (fetch_page memory (pos 1) one).1

abbrev pub root_pin : Pin
root_pin = record { i = 63; id = pos 0 }

abbrev pub leaf_pin : Pin
leaf_pin = record { i = 62; id = pos 1 }

pub fetches_root : fetch_page memory (pos 0) start ≡ (ok root_pin, one)
unfolding one fetch_page fetch_from try_get_page pick_frame pick_from pop load page_at found_page
    take_over install write_back remap read_in fill new default_free range_from default_page memory
    read_memory offset_of range slice insert remove lookup zeroed
fetches_root = refl

pub fetches_leaf : fetch_page memory (pos 1) one ≡ (ok leaf_pin, both)
unfolding one both fetch_page fetch_from try_get_page pick_frame pick_from pop load page_at
    found_page take_over install write_back remap read_in fill new default_free range_from
    default_page memory read_memory offset_of range slice insert remove lookup zeroed
fetches_leaf = refl

pub one-IsConsistent : IsConsistent memory one
one-IsConsistent =
    (fetch_page-read_pin memory memory-IsLawful start (pos 0) start-IsConsistent (λ h. cc)
      fetches_root).3

pub both-IsConsistent : IsConsistent memory both
both-IsConsistent =
    (fetch_page-read_pin memory memory-IsLawful one (pos 1) one-IsConsistent (λ h. cc)
      fetches_leaf).3

-- The frames hold the two nodes.
pub framed :
    (frame_node memory numbers words (unsigned 4) both (pos 0) ≡ some root_node)
    × (frame_node memory numbers words (unsigned 4) both (pos 1) ≡ some leaf_node)
unfolding both one fetch_page fetch_from try_get_page pick_frame pick_from pop load page_at
    found_page take_over install write_back remap read_in fill new default_free range_from
    default_page memory read_memory offset_of range slice insert remove lookup zeroed
framed = (root_read, leaf_read)

-- The cache shows them.
pub shown :
    (page_node memory numbers words (unsigned 4) both (pos 0) ≡ some root_node)
    × (page_node memory numbers words (unsigned 4) both (pos 1) ≡ some leaf_node)
unfolding both one fetch_page fetch_from try_get_page pick_frame pick_from pop load page_at
    found_page take_over install write_back remap read_in fill new default_free range_from
    default_page memory read_memory offset_of range slice insert remove lookup zeroed
shown = (root_read, leaf_read)

abbrev pub entries : List (Slot ℕ ℕ)
entries = entry 3 ∷ entry 7 ∷ []

abbrev pub index : BTree
index = record { root = pos 0 }

pub held :
    (nodes : PageId → Option (Node ℕ ℕ))
    → (nodes (pos 0) ≡ some root_node) × (nodes (pos 1) ≡ some leaf_node)
    → Holds numbers nodes 1 (pos 0) entries
held nodes (at_root, at_leaf) = (
  root_node,
  at_root,
  refl,
  refl,
  (pos 1, entries, [], refl, refl, (leaf_node, at_leaf, refl, refl), (refl, (refl, tt)), tt, refl),
)

pub words_read :
    (k : ℕ) → k < 2 ^ 32 → (rest : List ℕ) → words.read (to_be_bytes 4 k ++ rest) ≡ some k
words_read k small rest =
    let size = length-to_be_bytes 4 k in
    rw
      (
        range-append_middle [] (to_be_bytes 4 k) rest 0 4 refl (omega arith),
        from_be_bytes-to_be_bytes 4 k (omega arith),
      )
      refl

pub readable : (k : ℕ) → k < 100 → Readable words (unsigned 4) (entry k)
readable k small = (
  either_from-value (unsigned 4) (k * 10) (unsigned-IsLawful 4) (omega arith),
  words_read k (omega arith),
)

abbrev pub single : BTree
single = record { root = pos 1 }

pub leaf_node-IsSorted : IsSorted numbers entries
unfolding IsSorted
leaf_node-IsSorted = ((refl, tt), (tt, tt))

pub leaf_node_room : almost_full numbers leaf_node ≡ false
unfolding almost_full
leaf_node_room = refl
