-- ===== src/Lib.antt =====
-- dbstorage: the storage layer of a database. A page cache keeps pages of a disk in memory frames;
-- tables, a hash table and a B+ tree store their nodes in such pages.
--
-- Which file models which code (paths from the repository's root):
--   Bitmap           src/bitmap.rs: a bit map over an array of bytes
--   Bytes, Storable  src/storable.rs: integers as big-endian bytes, the trait `Storable`
--   Page             src/page.rs: the content of a frame
--   Disk             src/disk.rs: the trait `Disk` as a record of operations with laws (`IsLawful`), and
--                    `Memory`, which keeps them (Disk/MemoryLaws)
--   Replacer         src/replacer.rs: the LRU-K replacer, its nodes in Replacer/Nodes, the loops
--                    of `evict` in Replacer/Candidacy and what it picks in Replacer/Eviction, the
--                    invariant in Replacer/Invariant
--   PageCache        src/page_cache.rs: the cache, its free list in PageCache/FreeFrames, the steps of
--                    any number of threads on it in PageCache/FreeFrames/Interleaving (Bounds: the
--                    accesses to the array; Draining: threads that only pop). What a caller sees of a page
--                    and the invariant are in PageCache/Consistency, what the frames show and how a
--                    write changes it in PageCache/Views; PageCache/Load,
--                    Picks, Calls, Replace, Access, Progress and Flush prove what the calls do with it, and
--                    PageCache/Scopes has what clients do with a pin
--   HashTable        src/hash_table/dir_page.rs (Directory), src/hash_table/bucket_page.rs and src/pair.rs
--                    (Bucket), src/hash_table/extendible.rs over the page cache (Extendible)
--   Catalog          src/catalog.rs: types, columns and schemas (Schema), tables and indexes by name
--                    (Tables; Indexes: `create_index`)
--   Table            src/table/tuple.rs (Slot: record ids, slots; Value: the values of columns; Builder:
--                    `TupleBuilder`; Tuples: `Tuple` and `Comparand`, which Tuples/Keys gives to the tree
--                    and whose order Tuples/KeyOrder is about), src/table/node.rs (Node, its page in
--                    Node/RoundTrip) and src/table/list.rs over the page cache (TupleList)
--   BTree            src/btree/slot.rs (Slot) and src/btree/node.rs (Node, its page in Node/Image, its
--                    `PartialEq` in Node/Equality), over the order of the keys (Order), and
--                    src/btree/mod.rs over the page cache (Tree: the calls that read; Tree/Changes:
--                    `insert` and `delete`). Tree/Search is the reference for a lookup, Tree/Lookup and
--                    Tree/Fetching compare `get` with it; Tree/Scan is about `scan`, Tree/Route about the
--                    way of a key and what a changed leaf changes, Tree/Descent and Tree/Insertion about
--                    `insert`, Tree/Removal about `delete`, Tree/Between, LeafChain and Range about `range`
-- Base holds lists, ranges of buffers, Boolean tests and comparisons; HashMap stands for the `HashMap` of the
-- standard library, as a list of entries.
--
-- How the parts meet: `PageCache` takes a `Disk` as a parameter and owns a `LrukReplacer` and a
-- `FreeList`. Its calls pass the whole state, and a call that fails returns the state it leaves.
-- Directory, Table.Node and BTree.Node are read from a page and written to it. `Storable` and `Keys`
-- are interfaces that the tree's entries and nodes take as arguments; so is `KeyCodec`, the bytes of a
-- key, which `tuple_codec` fills with the tuples of a schema. What the code uses of the standard
-- library's text is the record `Utf8`, and `DefaultHasher` is a function that the hash table takes.
--
-- Conventions. A byte is a natural number below 256 and a buffer is a list of them. A counter of the
-- source is a natural number with its wrap-around written out, as in a release build. `none` is a
-- panic: an index or a range out of bounds, a failed assertion, a conversion that is unwrapped. In
-- the table node it is also an access outside the page, through the raw pointer to it. Loops are structural recursion on the lists they walk or on their counter, so no
-- fuel is needed; the tree's calls from page to page take fuel, the pages they may visit. Without fuel
-- they panic, as the source does when its stack is full; one more than the tree's height is enough for
-- a lookup, an insertion along a path with room and a deletion, and the pages on its way for a scan.
--
-- Not modelled: the locks (the calls run one at a time, but for the free list, whose atomic steps are
-- those of PageCache/FreeFrames/Interleaving) and the files behind `FileSystem` (another value of the
-- `Disk` interface). `Comparand` may panic on bytes that are no tuple of its schema; the order
-- interface of the tree has no panic, and there Table/Tuples/Keys answers no. The catalog's loop over a
-- table's tuples takes fuel too, how many tuples there may be.
pub mod Base
pub mod Bytes
pub mod Bitmap
pub mod Storable
pub mod Page
pub mod Disk
pub mod HashMap
pub mod Replacer
pub mod PageCache
pub mod HashTable
pub mod Table
pub mod BTree
pub mod Catalog
mod Tests
