-- ===== src/BTree.antt =====
-- src/btree: the B+ tree of an index.
pub mod Order
pub mod Slot
pub mod Node
pub mod Tree
