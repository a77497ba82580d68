-- ===== src/HashTable.antt =====
-- src/hash_table: the pages of the extendible hash table.
pub mod Directory
pub mod Bucket
pub mod Extendible
