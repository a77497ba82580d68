-- ===== src/Table.antt =====
-- src/table: tuples on pages.
pub mod Slot
pub mod Node
pub mod TupleList
pub mod Value
pub mod Builder
pub mod Tuples
