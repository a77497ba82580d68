-- ===== src/Catalog.antt =====
-- src/catalog.rs: schemas and the catalog of tables and indexes.
pub mod Schema
pub mod Tables
pub mod Indexes
pub mod Registration
