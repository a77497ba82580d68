-- ===== src/Bytes.antt =====
-- The integers of the program and their bytes: `to_be_bytes` and `from_be_bytes` of Rust's
-- standard library at each width, and two's complement for the signed types.
pub mod Words
pub mod Signed
