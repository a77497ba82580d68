-- ===== src/Tests.antt =====
-- The theorems at concrete inputs.
mod Caching
mod Replacing
mod Bits
mod Tuples
mod Buckets
mod Directories
mod Trees
mod Records
mod Lookups
mod Pages
mod Lists
mod Changes
mod Catalogs
mod FreeLists
