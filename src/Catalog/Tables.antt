-- ===== src/Catalog/Tables.antt =====
-- src/catalog.rs: the catalog's tables. What a call leaves is the catalog and the page cache.
use Prim.Native.String.{String}
use text.Mathlib.Text.{◌==◌ as str_eq}
use text.Mathlib.TextEquality.{eq_iff}
use dbstorage.Base.{ℕ, ◌+◌, ◌%◌, ◌^◌, Option, some, none, List, [], map, Outcome, ok, err, panic}
use dbstorage.Base.Panic.{◌>>=◌}
use dbstorage.Page.{PageId}
use dbstorage.Disk.{Disk}
use dbstorage.HashMap.{Eq, nat_key, Entries, lookup, insert}
use dbstorage.PageCache.{PageCache}
use dbstorage.Catalog.Schema.{Schema}
use dbstorage.Table.TupleList.{TupleList, default_list}

instance abbrev pub name_key : Eq String
name_key = record { beq = str_eq; beq_iff = eq_iff }

-- A `u32`.
abbrev pub OId : Type 0
OId = ℕ

pub record TableInfo : Type 0 where
  pub name : String
  pub schema : Schema
  pub oid : OId
  pub table : TupleList

pub record IndexMeta : Type 0 where
  pub name : String
  pub table_name : String
  pub column_ids : List ℕ
  pub schema : Schema

pub data IndexType : Type 0 where
  hash_table btree : IndexType

pub record IndexInfo : Type 0 where
  pub name : String
  pub schema : Schema
  pub oid : OId
  pub index_ty : IndexType
  pub root : PageId

-- `Catalog`, less the cache that it shares.
pub record Catalog : Type 0 where
  pub tables : Entries OId TableInfo
  pub table_names : Entries String OId
  pub next_table_oid : OId
  pub indexes : Entries OId IndexInfo
  pub index_names : Entries String (Entries String OId)
  pub next_index_oid : OId

-- `Catalog::new`
unfoldable pub new : Catalog
new = record {
  tables = [];
  table_names = [];
  next_table_oid = 0;
  indexes = [];
  index_names = [];
  next_index_oid = 0;
}

-- The catalog with a new table in it, its id taken.
unfoldable pub with_table : TableInfo → Catalog → Catalog
with_table info c = record c {
  next_table_oid = (c.next_table_oid + 1) % 2 ^ 32;
  table_names = insert info.name info.oid c.table_names;
  index_names = insert info.name [] c.index_names;
  tables = insert info.oid info c.tables;
}

-- What `create_table` does once the new table has its first page, or has failed to get one: the id is
-- taken in any case.
unfoldable pub table_made :
    {D : Type 0}
    → String
    → Schema
    → Catalog
    → Outcome TupleList × PageCache D
    → Outcome (Option TableInfo) × Catalog × PageCache D
unfolding with_table
table_made name schema c (ok table, s) =
    let c' =
      with_table (record { name = name; schema = schema; oid = c.next_table_oid; table = table })
        c in
    (ok (lookup c.next_table_oid c'.tables), c', s)
table_made name schema c (err e, s) =
    (err e, record c { next_table_oid = (c.next_table_oid + 1) % 2 ^ 32 }, s)
table_made name schema c (panic, s) =
    (panic, record c { next_table_oid = (c.next_table_oid + 1) % 2 ^ 32 }, s)

unfoldable pub create_if_absent :
    {D : Type 0}
    → Disk D
    → Option OId
    → String
    → Schema
    → Catalog
    → PageCache D
    → Outcome (Option TableInfo) × Catalog × PageCache D
unfolding table_made
create_if_absent disk (some oid) name schema c s = (ok none, c, s)
create_if_absent disk none name schema c s = table_made name schema c (default_list disk s)

unfoldable pub create_table :
    {D : Type 0}
    → Disk D
    → String
    → Schema
    → Catalog
    → PageCache D
    → Outcome (Option TableInfo) × Catalog × PageCache D
unfolding create_if_absent
create_table disk name schema c s =
    create_if_absent disk (lookup name c.table_names) name schema c s

unfoldable pub get_table_by_oid : OId → Catalog → Option TableInfo
get_table_by_oid oid c = lookup oid c.tables

unfoldable pub get_table_by_name : String → Catalog → Option TableInfo
get_table_by_name name c = do oid ← lookup name c.table_names; lookup oid c.tables

-- `list_tables`, in the order of the map.
unfoldable pub list_tables : Catalog → List String
list_tables c = map (λ e. e.0) c.table_names

unfoldable pub get_index_by_oid : OId → Catalog → Option IndexInfo
get_index_by_oid oid c = lookup oid c.indexes

unfoldable pub get_index : String → String → Catalog → Option IndexInfo
get_index table_name index_name c = do
  names ← lookup table_name c.index_names
  oid ← lookup index_name names
  lookup oid c.indexes

unfoldable pub list_indexes : Catalog → List IndexInfo
list_indexes c = map (λ e. e.1) c.indexes
