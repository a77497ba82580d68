-- ===== src/Catalog/Indexes.antt =====
-- src/catalog.rs: `create_index`, which fills a new tree with the tuples of a table.
use Prim.Native.String.{String}
use dbstorage.Base.{ℕ, zero, suc, ◌+◌, ◌%◌, ◌^◌, Option, some, none, List, Outcome, ok, err, panic}
use dbstorage.Disk.{Disk}
use dbstorage.HashMap.{nat_key, lookup, insert, update}
use dbstorage.PageCache
use dbstorage.PageCache.{PageCache, Call, ◌>>=◌, ◌>>◌, pure}
use dbstorage.PageCache.Scopes.{lift}
use dbstorage.Catalog.Schema
use dbstorage.Catalog.Schema.{Schema}
use dbstorage.Catalog.Tables.{name_key, IndexType, hash_table, btree, IndexInfo, Catalog}
use dbstorage.Table.Slot.{rid, TupleMeta}
use dbstorage.Table.Node.{Tuple}
use dbstorage.Table.Value.{Utf8}
use dbstorage.Table.Tuples.{from_buf}
use dbstorage.Table.Tuples.Keys.{comparand}
use dbstorage.Table.TupleList
use dbstorage.Table.TupleList.{Iter, next_item}
use dbstorage.BTree.Node.Image.{tuple_codec}
use dbstorage.BTree.Tree
use dbstorage.BTree.Tree.{BTree}
use dbstorage.BTree.Tree.Changes

-- `expect`
abbrev pub expecting : {A : Type 0} → Outcome A → Outcome A
expecting (ok a) = ok a
expecting (err e) = panic
expecting panic = panic

abbrev pub expect : {D A : Type 0} → Call D A → Call D A
expect m s = let (r, s') = m s in (expecting r, s')

-- The insertion of an item of the table under the columns of the index, as a call that gives the tree.
unfoldable pub index_tuple :
    {D : Type 0} → Disk D → Utf8 → Schema → Schema → ℕ → BTree → TupleMeta × Tuple → Call D BTree
unfolding comparand tuple_codec from_buf Changes.insert
index_tuple disk text tuple_schema index_schema depth tree (_, t) = do
  tuple ← lift (from_buf t.content tuple_schema)
  λ s.
      let (r, tree', s') =
        Changes.insert disk (comparand text index_schema) (tuple_codec index_schema) rid depth tuple
          t.rid tree s in
      PageCache.next (expecting r, s') λ _ s'. (ok tree', s')

-- The loop over the table's tuples; the fuel is how many there may be.
unfoldable pub fill_index :
    {D : Type 0} → Disk D → Utf8 → Schema → Schema → ℕ → ℕ → Iter → BTree → Call D BTree
unfolding next_item index_tuple
fill_index disk text tuple_schema index_schema depth zero it tree = λ s. (panic, s)
fill_index disk text tuple_schema index_schema depth (suc fuel) it tree = do
  item ← next_item disk it
  elim item.0 [
    | none ↦ pure tree
    | some result ↦ (do
      t ← λ s. (expecting result, s)
      tree' ← index_tuple disk text tuple_schema index_schema depth tree t
      fill_index disk text tuple_schema index_schema depth fuel item.1 tree')
  ]

-- The index enters the catalog, its id taken.
unfoldable pub with_index : String → String → Schema → BTree → Catalog → Catalog
with_index index_name table_name index_schema tree c =
    let oid = c.next_index_oid in
    record c {
      next_index_oid = (oid + 1) % 2 ^ 32;
      index_names = update table_name (insert index_name oid) c.index_names;
      indexes =
          insert oid
            (record {
              name = index_name;
              schema = index_schema;
              oid = oid;
              index_ty = btree;
              root = tree.root;
            })
            c.indexes;
    }

unfoldable pub index_end :
    {D : Type 0}
    → String
    → String
    → Schema
    → Catalog
    → Outcome BTree × PageCache D
    → Outcome (Option IndexInfo) × Catalog × PageCache D
unfolding with_index
index_end index_name table_name index_schema c (ok tree, s) =
    let c' = with_index index_name table_name index_schema tree c in
    (ok (lookup c.next_index_oid c'.indexes), c', s)
index_end index_name table_name index_schema c (err e, s) = (err e, c, s)
index_end index_name table_name index_schema c (panic, s) = (panic, c, s)

-- The tree of a new index; there is none for a table that has no entry. A table name without an id is a panic.
unfoldable pub build_index :
    {D : Type 0}
    → Disk D
    → Utf8
    → ℕ
    → ℕ
    → String
    → String
    → IndexType
    → Schema
    → Schema
    → Catalog
    → PageCache D
    → Outcome (Option IndexInfo) × Catalog × PageCache D
unfolding fill_index index_end
build_index disk text depth fuel index_name table_name hash_table tuple_schema index_schema c s =
    (panic, c, s)
build_index disk text depth fuel index_name table_name btree tuple_schema index_schema c s =
    elim (lookup table_name c.table_names) [
      | none ↦ (panic, c, s)
      | some oid ↦ elim (lookup oid c.tables) [
        | none ↦ (ok none, c, s)
        | some info ↦ index_end index_name table_name index_schema c (
            (expect (TupleList.iter disk info.table) >>= λ it.
            fill_index disk text tuple_schema index_schema depth fuel it Tree.new)
              s)
      ]
    ]

-- `create_index`. The first test asks for the index's name among the tables, as in the source.
unfoldable pub create_index :
    {D : Type 0}
    → Disk D
    → Utf8
    → ℕ
    → ℕ
    → String
    → String
    → IndexType
    → Schema
    → List String
    → Catalog
    → PageCache D
    → Outcome (Option IndexInfo) × Catalog × PageCache D
unfolding build_index Schema.filter Schema.compact
create_index disk text depth fuel index_name table_name index_ty schema key c s =
    let tuple_schema = Schema.filter schema key in
    elim (lookup index_name c.index_names) [
      | some _ ↦ (ok none, c, s)
      | none ↦ elim (lookup table_name c.index_names) [
        | none ↦ (ok none, c, s)
        | some indexed_table ↦ elim (lookup index_name indexed_table) [
          | some _ ↦ (ok none, c, s)
          | none ↦
              build_index disk text depth fuel index_name table_name index_ty tuple_schema
                (Schema.compact tuple_schema) c s
        ]
      ]
    ]
