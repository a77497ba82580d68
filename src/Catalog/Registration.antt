-- ===== src/Catalog/Registration.antt =====
-- src/catalog.rs: what `create_table` does to the tables that the catalog finds.
use Prim.Native.String.{String}
use text.Mathlib.Text.{◌==◌ as str_eq}
use dbstorage.Base.{
  ℕ, ◌+◌, ◌<◌, ◌%◌, ◌^◌, ◌≡◌, refl, ap, ◌∙◌, subst, inl, inr, false, Option, some, none, [], ◌∷◌,
  arith, All, if◌then◌else◌, Outcome, ok, ◌==◌, Bool-cases, ne→==,
}
use dbstorage.Base.Panic.{◌>>=◌}
use dbstorage.Disk.{Disk}
use dbstorage.HashMap.{nat_key, Entries, lookup, insert, lookup-insert, insert-All, beq_refl}
use dbstorage.PageCache.{PageCache}
use dbstorage.Catalog.Schema.{Schema}
use dbstorage.Catalog.Tables.{
  name_key, TableInfo, Catalog, with_table, table_made, create_if_absent, create_table,
  get_table_by_name,
}
use dbstorage.Table.TupleList.{TupleList, default_list}

-- Every table's name has an id that was given out.
abbrev pub IsValid : Catalog → Type 0
IsValid c = All (λ e. e.1 < c.next_table_oid) c.table_names

found_below :
    (m : Entries String ℕ) (n : ℕ) (name : String) (oid : ℕ)
    → All (λ (e : String × ℕ). e.1 < n) m
    → lookup name m ≡ some oid
    → oid < n
unfolding lookup
found_below [] n name oid h e = absurd (cc)
found_below ((j, i) ∷ m) n name oid h e = elim (Bool-cases (str_eq j name)) [
  | inl q ↦ let same : i ≡ oid = first (rw q at e) in subst (λ x. x < n) same h.0
  | inr q ↦ found_below m n name oid h.1 (rw q at e)
]
  where
    first : some i ≡ some oid → i ≡ oid
    first q = cc

module _ (c : Catalog) (v : IsValid c) (info : TableInfo) (mine : info.oid ≡ c.next_table_oid)
    (room : c.next_table_oid + 1 < 2 ^ 32) where
  with_table-IsValid : IsValid (with_table info c)
  unfolding with_table
  with_table-IsValid =
      let next : (c.next_table_oid + 1) % 2 ^ 32 ≡ c.next_table_oid + 1 = omega arith in
      insert-All (λ e. e.1 < c.next_table_oid) (λ e. e.1 < (c.next_table_oid + 1) % 2 ^ 32)
        (λ e h. omega arith) info.name info.oid c.table_names (omega arith) v

  get-with_table :
      (name : String)
      → get_table_by_name name (with_table info c)
        ≡ (if str_eq info.name name then some info else get_table_by_name name c)
  unfolding get_table_by_name with_table
  get-with_table name = elim (Bool-cases (str_eq info.name name)) [
    | inl q ↦
        rw
          (
            lookup-insert info.name name info.oid c.table_names,
            q,
            lookup-insert info.oid info.oid info c.tables,
            beq_refl info.oid,
          )
          refl
    | inr q ↦
        rw (lookup-insert info.name name info.oid c.table_names, q)
          (older (lookup name c.table_names) refl)
  ]
    where
      older :
          (o : Option ℕ)
          → lookup name c.table_names ≡ o
          → (o >>= λ oid. lookup oid (insert info.oid info c.tables))
            ≡ (o >>= λ oid. lookup oid c.tables)
      older none e = refl
      older (some oid) e =
          let small = found_below c.table_names c.next_table_oid name oid v e in
          let other : (info.oid == oid) ≡ false = ne→== info.oid oid (λ q. absurd (omega arith)) in
          lookup-insert info.oid oid info c.tables ∙ (rw other refl)

-- What `create_table` does, by the id that the name has already: nothing if there is one, and else the table
-- is there, found by its name, and every other name finds what it did.
pub Registers :
    {D : Type 0}
    → String
    → Schema
    → TupleList
    → Catalog
    → PageCache D
    → PageCache D
    → Outcome (Option TableInfo) × Catalog × PageCache D
    → Option ℕ
    → Type 0
Registers name schema table c s s' result (some oid) = result ≡ (ok none, c, s)
Registers name schema table c s s' result none =
    (info : TableInfo) × (c' : Catalog) × (result ≡ (ok (some info), c', s'))
    × (info.table ≡ table)
    × (info.schema ≡ schema)
    × IsValid c'
    × ((x : String)
        → get_table_by_name x c' ≡ (if str_eq name x then some info else get_table_by_name x c))

-- If ids are left, every table's name has an id that was given out, and a new table can get its first page:
-- a table whose name is new is created, the call answers with it, the catalog then finds it by its name and
-- finds for every other name what it found before, and every name still has an id that was given out. A name
-- that is taken gives no table and changes nothing.
pub create_table-Registers :
    {D : Type 0} (disk : Disk D) (name : String) (schema : Schema) (c : Catalog)
    (s s' : PageCache D) (table : TupleList)
    → IsValid c
    → c.next_table_oid + 1 < 2 ^ 32
    → default_list disk s ≡ (ok table, s')
    → Registers name schema table c s s'
        (create_table disk name schema c s)
        (lookup name c.table_names)
unfolding create_table create_if_absent table_made with_table Registers
create_table-Registers disk name schema c s s' table v room made =
    by_name (lookup name c.table_names)
  where
    info : TableInfo
    info = record { name = name; schema = schema; oid = c.next_table_oid; table = table }

    answer : lookup c.next_table_oid (with_table info c).tables ≡ some info
    answer =
        lookup-insert c.next_table_oid c.next_table_oid info c.tables
        ∙ (rw (beq_refl c.next_table_oid) refl)

    by_name :
        (o : Option ℕ)
        → Registers name schema table c s s' (create_if_absent disk o name schema c s) o
    by_name (some oid) = refl
    by_name none = (
      info,
      with_table info c,
      rw made (ap (λ o. (ok o, with_table info c, s')) answer),
      refl,
      refl,
      with_table-IsValid c v info refl room,
      get-with_table c v info refl room,
    )
