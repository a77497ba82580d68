-- ===== src/Table/Tuples/Keys.antt =====
-- src/table/tuple.rs: `Comparand(schema, _)` as what the tree uses of its keys.
use Prim.Native.Nat.{Ordering}
use dbstorage.Base.{Bool, true, false, Option, some}
use dbstorage.Catalog.Schema.{Schema}
use dbstorage.Table.Node.{Tuple}
use dbstorage.Table.Value.{Utf8}
use dbstorage.Table.Tuples
use dbstorage.Table.Tuples.{cmp}
use dbstorage.BTree.Order.{Keys}

-- `PartialOrd::lt`, from what `partial_cmp` answers
abbrev pub is_less : Option Ordering → Bool
is_less (some Ordering.lt) = true
is_less _ = false

-- Where `cmp` panics, which needs bytes that are no tuple of the schema, `lt` answers no here.
unfoldable pub comparand : Utf8 → Schema → Keys Tuple
unfolding cmp
comparand text schema = record {
  eq = Tuples.eq;
  lt = λ a b. is_less (cmp text schema a b);
  next = λ t. Tuples.next text t schema;
  schema_size = schema.size;
}
