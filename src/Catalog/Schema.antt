-- ===== src/Catalog/Schema.antt =====
-- src/catalog.rs: column types, columns and schemas.
use Prim.Native.String.{String}
use text.Mathlib.Text.{◌==◌ as str_eq}
use dbstorage.Base.{ℕ, ◌+◌, Bool, false, ◌||◌, List, [], ◌∷◌, if◌then◌else◌, length}

-- `Type`
pub data ColumnType : Type 0 where
  tiny_int bool int big_int varchar : ColumnType

-- `Type::size`: a `varchar` has its offset and its size, two bytes each.
unfoldable pub size_of : ColumnType → ℕ
size_of tiny_int = 1
size_of bool = 1
size_of int = 4
size_of big_int = 8
size_of varchar = 4

pub record Column : Type 0 where
  pub name : String
  pub ty : ColumnType
  pub offset : ℕ

pub record Schema : Type 0 where
  pub columns : List Column
  pub size : ℕ

-- `iter().fold(0, |acc, c| acc + c.size())`
unfoldable pub sum_sizes : ℕ → List Column → ℕ
unfolding size_of
sum_sizes acc [] = acc
sum_sizes acc (c ∷ cs) = sum_sizes (acc + size_of c.ty) cs

-- `Schema::new`
unfoldable pub new : List Column → Schema
unfolding sum_sizes
new columns = record { columns = columns; size = sum_sizes 0 columns }

-- `Schema::empty`
unfoldable pub empty : Schema
empty = record { columns = []; size = 0 }

-- The loop of `Schema::from`: the columns from an offset on, and the offset behind them.
unfoldable pub place_columns : ℕ → List (String × ColumnType) → List Column × ℕ
unfolding size_of
place_columns offset [] = ([], offset)
place_columns offset ((name, ty) ∷ rest) =
    let (columns, end) = place_columns (offset + size_of ty) rest in
    (record { name = name; ty = ty; offset = offset } ∷ columns, end)

-- `Schema::from([(&str, Type); N])`
unfoldable pub from_pairs : List (String × ColumnType) → Schema
unfolding place_columns
from_pairs value =
    let (columns, size) = place_columns 0 value in record { columns = columns; size = size }

unfoldable pub contains : String → List String → Bool
contains name [] = false
contains name (c ∷ cs) = str_eq c name || contains name cs

-- The columns that are named, with the sum of their sizes.
unfoldable pub keep : List String → ℕ → List Column → List Column × ℕ
unfolding contains size_of
keep cols size [] = ([], size)
keep cols size (c ∷ cs) =
    let kept = contains c.name cols in
    let (columns, total) = keep cols (if kept then size + size_of c.ty else size) cs in
    (if kept then c ∷ columns else columns, total)

-- `Schema::filter`: the offsets stay as they are.
unfoldable pub filter : Schema → List String → Schema
unfolding keep
filter s cols =
    let (columns, size) = keep cols 0 s.columns in record { columns = columns; size = size }

unfoldable pub close_up : ℕ → List Column → List Column
unfolding size_of
close_up offset [] = []
close_up offset (c ∷ cs) = record c { offset = offset } ∷ close_up (offset + size_of c.ty) cs

-- `Schema::compact`: the columns follow one another without a gap.
unfoldable pub compact : Schema → Schema
unfolding close_up
compact s = record s { columns = close_up 0 s.columns }

-- `Schema::len`
unfoldable pub schema_len : Schema → ℕ
schema_len s = length s.columns
