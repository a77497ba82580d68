-- ===== src/Tests/Trees.antt =====
-- A leaf with two keys, ordered as the natural numbers.
use dbstorage.Base.{ℕ, suc, ◌+◌, refl, true, some, [], ◌∷◌, arith, ltb, ◌==◌, ==_iff}
use dbstorage.Bytes.Signed.{pos, negsuc}
use dbstorage.BTree.Order.{Keys, IsOrder}
use dbstorage.BTree.Slot.{value, Slot}
use dbstorage.BTree.Node.{Node, leaf, insert, split}
use dbstorage.BTree.Node.Laws.{IsSorted, Inserted, Halves, insert-Inserted, split-Halves}

abbrev pub numbers : Keys ℕ
numbers = record { eq = ◌==◌; lt = ltb; next = λ n. some (suc n); schema_size = 4 }

pub numbers-IsOrder : IsOrder numbers
numbers-IsOrder = record {
  eq_iff = ==_iff;
  irrefl = λ a. ground arith;
  trans = λ a b c h k. ground arith;
  total = λ a b h k. ground arith;
}

abbrev entry : ℕ → Slot ℕ ℕ
entry k = record { key = k; either = value (k + 100) }

abbrev pair : Node ℕ ℕ
pair = record {
  t = leaf;
  is_root = true;
  next = negsuc 0;
  id = pos 0;
  values = entry 2 ∷ entry 5 ∷ [];
}

pair-IsSorted : IsSorted numbers pair.values
unfolding IsSorted
pair-IsSorted = ((refl, tt), (tt, tt))

insert-Inserted_example : Inserted numbers (entry 3) pair (insert numbers (entry 3) pair)
insert-Inserted_example = insert-Inserted numbers (entry 3) pair numbers-IsOrder pair-IsSorted

split-Halves_example : Halves numbers pair (pos 9) (split numbers pair (pos 9))
split-Halves_example = split-Halves numbers pair (pos 9) pair-IsSorted
