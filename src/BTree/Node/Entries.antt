-- ===== src/BTree/Node/Entries.antt =====
-- The loops over the entries of a node.
use dbstorage.Base.{
  ℕ, zero, suc, Bool, true, false, Option, some, none, List, [], ◌∷◌, if◌then◌else◌, get_elem?,
}
use dbstorage.BTree.Order.{Keys}
use dbstorage.BTree.Slot.{Slot}

-- Where the loop of `insert` and `replace` stops: at an entry with the key, or before the first
-- greater one (the end, if there is none).
pub data Place : Type 0 where
  duplicate : ℕ → Place
  before : ℕ → Place

-- One entry further on.
abbrev pub shift : Place → Place
shift (duplicate i) = duplicate (suc i)
shift (before i) = before (suc i)

unfoldable pub scan : {T V : Type 0} → Keys T → T → List (Slot T V) → Place
scan keys key [] = before 0
scan keys key (s ∷ rest) =
    if keys.eq s.key key
    then duplicate 0
    else if keys.lt key s.key
    then before 0
    else shift (scan keys key rest)

module _ {A : Type 0} where
  -- `iter().find(test)`
  unfoldable pub find_by : (A → Bool) → List A → Option A
  find_by test [] = none
  find_by test (a ∷ rest) = if test a then some a else find_by test rest

  -- `Vec::insert`
  unfoldable pub insert_at : ℕ → A → List A → List A
  insert_at zero a xs = a ∷ xs
  insert_at (suc i) a [] = a ∷ []
  insert_at (suc i) a (x ∷ xs) = x ∷ insert_at i a xs

  unfoldable pub nth : List A → ℕ → Option A
  nth = get_elem?

  unfoldable pub drop_last : List A → List A
  drop_last [] = []
  drop_last (x ∷ []) = []
  drop_last (x ∷ y ∷ xs) = x ∷ drop_last (y ∷ xs)

  -- The first entry that passes the test is removed.
  unfoldable pub remove_first : (A → Bool) → List A → List A × Bool
  remove_first test [] = ([], false)
  remove_first test (a ∷ rest) =
      if test a
      then (rest, true)
      else (let (rest', found) = remove_first test rest in (a ∷ rest', found))
