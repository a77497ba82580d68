-- ===== src/BTree/Node/Removing.antt =====
-- src/btree/node.rs: what `remove` leaves of a node's entries.
use mathlib.Core.Bool.{true≢false}
use dbstorage.Base.{
  ◌≤◌, ◌≡◌, refl, sym, ap, ◌∙◌, subst, inl, inr, Bool, true, false, Option, some, none, List, [],
  ◌∷◌, All, Bool-cases, arith,
}
use dbstorage.Storable.{Storable}
use dbstorage.BTree.Order.{Keys, IsOrder}
use dbstorage.BTree.Slot.{Slot}
use dbstorage.BTree.Node.{Node, get, remove}
use dbstorage.BTree.Node.Entries.{remove_first, find_by}
use dbstorage.BTree.Node.Image.{KeyCodec}
use dbstorage.BTree.Node.Laws.{IsSorted, absent}
use dbstorage.BTree.Node.Written.{total_size}

module _ {A : Type 0} (test : A → Bool) (a : A) (rest : List A) where
  remove_first_yes : test a ≡ true → remove_first test (a ∷ rest) ≡ (rest, true)
  unfolding remove_first
  remove_first_yes e = rw e refl

  remove_first_no :
      test a ≡ false
      → remove_first test (a ∷ rest) ≡ (a ∷ (remove_first test rest).0, (remove_first test rest).1)
  unfolding remove_first
  remove_first_no e = rw e refl

  find_by_yes : test a ≡ true → find_by test (a ∷ rest) ≡ some a
  unfolding find_by
  find_by_yes e = rw e refl

  find_by_no : test a ≡ false → find_by test (a ∷ rest) ≡ find_by test rest
  unfolding find_by
  find_by_no e = rw e refl

-- Whether there is one.
abbrev pub is_some {ℓ} : {A : Type ℓ} → Option A → Bool
is_some none = false
is_some (some _) = true

module _ {T V : Type 0} (keys : Keys T) (key : T) where
  abbrev mine : Slot T V → Bool
  mine s = keys.eq s.key key

  abbrev without : List (Slot T V) → List (Slot T V)
  without xs = (remove_first mine xs).0

  without_yes :
      (x : Slot T V) (xs : List (Slot T V)) → keys.eq x.key key ≡ true → without (x ∷ xs) ≡ xs
  without_yes x xs e = ap (λ r. r.0) (remove_first_yes mine x xs e)

  without_no :
      (x : Slot T V) (xs : List (Slot T V))
      → keys.eq x.key key ≡ false
      → without (x ∷ xs) ≡ x ∷ without xs
  without_no x xs e = ap (λ r. r.0) (remove_first_no mine x xs e)

  All-without : (P : Slot T V → Type 0) (xs : List (Slot T V)) → All P xs → All P (without xs)
  All-without P [] h = (unfold remove_first in tt)
  All-without P (x ∷ xs) h = elim (Bool-cases (keys.eq x.key key)) [
    | inl e ↦ subst (λ r. All P r.0) (sym (remove_first_yes mine x xs e)) h.1
    | inr e ↦ subst (λ r. All P r.0) (sym (remove_first_no mine x xs e)) (h.0, All-without P xs h.1)
  ]

  total_size-without :
      (codec : KeyCodec T) (vs : Storable V) (xs : List (Slot T V))
      → total_size codec vs (without xs) ≤ total_size codec vs xs
  total_size-without codec vs [] = (unfold remove_first in omega arith)
  total_size-without codec vs (x ∷ xs) = elim (Bool-cases (keys.eq x.key key)) [
    | inl e ↦
        subst (λ r. total_size codec vs r.0 ≤ total_size codec vs (x ∷ xs))
          (sym (remove_first_yes mine x xs e)) (omega arith)
    | inr e ↦
        subst (λ r. total_size codec vs r.0 ≤ total_size codec vs (x ∷ xs))
          (sym (remove_first_no mine x xs e)) (omega (arith, total_size-without codec vs xs))
  ]

  module _ (law : IsOrder keys) where
    -- No entry has the key once the one that is there is gone.
    find_by-without_self :
        (xs : List (Slot T V)) → IsSorted keys xs → find_by mine (without xs) ≡ none
    unfolding IsSorted
    find_by-without_self [] h = (unfold remove_first find_by in refl)
    find_by-without_self (x ∷ xs) h = elim (Bool-cases (keys.eq x.key key)) [
      | inl e ↦ rw (without_yes x xs e) (
          absent keys law key xs
            (subst (λ k. All (λ r. keys.lt k r.key ≡ true) xs) ((law.eq_iff x.key key).0 e) h.0))
      | inr e ↦
          rw (without_no x xs e) (find_by_no mine x (without xs) e ∙ find_by-without_self xs h.1)
    ]

    find_by-without_ne :
        (k : T) (xs : List (Slot T V))
        → keys.eq key k ≡ false
        → find_by (λ s. keys.eq s.key k) (without xs) ≡ find_by (λ s. keys.eq s.key k) xs
    find_by-without_ne k [] other = (unfold remove_first in refl)
    find_by-without_ne k (x ∷ xs) other = elim (Bool-cases (keys.eq x.key key)) [
      | inl e ↦
          let miss : keys.eq x.key k ≡ false =
            ap (λ y. keys.eq y k) ((law.eq_iff x.key key).0 e) ∙ other in
          rw (without_yes x xs e) (sym (find_by_no (λ s. keys.eq s.key k) x xs miss))
      | inr e ↦ rw (without_no x xs e) (elim (Bool-cases (keys.eq x.key k)) [
        | inl q ↦
            find_by_yes (λ s. keys.eq s.key k) x (without xs) q
            ∙ sym (find_by_yes (λ s. keys.eq s.key k) x xs q)
        | inr q ↦
            find_by_no (λ s. keys.eq s.key k) x (without xs) q
            ∙ find_by-without_ne k xs other
            ∙ sym (find_by_no (λ s. keys.eq s.key k) x xs q)
      ])
    ]

  -- Whether an entry was removed.
  removed-found : (xs : List (Slot T V)) → (remove_first mine xs).1 ≡ is_some (find_by mine xs)
  removed-found [] = (unfold remove_first find_by in refl)
  removed-found (x ∷ xs) = elim (Bool-cases (keys.eq x.key key)) [
    | inl e ↦ rw (remove_first_yes mine x xs e, find_by_yes mine x xs e) refl
    | inr e ↦ rw (remove_first_no mine x xs e, find_by_no mine x xs e) (removed-found xs)
  ]

  without_none : (xs : List (Slot T V)) → (remove_first mine xs).1 ≡ false → without xs ≡ xs
  without_none [] h = (unfold remove_first in refl)
  without_none (x ∷ xs) h = elim (Bool-cases (keys.eq x.key key)) [
    | inl e ↦ absurd (true≢false (ap (λ r. r.1) (sym (remove_first_yes mine x xs e)) ∙ h))
    | inr e ↦
        without_no x xs e
        ∙ ap (◌∷◌ x) (without_none xs (ap (λ r. r.1) (sym (remove_first_no mine x xs e)) ∙ h))
  ]

  -- In a node whose keys ascend, under a total order, `remove` answers whether the key was there; the key is then
  -- not found, and every other key as before.
  pub remove-Removed :
      (law : IsOrder keys) (n : Node T V)
      → IsSorted keys n.values
      → ((remove keys key n).1 ≡ is_some (get keys n key))
        × (get keys (remove keys key n).0 key ≡ none)
        × ((k : T) → keys.eq key k ≡ false → get keys (remove keys key n).0 k ≡ get keys n k)
  unfolding remove get
  remove-Removed law n sorted = (
    removed-found n.values,
    find_by-without_self law n.values sorted,
    λ k other. find_by-without_ne law k n.values other,
  )

  -- The other fields stay, and so do the other entries.
  pub remove_fields :
      (n : Node T V)
      → ((remove keys key n).0.t ≡ n.t)
        × ((remove keys key n).0.next ≡ n.next)
        × ((remove keys key n).0.id ≡ n.id)
  unfolding remove
  remove_fields n = (refl, refl, refl)

  pub remove_none : (n : Node T V) → (remove keys key n).1 ≡ false → (remove keys key n).0 ≡ n
  unfolding remove
  remove_none n h = ap (λ l. record n { values = l }) (without_none n.values h)

  pub remove-All :
      (P : Slot T V → Type 0) (n : Node T V) → All P n.values → All P (remove keys key n).0.values
  unfolding remove
  remove-All P n h = All-without P n.values h

  pub remove-total_size :
      (codec : KeyCodec T) (vs : Storable V) (n : Node T V)
      → total_size codec vs (remove keys key n).0.values ≤ total_size codec vs n.values
  unfolding remove
  remove-total_size codec vs n = total_size-without codec vs n.values
