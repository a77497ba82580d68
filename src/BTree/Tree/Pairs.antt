-- ===== src/BTree/Tree/Pairs.antt =====
-- src/btree/mod.rs: the keys and values that `_scan` and `_range` take of a list of entries.
use mathlib.Core.Option.{some_inj}
use dbstorage.Base.{
  suc, ◌==◌, arith, ◌≡◌, ◌≢◌, refl, sym, ap, ◌∙◌, ◌⊎◌, inl, inr, false, some, List, [], ◌∷◌, ◌++◌,
  length, ne→==,
}
use dbstorage.Base.Panic.{>>=-eq-some}
use dbstorage.HashMap.{int_key}
use dbstorage.BTree.Slot.{Slot, get_value}
use dbstorage.BTree.Tree.{pairs_of}

module _ {T V : Type 0} where
  pub pairs_of_nil : pairs_of {T = T} {V = V} [] ≡ some []
  unfolding pairs_of
  pairs_of_nil = refl

  pub pairs_of-append :
      (xs ys : List (Slot T V)) {ps : List (T × V)}
      → pairs_of (xs ++ ys) ≡ some ps
      → (p : List (T × V)) × (q : List (T × V)) × (pairs_of xs ≡ some p)
        × (pairs_of ys ≡ some q)
        × (ps ≡ p ++ q)
  unfolding pairs_of
  pairs_of-append [] ys {ps} h = ([], ps, refl, h, refl)
  pairs_of-append (x ∷ xs) ys h =
      let (v, got, h₁) = >>=-eq-some (get_value x.either) _ h in
      let (more, rest, h₂) = >>=-eq-some (pairs_of (xs ++ ys)) _ h₁ in
      let (p, q, left, right, e) = pairs_of-append xs ys rest in
      ((x.key, v) ∷ p, q, rw (got, left) refl, right, sym (some_inj.0 h₂) ∙ ap (◌∷◌ (x.key, v)) e)

  pub length-pairs_of :
      (xs : List (Slot T V)) {ps : List (T × V)} → pairs_of xs ≡ some ps → length ps ≡ length xs
  unfolding pairs_of
  length-pairs_of [] h = ap length (sym (some_inj.0 h))
  length-pairs_of (x ∷ xs) h =
      let (v, got, h₁) = >>=-eq-some (get_value x.either) _ h in
      let (more, rest, h₂) = >>=-eq-some (pairs_of xs) _ h₁ in
      let e = length-pairs_of xs rest in ap length (sym (some_inj.0 h₂)) ∙ ap suc e

  pub empty_test : (xs : List (Slot T V)) → xs ≢ [] → (length xs == 0) ≡ false
  empty_test [] h = absurd (h refl)
  empty_test (x ∷ xs) h = ne→== (length (x ∷ xs)) 0 (omega arith)

  pub list_cases : (xs : List (Slot T V)) → (xs ≡ []) ⊎ (xs ≢ [])
  list_cases [] = inl refl
  list_cases (x ∷ xs) = inr (λ h. cc)
