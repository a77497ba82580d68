-- ===== src/BTree/Tree/Between.antt =====
-- src/btree/mod.rs: the entries of a leaf that `_range` takes, and those between two keys.
use mathlib.Core.Bool.{true≢false}
use dbstorage.Base.{
  ◌≡◌, ◌≢◌, refl, sym, ap, ◌∙◌, inl, inr, Bool, true, false, not, Bool-cases, List, [], ◌∷◌, ◌++◌,
  if◌then◌else◌, All, All-append_right, All-append_left,
}
use dbstorage.BTree.Order.{Keys, IsOrder}
use dbstorage.BTree.Slot.{Slot}
use dbstorage.BTree.Node.Laws.{IsSorted}
use dbstorage.BTree.Tree.{skip_while, take_while, entries_between}

module _ {A : Type 0} (test : A → Bool) (x : A) (xs : List A) where
  take_while_yes : test x ≡ true → take_while test (x ∷ xs) ≡ x ∷ take_while test xs
  unfolding take_while
  take_while_yes e = ap (λ b. if b then x ∷ take_while test xs else []) e

  take_while_no : test x ≡ false → take_while test (x ∷ xs) ≡ []
  unfolding take_while
  take_while_no e = ap (λ b. if b then x ∷ take_while test xs else []) e

  skip_while_yes : test x ≡ true → skip_while test (x ∷ xs) ≡ skip_while test xs
  unfolding skip_while
  skip_while_yes e = ap (λ b. if b then skip_while test xs else x ∷ xs) e

  skip_while_no : test x ≡ false → skip_while test (x ∷ xs) ≡ x ∷ xs
  unfolding skip_while
  skip_while_no e = ap (λ b. if b then skip_while test xs else x ∷ xs) e

module _ {T : Type 0} (keys : Keys T) (from to : T) where
  -- The key is neither less than the first bound nor greater than the second.
  abbrev pub is_between : T → Bool
  is_between k = if keys.lt k from then false else not (keys.lt to k)

  is_between_low : (k : T) → keys.lt k from ≡ true → is_between k ≡ false
  is_between_low k e = rw e refl

  is_between_high : (k : T) → keys.lt to k ≡ true → is_between k ≡ false
  is_between_high k e = elim (Bool-cases (keys.lt k from)) [
    | inl q ↦ rw q refl
    | inr q ↦ rw (q, e) refl
  ]

  is_between_in : (k : T) → keys.lt k from ≡ false → keys.lt to k ≡ false → is_between k ≡ true
  is_between_in k e q = rw (e, q) refl

  from_is_between : (k : T) → is_between k ≡ true → keys.lt k from ≡ false
  from_is_between k h = elim (Bool-cases (keys.lt k from)) [
    | inl e ↦ absurd (true≢false (sym h ∙ is_between_low k e))
    | inr e ↦ e
  ]

module _ {T V : Type 0} (keys : Keys T) where
  pub Sorted-right : (xs ys : List (Slot T V)) → IsSorted keys (xs ++ ys) → IsSorted keys ys
  unfolding IsSorted
  Sorted-right [] ys h = h
  Sorted-right (x ∷ xs) ys h = Sorted-right xs ys h.1

  pub Sorted-left : (xs ys : List (Slot T V)) → IsSorted keys (xs ++ ys) → IsSorted keys xs
  unfolding IsSorted
  Sorted-left [] ys h = tt
  Sorted-left (x ∷ xs) ys h =
      (All-append_left (λ r. keys.lt x.key r.key ≡ true) xs ys h.0, Sorted-left xs ys h.1)

module _ {T V : Type 0} (keys : Keys T) (from to : T) where
  -- The entries whose keys lie between, wherever they stand.
  abbrev pub between : List (Slot T V) → List (Slot T V)
  between [] = []
  between (s ∷ rest) =
      let more = between rest in if is_between keys from to s.key then s ∷ more else more

  between_yes :
      (x : Slot T V) (xs : List (Slot T V))
      → is_between keys from to x.key ≡ true
      → between (x ∷ xs) ≡ x ∷ between xs
  between_yes x xs e = ap (λ b. if b then x ∷ between xs else between xs) e

  between_no :
      (x : Slot T V) (xs : List (Slot T V))
      → is_between keys from to x.key ≡ false
      → between (x ∷ xs) ≡ between xs
  between_no x xs e = ap (λ b. if b then x ∷ between xs else between xs) e

  pub between-append : (xs ys : List (Slot T V)) → between (xs ++ ys) ≡ between xs ++ between ys
  between-append [] ys = refl
  between-append (x ∷ xs) ys = elim (Bool-cases (is_between keys from to x.key)) [
    | inl e ↦
        between_yes x (xs ++ ys) e
        ∙ ap (◌∷◌ x) (between-append xs ys)
        ∙ ap (λ l. l ++ between ys) (sym (between_yes x xs e))
    | inr e ↦
        between_no x (xs ++ ys) e
        ∙ between-append xs ys
        ∙ ap (λ l. l ++ between ys) (sym (between_no x xs e))
  ]

  AtLeast : List (Slot T V) → Type 0
  AtLeast xs = All (λ s. keys.lt s.key from ≡ false) xs

  Beyond : List (Slot T V) → Type 0
  Beyond xs = All (λ s. keys.lt to s.key ≡ true) xs

  between_high : (xs : List (Slot T V)) → Beyond xs → between xs ≡ []
  unfolding Beyond
  between_high [] h = refl
  between_high (x ∷ xs) h =
      between_no x xs (is_between_high keys from to x.key h.0) ∙ between_high xs h.1

  module _ (law : IsOrder keys) where
    high_after :
        (k : T) (xs : List (Slot T V))
        → keys.lt to k ≡ true
        → All (λ r. keys.lt k r.key ≡ true) xs
        → Beyond xs
    unfolding Beyond
    high_after k [] e h = tt
    high_after k (x ∷ xs) e h = (law.trans to k x.key e h.0, high_after k xs e h.1)

    low_after :
        (k : T) (xs : List (Slot T V))
        → keys.lt k from ≡ false
        → All (λ r. keys.lt k r.key ≡ true) xs
        → AtLeast xs
    unfolding AtLeast
    low_after k [] e h = tt
    low_after k (x ∷ xs) e h = (
      elim (Bool-cases (keys.lt x.key from)) [
        | inl q ↦ absurd (true≢false (sym (law.trans k x.key from h.0 q) ∙ e))
        | inr q ↦ q
      ],
      low_after k xs e h.1,
    )

    taken :
        (xs : List (Slot T V))
        → IsSorted keys xs
        → AtLeast xs
        → take_while (λ s. not (keys.lt to s.key)) xs ≡ between xs
    unfolding IsSorted AtLeast
    taken [] sorted low = (unfold take_while in refl)
    taken (x ∷ xs) sorted low = elim (Bool-cases (keys.lt to x.key)) [
      | inl e ↦
          take_while_no (λ s. not (keys.lt to s.key)) x xs (ap not e)
          ∙ sym (
              between_no x xs (is_between_high keys from to x.key e)
              ∙ between_high xs (high_after x.key xs e sorted.0))
      | inr e ↦
          take_while_yes (λ s. not (keys.lt to s.key)) x xs (ap not e)
          ∙ ap (◌∷◌ x) (taken xs sorted.1 low.1)
          ∙ sym (between_yes x xs (is_between_in keys from to x.key low.0 e))
    ]

    -- In a leaf whose keys ascend they are the entries that are taken.
    pub entries_between_lem :
        (xs : List (Slot T V)) → IsSorted keys xs → entries_between keys from to xs ≡ between xs
    unfolding entries_between IsSorted AtLeast
    entries_between_lem [] sorted = (unfold take_while skip_while in refl)
    entries_between_lem (x ∷ xs) sorted = elim (Bool-cases (keys.lt x.key from)) [
      | inl e ↦
          ap (take_while (λ s. not (keys.lt to s.key)))
            (skip_while_yes (λ s. keys.lt s.key from) x xs e)
          ∙ entries_between_lem xs sorted.1
          ∙ sym (between_no x xs (is_between_low keys from to x.key e))
      | inr e ↦
          ap (take_while (λ s. not (keys.lt to s.key)))
            (skip_while_no (λ s. keys.lt s.key from) x xs e)
          ∙ taken (x ∷ xs) sorted (e, low_after x.key xs e sorted.0)
    ]

    -- Behind an entry that lies between no key is too small.
    low_behind : (xs ys : List (Slot T V)) → IsSorted keys (xs ++ ys) → between xs ≢ [] → AtLeast ys
    unfolding IsSorted AtLeast
    low_behind [] ys sorted some_in = absurd (some_in refl)
    low_behind (x ∷ xs) ys sorted some_in = elim (Bool-cases (is_between keys from to x.key)) [
      | inl e ↦
          low_after x.key ys (from_is_between keys from to x.key e)
            (All-append_right (λ r. keys.lt x.key r.key ≡ true) xs ys sorted.0)
      | inr e ↦ low_behind xs ys sorted.1 (λ h. some_in (between_no x xs e ∙ h))
    ]

    -- If then the next leaf adds nothing, no later one does.
    pub nothing_more :
        (xs ys zs : List (Slot T V))
        → IsSorted keys (xs ++ (ys ++ zs))
        → between xs ≢ []
        → ys ≢ []
        → between ys ≡ []
        → between (ys ++ zs) ≡ []
    unfolding IsSorted AtLeast
    nothing_more xs [] zs sorted some_in filled h = absurd (filled refl)
    nothing_more xs (y ∷ ys) zs sorted some_in filled h = elim (Bool-cases (keys.lt to y.key)) [
      | inl e ↦
          let behind = (Sorted-right keys xs (y ∷ (ys ++ zs)) sorted).0 in
          between_no y (ys ++ zs) (is_between_high keys from to y.key e)
          ∙ between_high (ys ++ zs) (high_after y.key (ys ++ zs) e behind)
      | inr e ↦
          let low = low_behind xs (y ∷ (ys ++ zs)) sorted some_in in
          absurd (
            nil_cons y (between ys)
              (sym h ∙ between_yes y ys (is_between_in keys from to y.key low.0 e)))
    ]
      where
        nil_cons : (a : Slot T V) (l : List (Slot T V)) → ¬ ([] ≡ a ∷ l)
        nil_cons a l h = cc
