-- ===== src/Base/Comparisons.antt =====
-- Comparisons that are total orders, of values and of lists of them.
use Prim.Native.Nat.{compare, Ordering}
use native.Mathlib.Omega.{compare-lt, compare-eq, compare-gt}
use dbstorage.Base.{ℕ, ◌<◌, ◌≡◌, refl, sym, ap, ◌∙◌, ◌⊎◌, inl, inr, arith}

abbrev pub opposite : Ordering → Ordering
opposite Ordering.lt = Ordering.gt
opposite Ordering.gt = Ordering.lt
opposite Ordering.eq = Ordering.eq

-- The first comparison decides, and the second where that finds no difference.
abbrev pub and_then : Ordering → Ordering → Ordering
and_then o rest = elim o [
  | Ordering.lt ↦ Ordering.lt
  | Ordering.gt ↦ Ordering.gt
  | Ordering.eq ↦ rest
]

-- Of the values of a kind, a comparison is a total order.
pub record IsComparison {A : Type 0} (P : A → Type 0) (f : A → A → Ordering) : Type 0 where
  pub self : (a : A) → P a → f a a ≡ Ordering.eq
  pub same : (a b : A) → P a → P b → f a b ≡ Ordering.eq → a ≡ b
  pub turned : (a b : A) → P a → P b → f b a ≡ opposite (f a b)
  pub trans :
      (a b c : A)
      → P a
      → P b
      → P c
      → f a b ≡ Ordering.lt
      → f b c ≡ Ordering.lt
      → f a c ≡ Ordering.lt

pub Ordering-cases : (o : Ordering) → (o ≡ Ordering.lt) ⊎ (o ≡ Ordering.gt) ⊎ (o ≡ Ordering.eq)
Ordering-cases Ordering.lt = inl refl
Ordering-cases Ordering.gt = inr (inl refl)
Ordering-cases Ordering.eq = inr (inr refl)

-- The numbers
abbrev pub Every : {A : Type 0} → A → Type 0
Every _ = Unit {0}

compare_self : (a : ℕ) → compare a a ≡ Ordering.eq
compare_self a = elim (Ordering-cases (compare a a)) [
  | inl e ↦ absurd (omega (arith, compare-lt a a e))
  | inr (inl e) ↦ absurd (omega (arith, compare-gt a a e))
  | inr (inr e) ↦ e
]

compare_below : (a b : ℕ) → a < b → compare a b ≡ Ordering.lt
compare_below a b h = elim (Ordering-cases (compare a b)) [
  | inl e ↦ e
  | inr (inl e) ↦ absurd (omega (arith, compare-gt a b e))
  | inr (inr e) ↦ absurd (omega (arith, compare-eq a b e))
]

compare_above : (a b : ℕ) → b < a → compare a b ≡ Ordering.gt
compare_above a b h = elim (Ordering-cases (compare a b)) [
  | inl e ↦ absurd (omega (arith, compare-lt a b e))
  | inr (inl e) ↦ e
  | inr (inr e) ↦ absurd (omega (arith, compare-eq a b e))
]

compare_turned : (a b : ℕ) → compare b a ≡ opposite (compare a b)
compare_turned a b = elim (Ordering-cases (compare a b)) [
  | inl e ↦ rw e (compare_above b a (compare-lt a b e))
  | inr (inl e) ↦ rw e (compare_below b a (compare-gt a b e))
  | inr (inr e) ↦ rw e (ap (λ n. compare b n) (compare-eq a b e) ∙ compare_self b)
]

pub compare-IsComparison : IsComparison Every compare
compare-IsComparison = record {
  self = λ a _. compare_self a;
  same = λ a b _ _ e. compare-eq a b e;
  turned = λ a b _ _. compare_turned a b;
  trans = λ a b c _ _ _ e q. compare_below a c (omega (arith, compare-lt a b e, compare-lt b c q));
}

-- A comparison of heads before one of tails
module _ {A : Type 0} {P : A → Type 0} {f : A → A → Ordering} (law : IsComparison P f) where
  pub and_then-turned :
      (a b : A) (r s : Ordering)
      → P a
      → P b
      → s ≡ opposite r
      → and_then (f b a) s ≡ opposite (and_then (f a b) r)
  and_then-turned a b r s p q h = ap (λ o. and_then o s) (law.turned a b p q) ∙ decide (f a b)
    where
      decide : (o : Ordering) → and_then (opposite o) s ≡ opposite (and_then o r)
      decide Ordering.lt = refl
      decide Ordering.gt = refl
      decide Ordering.eq = h

  pub and_then_self : (a : A) (r : Ordering) → P a → and_then (f a a) r ≡ r
  and_then_self a r p = ap (λ o. and_then o r) (law.self a p)

  -- No difference: neither the heads nor the tails differ.
  pub and_then-same :
      (a b : A) (r : Ordering)
      → P a
      → P b
      → and_then (f a b) r ≡ Ordering.eq
      → (a ≡ b) × (r ≡ Ordering.eq)
  and_then-same a b r p q h = elim (Ordering-cases (f a b)) [
    | inl e ↦ absurd (lt≢eq (sym (ap (λ o. and_then o r) e) ∙ h))
    | inr (inl e) ↦ absurd (gt≢eq (sym (ap (λ o. and_then o r) e) ∙ h))
    | inr (inr e) ↦ (law.same a b p q e, sym (ap (λ o. and_then o r) e) ∙ h)
  ]
    where
      lt≢eq : ¬ (Ordering.lt ≡ Ordering.eq)
      lt≢eq e = cc

      gt≢eq : ¬ (Ordering.gt ≡ Ordering.eq)
      gt≢eq e = cc

  -- Before: the heads are, or they are equal and the tails are.
  and_then-lt :
      (a b : A) (r : Ordering)
      → P a
      → P b
      → and_then (f a b) r ≡ Ordering.lt
      → (f a b ≡ Ordering.lt) ⊎ ((a ≡ b) × (r ≡ Ordering.lt))
  and_then-lt a b r p q h = elim (Ordering-cases (f a b)) [
    | inl e ↦ inl e
    | inr (inl e) ↦ absurd (gt≢lt (sym (ap (λ o. and_then o r) e) ∙ h))
    | inr (inr e) ↦ inr (law.same a b p q e, sym (ap (λ o. and_then o r) e) ∙ h)
  ]
    where
      gt≢lt : ¬ (Ordering.gt ≡ Ordering.lt)
      gt≢lt e = cc

  pub and_then_trans :
      (a b c : A) (r s t : Ordering)
      → P a
      → P b
      → P c
      → (r ≡ Ordering.lt → s ≡ Ordering.lt → t ≡ Ordering.lt)
      → and_then (f a b) r ≡ Ordering.lt
      → and_then (f b c) s ≡ Ordering.lt
      → and_then (f a c) t ≡ Ordering.lt
  and_then_trans a b c r s t pa pb pc step h k =
      decide (and_then-lt a b r pa pb h) (and_then-lt b c s pb pc k)
    where
      decide :
          (f a b ≡ Ordering.lt) ⊎ ((a ≡ b) × (r ≡ Ordering.lt))
          → (f b c ≡ Ordering.lt) ⊎ ((b ≡ c) × (s ≡ Ordering.lt))
          → and_then (f a c) t ≡ Ordering.lt
      decide (inl e) (inl q) = ap (λ o. and_then o t) (law.trans a b c pa pb pc e q)
      decide (inl e) (inr (q, _)) = ap (λ o. and_then o t) (ap (f a) (sym q) ∙ e)
      decide (inr (e, _)) (inl q) = ap (λ o. and_then o t) (ap (λ x. f x c) e ∙ q)
      decide (inr (e, u)) (inr (q, v)) =
          ap (λ o. and_then o t) (ap (f a) (sym (e ∙ q)) ∙ law.self a pa) ∙ step u v
