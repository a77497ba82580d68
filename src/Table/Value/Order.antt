-- ===== src/Table/Value/Order.antt =====
-- src/table/tuple.rs: the derived order of `Value` is a total order on the values of one column type.
use Prim.Native.Nat.{Ordering}
use dbstorage.Base.{ℕ, ◌≡◌, refl, sym, ap, ◌∙◌, List, [], ◌∷◌, arith}
use dbstorage.Base.Comparisons.{
  opposite, IsComparison, Every, compare-IsComparison, and_then_self, and_then-same,
  and_then-turned, and_then_trans,
}
use dbstorage.Bytes.Signed.{ℤ, pos, negsuc}
use dbstorage.Table.Value.{compare_ℤ, compare_bytes}

ℤ_same : (a b : ℤ) → compare_ℤ a b ≡ Ordering.eq → a ≡ b
unfolding compare_ℤ
ℤ_same (pos a) (pos b) = ground arith
ℤ_same (pos a) (negsuc b) = ground arith
ℤ_same (negsuc a) (pos b) = ground arith
ℤ_same (negsuc a) (negsuc b) = ground arith

ℤ_self : (a : ℤ) → compare_ℤ a a ≡ Ordering.eq
unfolding compare_ℤ
ℤ_self (pos a) = ground arith
ℤ_self (negsuc a) = ground arith

ℤ_turned : (a b : ℤ) → compare_ℤ b a ≡ opposite (compare_ℤ a b)
unfolding compare_ℤ
ℤ_turned (pos a) (pos b) = ground arith
ℤ_turned (pos a) (negsuc b) = ground arith
ℤ_turned (negsuc a) (pos b) = ground arith
ℤ_turned (negsuc a) (negsuc b) = ground arith

ℤ_trans :
    (a b c : ℤ)
    → compare_ℤ a b ≡ Ordering.lt
    → compare_ℤ b c ≡ Ordering.lt
    → compare_ℤ a c ≡ Ordering.lt
unfolding compare_ℤ
ℤ_trans (pos a) (pos b) (pos c) = ground arith
ℤ_trans (pos a) (pos b) (negsuc c) = ground arith
ℤ_trans (pos a) (negsuc b) (pos c) = ground arith
ℤ_trans (pos a) (negsuc b) (negsuc c) = ground arith
ℤ_trans (negsuc a) (pos b) (pos c) = ground arith
ℤ_trans (negsuc a) (pos b) (negsuc c) = ground arith
ℤ_trans (negsuc a) (negsuc b) (pos c) = ground arith
ℤ_trans (negsuc a) (negsuc b) (negsuc c) = ground arith

pub compare_ℤ-IsComparison : IsComparison Every compare_ℤ
compare_ℤ-IsComparison = record {
  self = λ a _. ℤ_self a;
  same = λ a b _ _. ℤ_same a b;
  turned = λ a b _ _. ℤ_turned a b;
  trans = λ a b c _ _ _. ℤ_trans a b c;
}

bytes_self : (xs : List ℕ) → compare_bytes xs xs ≡ Ordering.eq
unfolding compare_bytes
bytes_self [] = refl
bytes_self (x ∷ xs) = and_then_self compare-IsComparison x (compare_bytes xs xs) tt ∙ bytes_self xs

bytes_same : (xs ys : List ℕ) → compare_bytes xs ys ≡ Ordering.eq → xs ≡ ys
unfolding compare_bytes
bytes_same [] [] e = refl
bytes_same [] (y ∷ ys) e = cc
bytes_same (x ∷ xs) [] e = cc
bytes_same (x ∷ xs) (y ∷ ys) e =
    let (h, t) = and_then-same compare-IsComparison x y (compare_bytes xs ys) tt tt e in
    λ i. h i ∷ bytes_same xs ys t i

bytes_turned : (xs ys : List ℕ) → compare_bytes ys xs ≡ opposite (compare_bytes xs ys)
unfolding compare_bytes
bytes_turned [] [] = refl
bytes_turned [] (y ∷ ys) = refl
bytes_turned (x ∷ xs) [] = refl
bytes_turned (x ∷ xs) (y ∷ ys) =
    and_then-turned compare-IsComparison x y (compare_bytes xs ys) (compare_bytes ys xs) tt tt
      (bytes_turned xs ys)

bytes_trans :
    (xs ys zs : List ℕ)
    → compare_bytes xs ys ≡ Ordering.lt
    → compare_bytes ys zs ≡ Ordering.lt
    → compare_bytes xs zs ≡ Ordering.lt
unfolding compare_bytes
bytes_trans [] [] zs e q = cc
bytes_trans [] (y ∷ ys) [] e q = cc
bytes_trans [] (y ∷ ys) (z ∷ zs) e q = refl
bytes_trans (x ∷ xs) [] zs e q = cc
bytes_trans (x ∷ xs) (y ∷ ys) [] e q = cc
bytes_trans (x ∷ xs) (y ∷ ys) (z ∷ zs) e q =
    and_then_trans compare-IsComparison x y z (compare_bytes xs ys) (compare_bytes ys zs)
      (compare_bytes xs zs) tt tt tt (bytes_trans xs ys zs) e q

pub compare_bytes-IsComparison : IsComparison Every compare_bytes
compare_bytes-IsComparison = record {
  self = λ a _. bytes_self a;
  same = λ a b _ _. bytes_same a b;
  turned = λ a b _ _. bytes_turned a b;
  trans = λ a b c _ _ _. bytes_trans a b c;
}

-- A comparison read through a function
pub through :
    {A B : Type 0} {f : A → A → Ordering}
    → IsComparison Every f
    → (P : B → Type 0) (g : B → B → Ordering) (into : A → B) (from : (b : B) → P b → A)
    → ((b : B) (p : P b) → into (from b p) ≡ b)
    → ((a a' : A) → g (into a) (into a') ≡ f a a')
    → IsComparison P g
through {f = f} law P g into from back agree =
    let step : (b c : _) (p : P b) (q : P c) → g b c ≡ f (from b p) (from c q) = λ b c p q.
      ap (λ x. g x c) (sym (back b p))
      ∙ ap (g (into (from b p))) (sym (back c q))
      ∙ agree (from b p) (from c q) in
    record {
      self = λ b p. step b b p p ∙ law.self (from b p) tt;
      same = λ b c p q e.
          sym (back b p)
          ∙ ap into (law.same (from b p) (from c q) tt tt (sym (step b c p q) ∙ e))
          ∙ back c q;
      turned = λ b c p q.
          step c b q p ∙ law.turned (from b p) (from c q) tt tt ∙ ap opposite (sym (step b c p q));
      trans = λ b c d p q r e h.
          step b d p r
          ∙ law.trans (from b p) (from c q) (from d r) tt tt tt (sym (step b c p q) ∙ e)
              (sym (step c d q r) ∙ h);
    }
