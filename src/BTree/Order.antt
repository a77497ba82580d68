-- ===== src/BTree/Order.antt =====
-- How the tree compares keys. A key is a `Tuple` compared as `Comparand(schema, key)`; the tree uses
-- nothing of it but these tests, `next`, and its bytes.
use mathlib.Core.Bool.{true≢false}
use dbstorage.Base.{
  refl, sym, ap, ◌∙◌, subst, ◌≢◌, inl, inr, Bool-cases, ℕ, ◌≡◌, ◌↔◌, Bool, true, false, Option,
}

pub record Keys (T : Type 0) : Type 0 where
  -- `Comparand(schema, a) == Comparand(schema, b)`
  pub eq : T → T → Bool
  -- `Comparand(schema, a) < Comparand(schema, b)`
  pub lt : T → T → Bool
  -- `Tuple::next`, which may panic
  pub next : T → Option T
  -- `Schema::size`
  pub schema_size : ℕ

-- What a total order needs: the equality test decides equality, and the order is strict and total.
pub record IsOrder {T : Type 0} (keys : Keys T) : Type 0 where
  pub eq_iff : (a b : T) → (keys.eq a b ≡ true) ↔ (a ≡ b)
  pub irrefl : (a : T) → keys.lt a a ≡ false
  pub trans : (a b c : T) → keys.lt a b ≡ true → keys.lt b c ≡ true → keys.lt a c ≡ true
  pub total : (a b : T) → keys.eq a b ≡ false → keys.lt a b ≡ false → keys.lt b a ≡ true

module _ {T : Type 0} (keys : Keys T) (law : IsOrder keys) where
  lt_irrefl : (a : T) → ¬ (keys.lt a a ≡ true)
  lt_irrefl a h = true≢false (sym h ∙ law.irrefl a)

  pub lt→ne : (a b : T) → keys.lt a b ≡ true → keys.eq b a ≡ false
  lt→ne a b h = elim (Bool-cases (keys.eq b a)) [
    | inl e ↦ absurd (lt_irrefl a (subst (λ k. keys.lt a k ≡ true) ((law.eq_iff b a).0 e) h))
    | inr e ↦ e
  ]

  pub eq_self : (a : T) → keys.eq a a ≡ true
  eq_self a = (law.eq_iff a a).1 refl

  pub ne→eq : (a b : T) → b ≢ a → keys.eq a b ≡ false
  ne→eq a b h = elim (Bool-cases (keys.eq a b)) [
    | inl e ↦ absurd (h (sym ((law.eq_iff a b).0 e)))
    | inr e ↦ e
  ]

  pub ne_comm : (a b : T) → keys.eq a b ≡ false → keys.eq b a ≡ false
  ne_comm a b h = ne→eq b a (λ e. true≢false (sym (eq_self a) ∙ ap (λ k. keys.eq a k) e ∙ h))
