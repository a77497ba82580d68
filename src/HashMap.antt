-- ===== src/HashMap.antt =====
-- `std::collections::HashMap` as the list of its entries, in the order in which an iteration would
-- meet them. The key type comes with its equality test.
use dbstorage.Base.{
  ℕ, ◌≡◌, refl, ◌↔◌, Bool, true, Option, some, none, List, [], ◌∷◌, ◌==◌ as nat_eq, ==_iff,
  if◌then◌else◌, arith, All, All-mono, Bool-cases, inl, inr, sym, ◌∙◌, subst,
}
use mathlib.Core.Option
use dbstorage.Bytes.Signed.{ℤ, ◌=ℤ◌, =ℤ_iff}

pub record Eq {ℓ} (K : Type ℓ) : Type ℓ where
  pub beq : K → K → Bool
  pub beq_iff : (a b : K) → (beq a b ≡ true) ↔ (a ≡ b)

instance abbrev pub nat_key : Eq ℕ
nat_key = record { beq = nat_eq; beq_iff = ==_iff }

instance abbrev pub int_key : Eq ℤ
int_key = record { beq = ◌=ℤ◌; beq_iff = =ℤ_iff }

abbrev pub Entries {ℓ} : Type 0 → Type ℓ → Type ℓ
Entries K V = List (K × V)

none≢some {ℓ} : {A : Type ℓ} {a : A} → ¬ (none ≡ some a)
none≢some h = cc

module _ {ℓ} {K : Type 0} ⦃key : Eq K⦄ {V : Type ℓ} where
  -- `get`
  unfoldable pub lookup : K → Entries K V → Option V
  lookup k [] = none
  lookup k ((j, v) ∷ m) = if key.beq j k then some v else lookup k m

  -- `insert`: the value is replaced where the key stands; a new key goes to the end.
  unfoldable pub insert : K → V → Entries K V → Entries K V
  insert k v [] = (k, v) ∷ []
  insert k v ((j, w) ∷ m) = if key.beq j k then (j, v) ∷ m else (j, w) ∷ insert k v m

  unfoldable pub remove : K → Entries K V → Entries K V
  remove k [] = []
  remove k ((j, w) ∷ m) = if key.beq j k then m else (j, w) ∷ remove k m

  -- A change through `get_mut`.
  unfoldable pub update : K → (V → V) → Entries K V → Entries K V
  update k f [] = []
  update k f ((j, w) ∷ m) = if key.beq j k then (j, f w) ∷ m else (j, w) ∷ update k f m

  -- No key stands twice.
  abbrev pub IsDistinct : Entries K V → Type ℓ
  IsDistinct [] = Unit {ℓ}
  IsDistinct ((k, v) ∷ m) = (lookup k m ≡ none) × IsDistinct m

  pub lookup-insert :
      (k j : K) (v : V) (m : Entries K V)
      → lookup j (insert k v m) ≡ (if key.beq k j then some v else lookup j m)
  unfolding lookup insert
  lookup-insert k j v [] = refl
  lookup-insert k j v ((i, w) ∷ m) =
      ground (arith, key.beq_iff k j, key.beq_iff i k, key.beq_iff i j, lookup-insert k j v m)

  pub lookup-update :
      (k j : K) (f : V → V) (m : Entries K V)
      → lookup j (update k f m) ≡ (if key.beq k j then Option.map f (lookup j m) else lookup j m)
  unfolding lookup update
  lookup-update k j f [] = ground arith
  lookup-update k j f ((i, w) ∷ m) =
      ground (arith, key.beq_iff k j, key.beq_iff i k, key.beq_iff i j, lookup-update k j f m)

  pub lookup-remove :
      (k j : K) (m : Entries K V)
      → IsDistinct m
      → lookup j (remove k m) ≡ (if key.beq k j then none else lookup j m)
  unfolding lookup remove
  lookup-remove k j [] d = ground arith
  lookup-remove k j ((i, w) ∷ m) d =
      ground (arith, key.beq_iff k j, key.beq_iff i k, key.beq_iff i j, lookup-remove k j m d.1)

  pub insert-IsDistinct :
      (k : K) (v : V) (m : Entries K V) → IsDistinct m → IsDistinct (insert k v m)
  unfolding lookup insert
  insert-IsDistinct k v [] d = (refl, tt)
  insert-IsDistinct k v ((i, w) ∷ m) d =
      ground (
        arith,
        key.beq_iff i k,
        key.beq_iff k i,
        lookup-insert k i v m,
        insert-IsDistinct k v m d.1,
      )

  pub update-IsDistinct :
      (k : K) (f : V → V) (m : Entries K V) → IsDistinct m → IsDistinct (update k f m)
  unfolding lookup update
  update-IsDistinct k f [] d = tt
  update-IsDistinct k f ((i, w) ∷ m) d =
      ground (
        arith,
        key.beq_iff i k,
        key.beq_iff k i,
        lookup-update k i f m,
        update-IsDistinct k f m d.1,
      )

  pub remove-IsDistinct : (k : K) (m : Entries K V) → IsDistinct m → IsDistinct (remove k m)
  unfolding lookup remove
  remove-IsDistinct k [] d = tt
  remove-IsDistinct k ((i, w) ∷ m) d =
      ground (
        arith,
        key.beq_iff i k,
        key.beq_iff k i,
        lookup-remove k i m d.1,
        remove-IsDistinct k m d.1,
      )

  -- Each entry of a map with distinct keys is the one that its key finds.
  pub entries_found :
      (m : Entries K V) → IsDistinct m → All (λ (e : K × V). lookup e.0 m ≡ some e.1) m
  unfolding lookup
  entries_found [] d = tt
  entries_found ((k, v) ∷ m) d =
      (rw ((key.beq_iff k k).1 refl), All-mono _ _ m step (entries_found m d.1))
    where
      step :
          (e : K × V)
          → lookup e.0 m ≡ some e.1
          → (if key.beq k e.0 then some v else lookup e.0 m) ≡ some e.1
      step (j, w) h = elim (Bool-cases (key.beq k j)) [
        | inl same ↦
            let gone : lookup j m ≡ none =
              subst (λ q. lookup q m ≡ none) ((key.beq_iff k j).0 same) d.0 in
            absurd (none≢some {a = w} (sym gone ∙ h))
        | inr other ↦ rw other h
      ]

  module _ {κ} (P : K × V → Type κ) (Q : K × V → Type κ) (weaken : (e : K × V) → P e → Q e) where
    pub insert-All : (k : K) (v : V) (m : Entries K V) → Q (k, v) → All P m → All Q (insert k v m)
    unfolding insert
    insert-All k v [] q h = (q, tt)
    insert-All k v ((j, w) ∷ m) q h = elim (Bool-cases (key.beq j k)) [
      | inl same ↦
          rw same
            (subst (λ x. Q (x, v)) (sym ((key.beq_iff j k).0 same)) q, All-mono P Q m weaken h.1)
      | inr other ↦ rw other (weaken (j, w) h.0, insert-All k v m q h.1)
    ]

    pub update-All :
        (k : K) (f : V → V) (m : Entries K V)
        → ((e : K × V) → P e → Q (e.0, f e.1))
        → All P m
        → All Q (update k f m)
    unfolding update
    update-All k f [] q h = tt
    update-All k f ((j, w) ∷ m) q h = elim (Bool-cases (key.beq j k)) [
      | inl same ↦ rw same (q (j, w) h.0, All-mono P Q m weaken h.1)
      | inr other ↦ rw other (weaken (j, w) h.0, update-All k f m q h.1)
    ]

    pub remove-All : (k : K) (m : Entries K V) → All P m → All Q (remove k m)
    unfolding remove
    remove-All k [] h = tt
    remove-All k ((j, w) ∷ m) h = elim (Bool-cases (key.beq j k)) [
      | inl same ↦ rw same (All-mono P Q m weaken h.1)
      | inr other ↦ rw other (weaken (j, w) h.0, remove-All k m h.1)
    ]

pub beq_refl : {K : Type 0} ⦃key : Eq K⦄ (k : K) → key.beq k k ≡ true
beq_refl ⦃key⦄ k = (key.beq_iff k k).1 refl
