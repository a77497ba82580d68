-- ===== src/BTree/Node/Written.antt =====
-- src/btree/node.rs: the entries of a node, as they stand in its page.
use mathlib.Core.List.{append_assoc, append-nil}
use dbstorage.Base.{
  copy-append, drop-append, ℕ, ◌+◌, ◌≤◌, ◌≡◌, refl, sym, ap, ◌∙◌, Option, some, none, List, [], ◌∷◌,
  ◌++◌, arith, length, length-append, drop, length-drop, replicate, length-replicate, All,
  Bool-cases, inl, inr, ==_iff, ◌==◌, range-append_middle,
}
use dbstorage.Base.Panic.{◌>>=◌, >>=-eq-some}
use dbstorage.Storable.{Storable}
use dbstorage.BTree.Slot.{Either, Slot, either_size, either_bytes, either_from}
use dbstorage.BTree.Node.Image.{KeyCodec, slot_size, slot_bytes, write_slots, read_slots}

regroup : (k eb more left : List ℕ) → (k ++ (eb ++ more)) ++ left ≡ k ++ (eb ++ (more ++ left))
regroup k eb more left = append_assoc k (eb ++ more) left ∙ ap (◌++◌ k) (append_assoc eb more left)

no_elements : (xs : List ℕ) → length xs ≡ 0 → xs ≡ []
no_elements [] h = refl
no_elements (x ∷ xs) h = absurd (omega arith)

module _ {T V : Type 0} (keys : KeyCodec T) (vs : Storable V) where
  -- The key and the other half of an entry are read back from their bytes.
  abbrev pub Readable : Slot T V → Type 0
  Readable s =
      ((either_bytes vs s.either >>= either_from vs) ≡ some s.either)
      × ((rest : List ℕ) → keys.read (keys.bytes s.key ++ rest) ≡ some s.key)

  abbrev pub total_size : List (Slot T V) → ℕ
  total_size [] = 0
  total_size (s ∷ rest) = length (keys.bytes s.key) + either_size vs + total_size rest

  -- The bytes of entries.
  abbrev pub Encodes : List (Slot T V) → List ℕ → Type 0
  Encodes [] img = img ≡ []
  Encodes (s ∷ rest) img =
      (eb : List ℕ) × (more : List ℕ) × (img ≡ keys.bytes s.key ++ (eb ++ more))
      × (length eb ≡ either_size vs)
      × (either_bytes vs s.either ≡ some eb)
      × (either_from vs eb ≡ some s.either)
      × Encodes rest more

  either_from-length :
      (eb : List ℕ) (e : Either V) → either_from vs eb ≡ some e → length eb ≡ either_size vs
  unfolding either_from
  either_from-length eb e h = elim (Bool-cases (length eb == either_size vs)) [
    | inl q ↦ (==_iff (length eb) (either_size vs)).0 q
    | inr q ↦ absurd (none≢some (rw q at h))
  ]
    where
      none≢some : ¬ (◌≡◌ {A = Option (Either V)} none (some e))
      none≢some q = cc

  pub encoded :
      (slots : List (Slot T V))
      → All Readable slots
      → (img : List ℕ) × Encodes slots img × (length img ≡ total_size slots)
  encoded [] h = ([], refl, refl)
  encoded (s ∷ rest) h =
      let (more, enc, size) = encoded rest h.1 in
      let (eb, e, q) = >>=-eq-some (either_bytes vs s.either) (either_from vs) h.0.0 in
      let n = either_from-length eb s.either q in
      (
        keys.bytes s.key ++ (eb ++ more),
        (eb, more, refl, n, e, q, enc),
        omega (arith, length-append (keys.bytes s.key) (eb ++ more), length-append eb more),
      )

  slot_bytes_lem :
      (s : Slot T V) (eb : List ℕ)
      → length eb ≡ either_size vs
      → either_bytes vs s.either ≡ some eb
      → slot_bytes keys vs s ≡ some (keys.bytes s.key ++ eb)
  unfolding slot_bytes
  slot_bytes_lem s eb n e =
      let k : List ℕ = keys.bytes s.key in
      let zeros : List ℕ = replicate (length k + either_size vs) 0 in
      let size : length zeros ≡ length k + either_size vs =
        length-replicate (length k + either_size vs) 0 in
      let left = length-drop (length k) zeros in
      let none_left : drop (length eb) (drop (length k) zeros) ≡ [] =
        no_elements _ (omega (arith, length-drop (length eb) (drop (length k) zeros), left)) in
      rw
        (
          copy-append [] zeros k 0 (length k) refl (omega arith) (omega arith),
          e,
          copy-append k (drop (length k) zeros) eb (length k) (length k + either_size vs) refl
              (omega arith) (omega (arith, left)),
          none_left,
          append-nil,
        )
        refl

  -- The entries are written one behind the other.
  pub write_slots-Encodes :
      (slots : List (Slot T V)) (img pre rest : List ℕ) (from : ℕ)
      → Encodes slots img
      → from ≡ length pre
      → length img ≤ length rest
      → (left : List ℕ) × (write_slots keys vs slots from (pre ++ rest)
          ≡ some (pre ++ (img ++ left)))
        × (length img + length left ≡ length rest)
  unfolding write_slots slot_size
  write_slots-Encodes [] img pre rest from enc at le =
      (rest, ap (λ l. some (pre ++ (l ++ rest))) (sym enc), omega (arith, ap length enc))
  write_slots-Encodes (s ∷ slots) img pre rest from (eb, more, is, n, e, q, enc) at le =
      let b : List ℕ = keys.bytes s.key ++ eb in
      let size : length b ≡ length (keys.bytes s.key) + either_size vs =
        omega (arith, length-append (keys.bytes s.key) eb) in
      let whole : length img ≡ length b + length more = omega (
        arith,
        ap length is,
        length-append (keys.bytes s.key) (eb ++ more),
        length-append eb more,
      ) in
      let rest' : List ℕ = drop (length b) rest in
      let left' = length-drop (length b) rest in
      let from' : ℕ = from + (length (keys.bytes s.key) + either_size vs) in
      let (left, written, count) =
        write_slots-Encodes slots more (pre ++ b) rest' from' enc
          (omega (arith, length-append pre b)) (omega (arith, left')) in
      (
        left,
        rw
            (
              slot_bytes_lem s eb n e,
              copy-append pre rest b from from' at (omega arith) (omega arith),
            )
            (ap (write_slots keys vs slots from') (sym (append_assoc pre b rest'))
              ∙ written
              ∙ ap some (
                  append_assoc pre b (more ++ left)
                  ∙ ap (◌++◌ pre) (
                      append_assoc (keys.bytes s.key) eb (more ++ left)
                      ∙ sym (regroup (keys.bytes s.key) eb more left)
                      ∙ ap (λ l. l ++ left) (sym is)))),
        omega (arith, left'),
      )

  pub read_slots-Encodes :
      (slots : List (Slot T V)) (img rest : List ℕ)
      → All Readable slots
      → Encodes slots img
      → read_slots keys vs (length slots) (img ++ rest) ≡ some slots
  unfolding read_slots
  read_slots-Encodes [] img rest ok enc = refl
  read_slots-Encodes (s ∷ slots) img rest ok (eb, more, is, n, e, q, enc) =
      let k : List ℕ = keys.bytes s.key in
      let shape : img ++ rest ≡ k ++ (eb ++ (more ++ rest)) =
        ap (λ l. l ++ rest) is ∙ regroup k eb more rest in
      let behind : drop (length k + either_size vs) (k ++ (eb ++ (more ++ rest))) ≡ more ++ rest =
        ap (λ m. drop m (k ++ (eb ++ (more ++ rest)))) (omega (arith, length-append k eb))
        ∙ ap (drop (length (k ++ eb))) (sym (append_assoc k eb (more ++ rest)))
        ∙ drop-append (k ++ eb) (more ++ rest) in
      rw
        (
          shape,
          ok.0.1 (eb ++ (more ++ rest)),
          range-append_middle k eb (more ++ rest) (length k) (length k + either_size vs) refl
              (omega arith),
          q,
          behind,
          read_slots-Encodes slots more rest ok.1 enc,
        )
        refl
