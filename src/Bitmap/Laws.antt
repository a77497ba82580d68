-- ===== src/Bitmap/Laws.antt =====
-- What `check` reads after `set`, and what `len` counts.
use dbstorage.Base.{
  ℕ, zero, suc, ◌+◌, ◌*◌, ◌%◌, ◌^◌, ◌<◌, ◌≡◌, refl, ap, sym, ◌∙◌, ◌≢◌, ◌≤◌, Bool, some, none, List,
  [], ◌∷◌, arith, ◌==◌, if◌then◌else◌, length, get_elem?, set, length-set, get_elem?-set_self,
  get_elem?-set_ne, replicate, ℕ_discrete,
}
use dbstorage.Bytes.Words.{IsBytes}
use dbstorage.Bitmap.{
  BitMap, new, set_bit, check, len, index_of, set_byte, test_byte, count_ones, total_ones,
}
use dbstorage.Bitmap.Bits.{bit_index_of_lem, test_byte-set_byte, count_ones-set_byte, set_byte-lt}

-- The array holds `size` bytes.
pub record IsValid (size : ℕ) (bm : BitMap) : Type 0 where
  pub sized : length bm.inner ≡ size
  pub bytes : IsBytes bm.inner

get_elem?-total :
    (xs : List ℕ) (i : ℕ)
    → IsBytes xs
    → i < length xs
    → (b : ℕ) × (get_elem? xs i ≡ some b) × (b < 256)
get_elem?-total [] i h lt = absurd (omega arith)
get_elem?-total (x ∷ xs) zero h lt = (x, refl, h.0)
get_elem?-total (x ∷ xs) (suc i) h lt = get_elem?-total xs i h.1 (omega arith)

set-IsBytes : (xs : List ℕ) (i v : ℕ) → IsBytes xs → v < 256 → IsBytes (set xs i v)
set-IsBytes [] i v h lt = tt
set-IsBytes (x ∷ xs) zero v h lt = (lt, h.1)
set-IsBytes (x ∷ xs) (suc i) v h lt = (h.0, set-IsBytes xs i v h.1 lt)

total_ones-set :
    (xs : List ℕ) (i b v : ℕ)
    → get_elem? xs i ≡ some b
    → total_ones (set xs i v) + count_ones b ≡ total_ones xs + count_ones v
unfolding total_ones
total_ones-set [] i b v h = cc
total_ones-set (x ∷ xs) zero b v h = ground arith
total_ones-set (x ∷ xs) (suc i) b v h = omega (arith, total_ones-set xs i b v h)

module _ (size : ℕ) (bm : BitMap) (valid : IsValid size bm) where
  -- An index within the `8 * size` bits: the write does not panic.
  pub set_bit-total :
      (i : ℕ) (v : Bool)
      → i < 8 * size
      → (b : ℕ) × (get_elem? bm.inner (index_of i) ≡ some b)
        × (b < 256)
        × (set_bit bm i v
            ≡ some (record bm { inner = set bm.inner (index_of i) (set_byte b (2 ^ (i % 8)) v) }))
  unfolding set_bit
  set_bit-total i v lt =
      let (b, e, small) =
        get_elem?-total bm.inner (index_of i) valid.bytes (omega (arith, valid.sized)) in
      (b, e, small, rw (e, bit_index_of_lem i))

  check_lem :
      (j b : ℕ)
      → get_elem? bm.inner (index_of j) ≡ some b
      → check bm j ≡ some (test_byte (2 ^ (j % 8)) b)
  unfolding check
  check_lem j b e = rw (e, bit_index_of_lem j)

-- An index past the last byte is a panic, for a write as for a read.
get_elem?-none {ℓ} : {A : Type ℓ} (xs : List A) (i : ℕ) → length xs < suc i → get_elem? xs i ≡ none
get_elem?-none [] i h = refl
get_elem?-none (x ∷ xs) zero h = absurd (omega arith)
get_elem?-none (x ∷ xs) (suc i) h = get_elem?-none xs i (omega arith)

module _ (size : ℕ) (bm : BitMap) (valid : IsValid size bm) (i : ℕ) (v : Bool)
    (lt : i < 8 * size) where
  -- The map after the write.
  written : BitMap
  written = record bm {
    inner =
        set bm.inner (index_of i) (set_byte (set_bit-total size bm valid i v lt).0 (2 ^ (i % 8)) v);
  }

  written-IsValid : IsValid size written
  unfolding written
  written-IsValid =
      let (b, e, small, _) = set_bit-total size bm valid i v lt in
      record {
        sized = length-set bm.inner (index_of i) _ ∙ valid.sized;
        bytes =
            set-IsBytes bm.inner (index_of i) _ valid.bytes
              (set_byte-lt v b (i % 8) small (omega arith));
      }

  check-written_same :
      (j : ℕ) → index_of j ≡ index_of i → check written j ≡ (if j == i then some v else check bm j)
  unfolding written
  check-written_same j h =
      let (b, e, small, _) = set_bit-total size bm valid i v lt in
      let here : index_of i < length bm.inner = omega (arith, valid.sized) in
      let after : ℕ = set_byte b (2 ^ (i % 8)) v in
      let self : get_elem? (set bm.inner (index_of i) after) (index_of j) ≡ some after =
        rw h (get_elem?-set_self bm.inner (index_of i) after here) in
      ground (
        arith,
        check_lem size written written-IsValid j after self,
        check_lem size bm valid j b (rw h e),
        test_byte-set_byte v b (i % 8) (j % 8) small (omega arith) (omega arith),
      )

  check-written_other :
      (j : ℕ)
      → j < 8 * size
      → index_of j ≢ index_of i
      → check written j ≡ (if j == i then some v else check bm j)
  unfolding written
  check-written_other j ltj h =
      let (b, e, small) =
        get_elem?-total bm.inner (index_of j) valid.bytes (omega (arith, valid.sized)) in
      ground (
        arith,
        check_lem size written written-IsValid j b
            (get_elem?-set_ne bm.inner _ (λ q. h (sym q)) ∙ e),
        check_lem size bm valid j b e,
      )

  len-written :
      (old : Bool)
      → check bm i ≡ some old
      → len written + (if old then 1 else 0) ≡ len bm + (if v then 1 else 0)
  unfolding written len
  len-written old h =
      let (b, e, small, _) = set_bit-total size bm valid i v lt in
      ground (
        arith,
        check_lem size bm valid i b e,
        total_ones-set bm.inner (index_of i) b (set_byte b (2 ^ (i % 8)) v) e,
        count_ones-set_byte v b (i % 8) small (omega arith),
      )

  check-written : (j : ℕ) → j < 8 * size → check written j ≡ (if j == i then some v else check bm j)
  check-written j ltj = elim (ℕ_discrete (index_of j) (index_of i)) [
    | yes p ↦ check-written_same j p
    | no p ↦ check-written_other j ltj p
  ]

  old_bit : (old : Bool) × (check bm i ≡ some old)
  old_bit =
      let (b, e, small, total) = set_bit-total size bm valid i v lt in
      (test_byte (2 ^ (i % 8)) b, check_lem size bm valid i b e)

-- A write of bit `i` within the bits of the map does not panic. It keeps the map well formed, bit `i`
-- reads back as written, any other bit `j` reads as before, and `len` changes by the change of bit `i`.
pub check-set_bit :
    (size : ℕ) (bm : BitMap) (i j : ℕ) (v : Bool)
    → IsValid size bm
    → i < 8 * size
    → j < 8 * size
    → (bm' : BitMap) × (old : Bool) × (set_bit bm i v ≡ some bm')
      × IsValid size bm'
      × (check bm' j ≡ (if j == i then some v else check bm j))
      × (check bm i ≡ some old)
      × (len bm' + (if old then 1 else 0) ≡ len bm + (if v then 1 else 0))
unfolding written
check-set_bit size bm i j v valid lt ltj =
    let (old, before) = old_bit size bm valid i v lt in
    (
      written size bm valid i v lt,
      old,
      (set_bit-total size bm valid i v lt).3,
      written-IsValid size bm valid i v lt,
      check-written size bm valid i v lt j ltj,
      before,
      len-written size bm valid i v lt old before,
    )

-- Past the last byte both the read and the write panic.
pub out_of_range :
    (size : ℕ) (bm : BitMap) (i : ℕ) (v : Bool)
    → IsValid size bm
    → 8 * size ≤ i
    → (set_bit bm i v ≡ none) × (check bm i ≡ none)
unfolding set_bit check
out_of_range size bm i v valid h =
    let e : get_elem? bm.inner (index_of i) ≡ none =
      get_elem?-none bm.inner (index_of i) (omega (arith, valid.sized)) in
    (rw e, rw e)

length-zeroes : (n : ℕ) → (length {A = ℕ} (replicate n 0) ≡ n) × IsBytes (replicate n 0)
length-zeroes zero = (refl, tt)
length-zeroes (suc n) = (ap suc (length-zeroes n).0, (omega arith, (length-zeroes n).1))

pub new-IsValid : (size : ℕ) → IsValid size (new size)
unfolding new
new-IsValid size = record { sized = (length-zeroes size).0; bytes = (length-zeroes size).1 }
