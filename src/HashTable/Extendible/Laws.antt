-- ===== src/HashTable/Extendible/Laws.antt =====
-- src/hash_table/extendible.rs: the places of the directory that a key and a split may reach.
use dbstorage.Base.{
  ℕ, ◌+◌, ◌*◌, ◌%◌, ◌<◌, ◌≡◌, refl, Option, some, List, [], ◌∷◌, arith, All, bit_and, range_lem,
  ltb, ◌==◌, if◌then◌else◌, Bool, true, false, Bool-cases, inl, inr, ℕ_discrete, eq→==, ne→==, ap,
  ◌∙◌, sym,
}
use dbstorage.Base.Panic.{◌>>=◌}
use dbstorage.Bytes.Signed.{IsI32}
use dbstorage.Page.{PageId}
use dbstorage.HashTable.Directory.{Directory, page_ids_size_u32, global_depth_mask, get, insert}
use dbstorage.HashTable.Directory.Laws.{IsValid, get-insert}
use dbstorage.HashTable.Extendible.{bucket_index, repoint}

get_total :
    (dir : Directory) (i : ℕ)
    → IsValid dir
    → i < page_ids_size_u32
    → (id : PageId) × (get dir i ≡ some id)
unfolding get
get_total dir i v lt =
    let e = range_lem dir.page_ids (i * 4) (i * 4 + 4) (omega arith) (omega (arith, v.ids)) in
    rw e (_, refl)

-- Whatever the hash of a key and the depth of a well-formed directory, the place that the key is sent to
-- is one of the 512, and reading the bucket's page id there does not panic.
pub get-bucket_index :
    {K : Type 0} (hash : K → ℕ) (k : K) (dir : Directory)
    → IsValid dir
    → (bucket_index hash k dir < page_ids_size_u32)
      × (id : PageId) × (get dir (bucket_index hash k dir) ≡ some id)
unfolding bucket_index
get-bucket_index hash k dir v =
    let i : ℕ = bit_and (hash k) (global_depth_mask dir) % page_ids_size_u32 in
    let lt : i < page_ids_size_u32 = omega arith in
    let (id, e) = get_total dir i v lt in (lt, id, e)

-- The page that a place gets in a split.
pub target : ℕ → PageId → PageId → ℕ → PageId
target bit id0 id1 i = if ltb 0 (bit_and i bit) then id0 else id1

abbrev pub is_in : ℕ → List ℕ → Bool
is_in j [] = false
is_in j (i ∷ rest) = if j == i then true else is_in j rest

-- The pages of the directory after the places in a list have got theirs.
pub Repointed : ℕ → PageId → PageId → List ℕ → Directory → Directory → Type 0
Repointed bit id0 id1 places dir dir' =
    IsValid dir'
    × ((j : ℕ) → get dir' j ≡ (if is_in j places then some (target bit id0 id1 j) else get dir j))

target-IsI32 :
    (bit : ℕ) (id0 id1 : PageId) (i : ℕ) → IsI32 id0 → IsI32 id1 → IsI32 (target bit id0 id1 i)
unfolding target
target-IsI32 bit id0 id1 i h0 h1 = elim (Bool-cases (ltb 0 (bit_and i bit))) [
  | inl e ↦ rw e h0
  | inr e ↦ rw e h1
]

module _ (bit : ℕ) (id0 id1 : PageId) (h0 : IsI32 id0) (h1 : IsI32 id1) where
  inserted :
      (dir : Directory) (i j : ℕ)
      → IsValid dir
      → i < page_ids_size_u32
      → (dir' : Directory) × (insert dir i (target bit id0 id1 i) ≡ some dir')
        × IsValid dir'
        × (get dir' j ≡ (if j == i then some (target bit id0 id1 i) else get dir j))
  inserted dir i j v lt =
      get-insert dir i j (target bit id0 id1 i) v lt (target-IsI32 bit id0 id1 i h0 h1)

  same_insert : (o : Option Directory) {d d' : Directory} → o ≡ some d → o ≡ some d' → d' ≡ d
  same_insert o e e' = cc

  get-inserted :
      (dir : Directory) (i : ℕ)
      → IsValid dir
      → i < page_ids_size_u32
      → (dir₁ : Directory) → insert dir i (target bit id0 id1 i) ≡ some dir₁
      → (j : ℕ) → get dir₁ j ≡ (if j == i then some (target bit id0 id1 i) else get dir j)
  get-inserted dir i v lt dir₁ e j =
      let (d, e', _, at) = inserted dir i j v lt in
      ap (λ x. get x j) (same_insert (insert dir i (target bit id0 id1 i)) e' e) ∙ at

  step :
      (dir dir₁ dir' : Directory) (i j : ℕ) (rest : List ℕ)
      → get dir₁ j ≡ (if j == i then some (target bit id0 id1 i) else get dir j)
      → get dir' j ≡ (if is_in j rest then some (target bit id0 id1 j) else get dir₁ j)
      → get dir' j ≡ (if is_in j (i ∷ rest) then some (target bit id0 id1 j) else get dir j)
  step dir dir₁ dir' i j rest e e' = elim (ℕ_discrete j i) [
    | yes p ↦ here p (is_in j rest) e'
    | no p ↦
        let old : get dir₁ j ≡ get dir j = e ∙ (rw (ne→== j i p) refl) in
        rw (ne→== j i p)
          (e' ∙ ap (λ o. if is_in j rest then some (target bit id0 id1 j) else o) old)
  ]
    where
      here :
          j ≡ i
          → (b : Bool) → get dir' j ≡ (if b then some (target bit id0 id1 j) else get dir₁ j)
          → get dir' j ≡ (if is_in j (i ∷ rest) then some (target bit id0 id1 j) else get dir j)
      here p true q = rw (eq→== j i p) q
      here p false q =
          let new : get dir₁ j ≡ some (target bit id0 id1 i) = e ∙ (rw (eq→== j i p) refl) in
          rw (eq→== j i p) (q ∙ new ∙ ap (λ x. some (target bit id0 id1 x)) (sym p))

-- The places in a list, all of them below 512, get the pages of a split without a panic: each place in
-- the list has the first page if its number has the split's bit and else the second one, any other
-- place has its old page, and the directory stays well formed.
pub repoint-Repointed :
    (bit : ℕ) (id0 id1 : PageId) (places : List ℕ) (dir : Directory)
    → IsValid dir
    → IsI32 id0
    → IsI32 id1
    → All (λ i. i < page_ids_size_u32) places
    → (dir' : Directory) × (repoint bit id0 id1 places dir ≡ some dir')
      × Repointed bit id0 id1 places dir dir'
unfolding repoint Repointed target
repoint-Repointed bit id0 id1 [] dir v h0 h1 small = (dir, refl, (v, λ j. refl))
repoint-Repointed bit id0 id1 (i ∷ rest) dir v h0 h1 (lt, small) =
    let (dir₁, e, v₁, _) = inserted bit id0 id1 h0 h1 dir i i v lt in
    let (dir', e', (v', at)) = repoint-Repointed bit id0 id1 rest dir₁ v₁ h0 h1 small in
    (
      dir',
      ap (λ o. o >>= repoint bit id0 id1 rest) e ∙ e',
      (
        v',
        λ j.
            step bit id0 id1 h0 h1 dir dir₁ dir' i j rest
              (get-inserted bit id0 id1 h0 h1 dir i v lt dir₁ e j) (at j),
      ),
    )
