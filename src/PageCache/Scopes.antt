-- ===== src/PageCache/Scopes.antt =====
-- What the clients of the page cache do with a pin.
use dbstorage.Base.{Bool, false, ◌≡◌, ap, Option, ok, or_panic, set, true}
use dbstorage.Base.Panic.{assert}
use dbstorage.Bytes.Signed.{◌=ℤ◌}
use dbstorage.Page.{PageBuf, PageInner}
use dbstorage.Disk.{Disk}
use dbstorage.PageCache.{PageCache, Pin, Call, ◌>>=◌, ◌>>◌, pure, page_at, drop_pin}

-- A step that may panic.
abbrev pub lift : {D A : Type 0} → Option A → Call D A
lift o s = (or_panic o, s)

-- The pin is dropped at the end of its scope, however that ends.
abbrev pub finally : {D A : Type 0} → Disk D → Pin → Call D A → Call D A
finally disk p m s = let (r, s') = m s in (r, (drop_pin disk p s').1)

-- `writep!` on the whole page, by a guard that is held.
unfoldable pub overwrite : {D : Type 0} → Pin → PageBuf → Call D (Unit {0})
unfolding page_at
overwrite pin content = do
  p ← page_at pin.i
  λ s.
      (ok tt, record s { pages = set s.pages pin.i (record p { content = content; dirty = true }) })

-- `Pin::write`: the frame must still hold the pin's page.
unfoldable pub write_guard : {D : Type 0} → Pin → Call D PageInner
unfolding page_at
write_guard pin = do p ← page_at pin.i; lift (assert (p.id =ℤ pin.id)); pure p

-- A test whose answer is known.
module _ {D A : Type 0} (b : Bool) (x y : Call D A) (s : PageCache D) where
  pub pick_yes : b ≡ true → (elim b as (λ _. Call D A) [ false ↦ x | true ↦ y ]) s ≡ y s
  pick_yes e = ap (λ b'. (elim b' as (λ _. Call D A) [ false ↦ x | true ↦ y ]) s) e

  pub pick_no : b ≡ false → (elim b as (λ _. Call D A) [ false ↦ x | true ↦ y ]) s ≡ x s
  pick_no e = ap (λ b'. (elim b' as (λ _. Call D A) [ false ↦ x | true ↦ y ]) s) e
