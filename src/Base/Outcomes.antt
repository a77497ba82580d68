-- ===== src/Base/Outcomes.antt =====
-- How a call ends: with a value, with an error of the page cache, or with a panic.
use mathlib.Core.Option.{Option, none, some}

-- `std::io::ErrorKind`, of which the code only passes values on.
abbrev pub ErrorKind : Type 0
ErrorKind = Prim.Native.Nat.ℕ

-- `PageCacheError`.
pub data PageCacheError : Type 0 where
  disk : ErrorKind → PageCacheError
  out_of_memory : PageCacheError

pub data Outcome {ℓ} (A : Type ℓ) : Type ℓ where
  ok : A → Outcome A
  err : PageCacheError → Outcome A
  panic : Outcome A

-- A panic of pure code inside a call.
abbrev pub or_panic {ℓ} : {A : Type ℓ} → Option A → Outcome A
or_panic none = panic
or_panic (some a) = ok a
