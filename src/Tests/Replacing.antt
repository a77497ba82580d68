-- ===== src/Tests/Replacing.antt =====
-- A replacer with two frames, one of which was used twice.
use dbstorage.Base.{ℕ, ◌≡◌, refl, Option, some, none, arith}
use dbstorage.HashMap.{lookup, insert}
use dbstorage.Replacer.{LrukReplacer, new, record_access, pin, unpin, remove_node, evict}
use dbstorage.Replacer.Nodes.{FrameId}
use dbstorage.Replacer.Candidacy.{IsValid}
use dbstorage.Replacer.Eviction.{Choice, evict-Choice, evict-one}
use dbstorage.Replacer.Invariant.{new-IsValid, methods-IsValid}

used-IsValid : (k : ℕ) → IsValid (record_access (new k) 3)
unfolding new
used-IsValid k = (methods-IsValid (new k) 3 (new-IsValid k) (omega arith)).3

-- Frame 3 is used, then frame 4.
abbrev both_used : ℕ → LrukReplacer
both_used k = record_access (record_access (new k) 3) 4

both_used-IsValid : (k : ℕ) → IsValid (both_used k)
unfolding new record_access lookup
both_used-IsValid k = (methods-IsValid (record_access (new k) 3) 4 (used-IsValid k) (omega arith)).3

evict-Choice_example :
    (o : Option FrameId) × (evict (both_used 2) ≡ some o) × Choice (both_used 2) o
unfolding new record_access lookup insert
evict-Choice_example = evict-Choice (both_used 2) (both_used-IsValid 2) (omega arith)

evict-one_example : evict (both_used 1) ≡ some none
unfolding new record_access lookup insert
evict-one_example = evict-one (both_used 1) (both_used-IsValid 1) refl

methods-IsValid_example :
    IsValid (pin (both_used 2) 3)
    × IsValid (unpin (both_used 2) 3)
    × IsValid (remove_node (both_used 2) 3)
    × IsValid (record_access (both_used 2) 3)
unfolding new record_access lookup insert
methods-IsValid_example = methods-IsValid (both_used 2) 3 (both_used-IsValid 2) (omega arith)
