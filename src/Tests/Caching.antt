-- ===== src/Tests/Caching.antt =====
-- A page cache over a disk of one page.
use dbstorage.Base.{
  inl, inr, arith, ℕ, ◌≡◌, ◌≢◌, refl, true, false, some, [], ◌∷◌, ok, err, disk, replicate, range,
  slice, copy_from_slice, put, length-replicate,
}
use dbstorage.Bytes.Signed.{pos}
use dbstorage.Page.{PageId, PageBuf, page_size, zeroed, default_page}
use dbstorage.Disk.{Disk, done, fail, Memory, memory, read_memory, write_memory, offset_of}
use dbstorage.Disk.MemoryLaws.{memory-IsLawful}
use dbstorage.HashMap.{lookup, insert, remove, int_key, IsDistinct}
use dbstorage.Replacer
use dbstorage.PageCache.{
  PageCache, cache_size, Pin, new, fetch_page, read_pin, write_pin, flush_page, try_get_page, load,
  fetch_from, pick_frame, pick_from, page_at, found_page, take_over, install, write_back, remap,
  read_in, fill, write_out, mark_clean, flush_from, flush_frame,
}
use dbstorage.PageCache.Consistency.{no_page, content, IsConsistent}
use dbstorage.PageCache.Initial.{new-IsConsistent}
use dbstorage.PageCache.Access.{fetch_page-read_pin, content-write_pin}
use dbstorage.PageCache.Calls.{Brought, try_get_page-Brought}
use dbstorage.PageCache.Picks.{relabel}
use dbstorage.PageCache.Progress.{IsHoused, HasFrame, Writes, fetch_page-HasFrame}
use dbstorage.PageCache.Flush.{flush_page-Flushed}
use dbstorage.PageCache.Faults.{load-read_failed, load-drops}
use dbstorage.PageCache.FreeFrames.{pop, default_free, range_from}

abbrev one_page : Memory
one_page = record { buf = zeroed; size = page_size }

abbrev start : PageCache Memory
start = new one_page (Replacer.new 2) (pos 0)

start-IsConsistent : IsConsistent memory start
start-IsConsistent = (new-IsConsistent memory one_page (Replacer.new 2) (pos 0) (pos 0)).0

new-IsConsistent_example :
    IsConsistent memory start × (content memory start (pos 0) ≡ memory.read_page one_page (pos 0))
new-IsConsistent_example = new-IsConsistent memory one_page (Replacer.new 2) (pos 0) (pos 0)

zero_is_page : pos 0 ≢ no_page
zero_is_page h = cc

-- The cache after page 0 was fetched.
fetched : PageCache Memory
fetched = (fetch_page memory (pos 0) start).1

abbrev zero_pin : Pin
zero_pin = record { i = 63; id = pos 0 }

fetches : fetch_page memory (pos 0) start ≡ (ok zero_pin, fetched)
unfolding fetched fetch_page fetch_from try_get_page pick_frame pick_from pop load page_at
    found_page take_over install write_back remap read_in fill new default_free range_from
    default_page memory read_memory offset_of range slice insert remove lookup zeroed
fetches = refl

fetch_page-read_pin_example :
    (buf : PageBuf) × (read_pin memory zero_pin fetched ≡ (ok buf, fetched))
    × (content memory start (pos 0) ≡ done buf)
    × IsConsistent memory fetched
    × (lookup (pos 0) fetched.page_table ≡ some 63)
    × ((j : PageId) → content memory fetched j ≡ content memory start j)
fetch_page-read_pin_example =
    fetch_page-read_pin memory memory-IsLawful start (pos 0) start-IsConsistent zero_is_page fetches

fetched-IsConsistent : IsConsistent memory fetched
fetched-IsConsistent = fetch_page-read_pin_example.3

fetched-pinned : lookup (pos 0) fetched.page_table ≡ some 63
fetched-pinned = fetch_page-read_pin_example.4

misses : try_get_page memory (pos 0) start ≡ (ok zero_pin, fetched)
unfolding fetched fetch_page fetch_from new lookup
misses = fetches

try_get_page-Brought_example : Brought memory memory-IsLawful start (pos 0) zero_pin fetched
unfolding new lookup
try_get_page-Brought_example =
    try_get_page-Brought memory memory-IsLawful start (pos 0) start-IsConsistent refl zero_is_page
      misses

-- No frame is free, and the replacer may give up the only one that it knows.
abbrev crowded : PageCache Memory
crowded = record start {
  free = record { free = range_from 0 cache_size; tail = 0 };
  replacer = record {
    nodes = (7, record { i = 7; history = 3 ∷ []; pin = 0 }) ∷ [];
    current_ts = 4;
    k = 2;
  };
}

crowded-IsConsistent : IsConsistent memory crowded
crowded-IsConsistent =
    relabel memory start crowded.free crowded.replacer start.next_page_id start-IsConsistent

crowded-IsHoused : IsHoused crowded
unfolding lookup range_from new default_page
crowded-IsHoused = record {
  free_within = omega arith;
  free_frames = tt;
  node_frames = λ i node e. ground arith;
  valid = record {
    distinct = (refl, tt);
    entries = ((refl, omega arith), tt);
    clock = omega arith;
  };
  depth = omega arith;
}

crowded-HasFrame : HasFrame crowded
crowded-HasFrame = inr (λ h. h.0 refl)

crowded-shown : content memory crowded (pos 0) ≡ done zeroed
unfolding lookup new default_page memory read_memory offset_of range slice zeroed
crowded-shown = refl

-- The frames of a new cache hold no page.
crowded-Writes : Writes memory crowded
unfolding lookup new
crowded-Writes i p at dirty = elim (crowded-IsConsistent.owned i p at) [
  | inl (_, clean) ↦ absurd (cc (clean, dirty))
  | inr mine ↦ absurd (cc (mine))
]

fetch_page-HasFrame_example :
    (q : Pin) × (s' : PageCache Memory) × (fetch_page memory (pos 0) crowded ≡ (ok q, s'))
    × (read_pin memory q s' ≡ (ok zeroed, s'))
    × (lookup (pos 0) s'.page_table ≡ some q.i)
    × IsConsistent memory s'
    × ((j : PageId) → content memory s' j ≡ content memory crowded j)
fetch_page-HasFrame_example =
    fetch_page-HasFrame memory memory-IsLawful crowded (pos 0) zeroed crowded-IsConsistent
      crowded-IsHoused (inl crowded-HasFrame) zero_is_page crowded-shown crowded-Writes

-- A page of ones.
abbrev ones_page : PageBuf
ones_page = replicate page_size 1

content-write_pin_example :
    (s' : PageCache Memory) × (write_pin memory zero_pin ones_page fetched ≡ (ok tt, s'))
    × IsConsistent memory s'
    × (content memory s' (pos 0) ≡ done ones_page)
content-write_pin_example =
    content-write_pin memory fetched zero_pin ones_page (pos 0) fetched-IsConsistent fetched-pinned
      (length-replicate {A = ℕ} page_size 1)

flushed : PageCache Memory
flushed = (flush_page memory (pos 0) fetched).1

flushes : flush_page memory (pos 0) fetched ≡ (ok tt, flushed)
unfolding fetched flushed flush_page flush_from flush_frame write_out mark_clean fetch_page
    fetch_from try_get_page pick_frame pick_from pop load page_at found_page take_over install
    write_back remap read_in fill new default_free range_from default_page memory read_memory
    write_memory offset_of range slice copy_from_slice put insert remove lookup zeroed
flushes = refl

flush_page-Flushed_example :
    IsConsistent memory flushed
    × ((j : PageId) → content memory flushed j ≡ content memory fetched j)
    × (memory.read_page flushed.disk (pos 0) ≡ content memory fetched (pos 0))
flush_page-Flushed_example =
    flush_page-Flushed memory fetched (pos 0) memory-IsLawful fetched-IsConsistent flushes

-- A disk on which every read fails.
abbrev broken : Disk (Unit {0})
broken = record { read_page = λ d id. fail 5; write_page = λ d id buf. (done tt, d) }

abbrev empty_cache : PageCache (Unit {0})
empty_cache = new tt (Replacer.new 2) (pos 0)

load-read_failed_example :
    (s' : PageCache (Unit {0})) × (load broken 0 (pos 4) empty_cache ≡ (err (disk 5), s'))
    × (content broken s' (pos 4) ≡ done default_page.content)
unfolding new default_page
load-read_failed_example =
    load-read_failed broken empty_cache 0 (pos 4) default_page 5 tt refl refl refl

-- Page 7 lives in frame 1 with ones; frame 0 still has its id from before.
abbrev stale : PageCache Memory
stale = record start {
  pages =
      record { id = pos 7; dirty = false; content = zeroed }
      ∷ record { id = pos 7; dirty = true; content = ones_page }
      ∷ [];
  page_table = (pos 7, 1) ∷ [];
}

stale-IsDistinct : IsDistinct stale.page_table
unfolding lookup
stale-IsDistinct = (refl, tt)

zero_is_other : pos 0 ≢ pos 7
zero_is_other h = absurd (cc)

zero_reads : memory.read_page stale.disk (pos 0) ≡ done zeroed
unfolding memory read_memory offset_of range slice new zeroed
zero_reads = refl

load-drops_example :
    (s' : PageCache Memory) × (load memory 0 (pos 0) stale
      ≡ (ok (record { i = 0; id = pos 0 }), s'))
    × (content memory stale (pos 7) ≡ done ones_page)
    × (content memory s' (pos 7) ≡ memory.read_page stale.disk (pos 7))
unfolding lookup memory read_memory offset_of range slice new
load-drops_example =
    load-drops memory stale 0 1 (pos 0) (record { id = pos 7; dirty = false; content = zeroed })
      (record { id = pos 7; dirty = true; content = ones_page }) zeroed stale-IsDistinct refl refl
      refl refl zero_is_other zero_reads
