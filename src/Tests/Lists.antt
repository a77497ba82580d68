-- ===== src/Tests/Lists.antt =====
-- A table of one empty page, in a page cache over a disk in memory.
use dbstorage.Base.{
  ℕ, ◌<◌, ◌≡◌, refl, false, some, List, [], ◌∷◌, arith, length, last, range, slice, put, length-put,
  ok,
}
use dbstorage.Bytes.Words.{from_be_bytes}
use dbstorage.Bytes.Signed.{pos, i32_of_bits}
use dbstorage.Page.{PageBuf, page_size, zeroed, length-zeroed, default_page}
use dbstorage.Disk.{Memory, memory, read_memory, offset_of}
use dbstorage.Disk.MemoryLaws.{memory-IsLawful}
use dbstorage.HashMap.{lookup, insert, remove, int_key}
use dbstorage.Replacer
use dbstorage.PageCache.{
  PageCache, new, fetch_page, try_get_page, load, fetch_from, pick_frame, pick_from, page_at,
  found_page, take_over, install, write_back, remap, read_in, fill,
}
use dbstorage.PageCache.Consistency.{IsConsistent}
use dbstorage.PageCache.Initial.{new-IsConsistent}
use dbstorage.PageCache.Access.{fetch_page-read_pin}
use dbstorage.PageCache.FreeFrames.{pop, default_free, range_from}
use dbstorage.PageCache.Views
use dbstorage.Table.Slot.{TupleMeta, RId}
use dbstorage.Table.Node
use dbstorage.Table.Node.{Node, Tuple, from_page, to_page, read_slots, low_water}
use dbstorage.Table.Node.Laws
use dbstorage.Table.Node.Laws.{Fits}
use dbstorage.Table.Node.RoundTrip.{from_page-to_page_table}
use dbstorage.Table.TupleList
use dbstorage.Table.TupleList.{TupleList}
use dbstorage.Table.TupleList.Insertion.{IsTidy, table_node, stored, get-insert_tuple}

abbrev one_page : Memory
one_page = record { buf = zeroed; size = page_size }

abbrev start : PageCache Memory
start = new one_page (Replacer.new 2) (pos 1)

fetched : PageCache Memory
fetched = (fetch_page memory (pos 0) start).1

fetches : fetch_page memory (pos 0) start ≡ (ok (record { i = 63; id = pos 0 }), fetched)
unfolding fetched fetch_page fetch_from try_get_page pick_frame pick_from pop load page_at
    found_page take_over install write_back remap read_in fill new default_free range_from
    default_page memory read_memory offset_of range slice insert remove lookup zeroed
fetches = refl

fetched-IsConsistent : IsConsistent memory fetched
fetched-IsConsistent =
    (fetch_page-read_pin memory memory-IsLawful start (pos 0)
      (new-IsConsistent memory one_page (Replacer.new 2) (pos 1) (pos 0)).0 (λ h. cc) fetches).3

abbrev blank : Node
blank = record { page = zeroed; next_page_id = pos 0; deleted_tuples_len = 0; slots = [] }

blank_read : from_page zeroed ≡ some blank
unfolding from_page read_slots range slice from_be_bytes i32_of_bits zeroed
blank_read = refl

framed : table_node memory fetched (pos 0) ≡ some blank
unfolding fetched fetch_page fetch_from try_get_page pick_frame pick_from pop load page_at
    found_page take_over install write_back remap read_in fill new default_free range_from
    default_page memory read_memory offset_of range slice insert remove lookup zeroed
framed = blank_read

blank-IsTidy : IsTidy blank
unfolding low_water last
blank-IsTidy = record {
  valid = record {
    sized = length-zeroed;
    tuples = tt;
    slots_fit = omega arith;
    mark = omega arith;
  };
  plain = tt;
  next_ok = omega arith;
  small = omega arith;
}

abbrev table : TupleList
table = record { first_page_id = pos 0; last_page_id = pos 0 }

abbrev tuple : List ℕ
tuple = 1 ∷ 2 ∷ 3 ∷ []

abbrev live : TupleMeta
live = record { deleted = false }

blank-Fits : Fits blank tuple
unfolding low_water last
blank-Fits = omega arith

abbrev first_rid : RId
first_rid = record { page_id = pos 0; slot_id = 0 }

get-insert_tuple_example :
    (s' : PageCache Memory) × (TupleList.insert memory table tuple live fetched
      ≡ (ok (some first_rid, table), s'))
    × IsConsistent memory s'
    × ((a : Replacer.LrukReplacer) × (TupleList.get memory first_rid s' ≡ (
      ok (some (live, record { rid = first_rid; content = tuple })),
      Views.noted memory s' a,
    )))
    × ((r : RId) (o : TupleMeta × Tuple)
        → stored memory fetched r ≡ some o
        → (a : Replacer.LrukReplacer) × (TupleList.get memory r s'
            ≡ (ok (some o), Views.noted memory s' a)))
get-insert_tuple_example =
    get-insert_tuple memory fetched table blank tuple live fetched-IsConsistent framed blank-IsTidy
      blank-Fits refl (omega arith)

-- The page with one tuple.
abbrev used : Node
used = record blank {
  slots = record { offset = 4093; len = 3; meta = live } ∷ [];
  page = put zeroed 4093 tuple;
}

used-IsValid : Laws.IsValid used
unfolding low_water last
used-IsValid = record {
  sized = omega (arith, length-put zeroed 4093 tuple, length-zeroed);
  tuples = ((omega arith, omega arith), tt);
  slots_fit = omega arith;
  mark = omega arith;
}

used_mark : low_water used ≡ 4093
unfolding low_water last
used_mark = refl

from_page-to_page_table_example :
    (image : PageBuf) × (to_page used ≡ some image)
    × (length image ≡ page_size)
    × (from_page image ≡ some (record used { page = image }))
    × ((r : RId) → r.slot_id < 1 → Node.get (record used { page = image }) r ≡ Node.get used r)
from_page-to_page_table_example =
    from_page-to_page_table used used-IsValid ((omega arith, omega arith, refl), tt) (omega arith)
      (omega arith) (λ _. omega (arith, used_mark))
