-- ===== src/Tests/Tuples.antt =====
-- An empty page of tuples, and one tuple of three bytes.
use dbstorage.Base.{
  ℕ, ◌+◌, ◌-◌, ◌^◌, ◌≡◌, true, false, some, none, List, [], arith, length, replicate,
  length-replicate, last,
}
use dbstorage.Base.Panic.{◌>>=◌}
use dbstorage.Bytes.Signed.{negsuc}
use dbstorage.Page.{zeroed, length-zeroed}
use dbstorage.Table.Slot.{Slot, slot_from, slot_bytes, TupleMeta}
use dbstorage.Table.Slot.Laws.{slot_from-slot_bytes}
use dbstorage.Table.Node.{Node, insert, low_water, next_tuple_offset}
use dbstorage.Table.Node.Laws
use dbstorage.Table.Node.Laws.{
  Fits, get-insert_self, get-insert_old, insert_refused, insert_underflow,
}

abbrev deleted : Slot
deleted = record { offset = 4000; len = 96; meta = record { deleted = true } }

slot_from-slot_bytes_example :
    (slot_bytes deleted >>= slot_from) ≡ some (record deleted { meta = record { deleted = false } })
slot_from-slot_bytes_example =
    slot_from-slot_bytes deleted (record { offset_word = omega arith; len_word = omega arith })

abbrev empty : Node
empty = record { page = zeroed; next_page_id = negsuc 0; deleted_tuples_len = 0; slots = [] }

empty-IsValid : Laws.IsValid empty
unfolding low_water last
empty-IsValid = record {
  sized = length-zeroed;
  tuples = tt;
  slots_fit = omega arith;
  mark = omega arith;
}

abbrev live : TupleMeta
live = record { deleted = false }

-- A tuple that leaves no room for its slot.
abbrev huge : List ℕ
huge = replicate 4097 0

huge-length : length huge ≡ 4097
huge-length = length-replicate {A = ℕ} 4097 0

insert_underflow_example :
    (next_tuple_offset empty huge ≡ some (4096 + 2 ^ 64 - length huge))
    × (insert empty huge live ≡ none)
unfolding low_water last
insert_underflow_example =
    insert_underflow empty huge live empty-IsValid (omega (arith, huge-length))
      (omega (arith, huge-length))
