-- ===== src/Table/TupleList/Laws.antt =====
-- src/table/list.rs: where the iterator ends.
use dbstorage.Base.{◌+◌, ◌-◌, ◌%◌, ◌^◌, ◌<◌, ◌≡◌, refl, some, none, arith, eq→==, ok}
use dbstorage.Bytes.Signed.{=ℤ_refl}
use dbstorage.Disk.{Disk}
use dbstorage.PageCache.{PageCache}
use dbstorage.Table.Node.{Node}
use dbstorage.Table.TupleList.{Iter, advance, next_item}

-- From the last tuple before the end, whatever the page holds, the iterator goes to the end exactly; and
-- at the end the next call gives no item, leaves the iterator and touches no page.
pub next_item-end :
    {D : Type 0} (disk : Disk D) (s : PageCache D) (it : Iter) (node : Node)
    → it.r_id.page_id ≡ it.end.page_id
    → it.r_id.slot_id + 1 ≡ it.end.slot_id
    → it.end.slot_id < 2 ^ 32
    → (advance it node ≡ some (record it { r_id = it.end }))
      × (next_item disk (record it { r_id = it.end }) s
          ≡ (ok (none, record it { r_id = it.end }), s))
unfolding advance next_item
next_item-end disk s it node page slot small =
    let last : it.r_id.slot_id ≡ (it.end.slot_id + 2 ^ 32 - 1) % 2 ^ 32 = omega arith in
    let step : (it.r_id.slot_id + 1) % 2 ^ 32 ≡ it.end.slot_id = omega arith in
    (
      rw
          (
            eq→== it.r_id.slot_id ((it.end.slot_id + 2 ^ 32 - 1) % 2 ^ 32) last,
            step,
            page,
            =ℤ_refl it.end.page_id,
          )
          refl,
      rw (=ℤ_refl it.end.page_id, eq→== it.end.slot_id it.end.slot_id refl) refl,
    )
