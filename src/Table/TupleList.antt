-- ===== src/Table/TupleList.antt =====
-- src/table/list.rs: a table as a chain of pages of tuples, over the page cache.
pub mod Laws
pub mod Insertion
use dbstorage.Base.{
  ℕ, suc, ◌+◌, ◌-◌, ◌%◌, ◌^◌, Bool, true, false, not, ◌&&◌, ◌||◌, Option, some, none, List, ltb,
  ◌==◌, if◌then◌else◌, Outcome, ok, err, panic,
}
use dbstorage.Base.Panic.{assert}
use dbstorage.Bytes.Signed.{pos, negsuc, ◌=ℤ◌}
use dbstorage.Page.{PageId, PageInner}
use dbstorage.Disk.{Disk}
use dbstorage.PageCache.{
  PageCache, Pin, Call, ◌>>=◌, ◌>>◌, pure, page_at, fetch_page, new_page, read_pin,
}
use dbstorage.PageCache.Scopes.{lift, finally, overwrite}
use dbstorage.Table.Slot.{RId, TupleMeta}
use dbstorage.Table.Node
use dbstorage.Table.Node.{Node, Tuple, from_page, to_page}

-- No page.
abbrev pub no_table_page : PageId
no_table_page = negsuc 0

pub record TableMeta : Type 0 where
  pub first_page_id : PageId
  pub last_page_id : PageId

unfoldable pub default_meta : TableMeta
default_meta = record { first_page_id = no_table_page; last_page_id = no_table_page }

-- `List`, less the cache that it shares.
pub record TupleList : Type 0 where
  pub first_page_id : PageId
  pub last_page_id : PageId

-- `Iter`, less the list.
pub record Iter : Type 0 where
  pub r_id : RId
  pub end : RId

abbrev pub same_rid : RId → RId → Bool
same_rid a b = a.page_id =ℤ b.page_id && a.slot_id == b.slot_id

-- Where `next` goes from a tuple, given the node of its page: `none` ends the iteration without the
-- tuple.
unfoldable pub advance : Iter → Node → Option Iter
advance it node =
    let r = it.r_id in
    let onward : RId = record r { slot_id = (r.slot_id + 1) % 2 ^ 32 } in
    if r.page_id =ℤ it.end.page_id && r.slot_id == (it.end.slot_id + 2 ^ 32 - 1) % 2 ^ 32
    then some (record it { r_id = onward })
    else if ltb ((r.slot_id + 1) % 2 ^ 32) (Node.len node)
    then some (record it { r_id = onward })
    else if node.next_page_id =ℤ pos 0
    then none
    else some (record it { r_id = record { page_id = node.next_page_id; slot_id = 0 } })

module _ {D : Type 0} (disk : Disk D) where
  -- One new page, the first and the last.
  unfoldable pub default_list : Call D TupleList
  default_list = do
    page ← new_page disk
    finally disk page (pure (record { first_page_id = page.id; last_page_id = page.id }))

  unfoldable pub new : TableMeta → Call D TupleList
  unfolding default_list
  new meta =
      let no_first = meta.first_page_id =ℤ no_table_page in
      let no_last = meta.last_page_id =ℤ no_table_page in
      lift (assert ((no_first && no_last) || (not no_first && not no_last)))
      >> (if no_first || no_last
          then default_list
          else pure
              (record { first_page_id = meta.first_page_id; last_page_id = meta.last_page_id }))

  unfoldable pub read_node : Pin → Call D Node
  read_node pin = do buf ← read_pin disk pin; lift (from_page buf)

  -- The assertion of `Pin::write`.
  unfoldable pub guard : Pin → Call D PageInner
  unfolding page_at
  guard pin = do p ← page_at pin.i; lift (assert (p.id =ℤ pin.id)); pure p

  unfoldable pub write_node : Pin → Call D Node
  unfolding guard
  write_node pin = do p ← guard pin; lift (from_page p.content)

  unfoldable pub store_node : Pin → Node → Call D (Unit {0})
  unfolding overwrite
  store_node pin node = do image ← lift (to_page node); overwrite pin image

  unfoldable pub iter : TupleList → Call D Iter
  unfolding read_node
  iter l = do
    page ← fetch_page disk l.last_page_id
    finally disk page (do
      node ← read_node page
      pure (record {
        r_id = record { page_id = l.first_page_id; slot_id = 0 };
        end = record { page_id = l.last_page_id; slot_id = Node.len node };
      }))

  -- The tuple goes to the first slot of a new page, to which the full one is linked; a tuple that is
  -- refused there too is `unreachable!`.
  unfoldable pub insert_new :
      TupleList → List ℕ → TupleMeta → Pin → Node → Pin → Call D (Option RId × TupleList)
  unfolding write_node store_node
  insert_new l tuple_data meta page node npage = do
    _ ← guard npage
    store_node page (record node { next_page_id = npage.id })
    fresh ← write_node npage
    r ← lift (Node.insert fresh tuple_data meta)
    elim r.0 [
      | none ↦ λ s. (panic, s)
      | some slot_id ↦ (do
        store_node npage r.1
        pure (
          some (record { page_id = npage.id; slot_id = slot_id }),
          record l { last_page_id = npage.id },
        ))
    ]

  -- What `insert` does once the last page's node has answered: with a slot, or with `None`, which on an
  -- empty page is a `todo!`.
  unfoldable pub insert_answer :
      TupleList → List ℕ → TupleMeta → Pin → Node → Option ℕ → Call D (Option RId × TupleList)
  unfolding store_node insert_new write_node
  insert_answer l tuple_data meta page node (some slot_id) = do
    store_node page node
    pure (some (record { page_id = l.last_page_id; slot_id = slot_id }), l)
  insert_answer l tuple_data meta page node none = do
    lift (assert (not (Node.len node == 0)))
    npage ← new_page disk
    finally disk npage (insert_new l tuple_data meta page node npage)

  unfoldable pub insert : TupleList → List ℕ → TupleMeta → Call D (Option RId × TupleList)
  unfolding write_node insert_answer
  insert l tuple_data meta = do
    page ← fetch_page disk l.last_page_id
    finally disk page (do
      node ← write_node page
      r ← lift (Node.insert node tuple_data meta)
      insert_answer l tuple_data meta page r.1 r.0)

  unfoldable pub get : RId → Call D (Option (TupleMeta × Tuple))
  unfolding read_node
  get r_id = do
    page ← fetch_page disk r_id.page_id
    finally disk page (do
      node ← read_node page
      t ← lift (Node.get node r_id)
      pure (some (t.0, record t.1 { rid = r_id })))

  -- An error as a value; a panic stays one.
  abbrev pub attempt : {A : Type 0} → Call D A → Call D (Outcome A)
  attempt m s =
      let (r, s') = m s in
      elim r [ ok a ↦ (ok (ok a), s') | err e ↦ (ok (err e), s') | panic ↦ (panic, s') ]

  -- The second half of `next`, with the tuple or the error of the first.
  unfoldable pub step :
      Iter → Outcome (TupleMeta × Tuple) → Call D (Option (Outcome (TupleMeta × Tuple)) × Iter)
  unfolding read_node advance
  step it result = do
    page ← attempt (fetch_page disk it.r_id.page_id)
    elim page [
      | err e ↦ pure (some (err e), it)
      | panic ↦ λ s. (panic, s)
      | ok pin ↦ finally disk pin (do
        node ← read_node pin
        elim (advance it node) [ none ↦ pure (none, it) | some it' ↦ pure (some result, it') ])
    ]

  unfoldable pub after_get :
      Iter
      → Outcome (Option (TupleMeta × Tuple))
      → Call D (Option (Outcome (TupleMeta × Tuple)) × Iter)
  unfolding step
  after_get it (ok none) = pure (none, it)
  after_get it (ok (some t)) = step it (ok t)
  after_get it (err e) = step it (err e)
  after_get it panic = λ s. (panic, s)

  -- `Iter::next`: the item, which may be an error, and the iterator.
  unfoldable pub next_item : Iter → Call D (Option (Outcome (TupleMeta × Tuple)) × Iter)
  unfolding get after_get
  next_item it =
      if same_rid it.end it.r_id
      then pure (none, it)
      else (do result ← attempt (get it.r_id); after_get it result)
