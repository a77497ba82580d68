-- ===== src/Disk/MemoryLaws.antt =====
-- `Memory` keeps the contract of a disk.
use dbstorage.Base.{
  ℕ, ◌+◌, ◌-◌, ◌*◌, ◌≤◌, ◌≡◌, ◌≢◌, refl, ap, ◌∙◌, ◌⊎◌, inl, inr, Option, some, none, arith, length,
  slice, put, range, range-put_before, range-put_after, range_inv, copy_from_slice, Option-cases,
  copy_from_slice_inv, range_lem, length-put, length-slice, slice-put_self,
}
use native.Mathlib.Nat.{le_total}
use dbstorage.Base.Panic.{◌>>=◌}
use dbstorage.Bytes.Signed.{pos, negsuc}
use dbstorage.Page.{PageId, PageBuf, page_size}
use dbstorage.Disk.{
  IsLawful, IoResult, done, Memory, offset_of, from_option, read_memory, with_state, write_memory,
  memory,
}

-- A page's range, when the assertion passes.
offset_of_inv :
    (m : Memory) (id : PageId) {o : ℕ}
    → offset_of m id ≡ some o
    → (n : ℕ) × (id ≡ pos n) × (o ≡ page_size * n) × (page_size * n + page_size ≤ m.size)
unfolding offset_of
offset_of_inv m (pos n) h = (n, refl, ground arith, ground arith)
offset_of_inv m (negsuc n) h = cc

write_at : Memory → PageBuf → ℕ → Option Memory
write_at m buf o = do
  out ← copy_from_slice m.buf o (o + page_size) buf
  some (record m { buf = out })

refused : (m m' : Memory) → ¬ (with_state m none ≡ (done tt, m'))
refused m m' h = cc

not_done : {buf : PageBuf} → ¬ (from_option {A = PageBuf} none ≡ done buf)
not_done h = cc

write_at_inv :
    (m : Memory) (buf : PageBuf) (o? : Option ℕ) {m' : Memory}
    → with_state m (o? >>= write_at m buf) ≡ (done tt, m')
    → (o : ℕ) × (o? ≡ some o)
      × (o + length buf ≡ o + page_size)
      × (o + page_size ≤ length m.buf)
      × (m' ≡ record m { buf = put m.buf o buf })
unfolding write_at
write_at_inv m buf none h = cc
write_at_inv m buf (some o) {m' = m'} h =
    elim (Option-cases (copy_from_slice m.buf o (o + page_size) buf)) [
      | inl e ↦ absurd (refused m m' (rw (e, ◌>>=◌) at h))
      | inr (out, e) ↦
          let (size, room, same) = copy_from_slice_inv m.buf o (o + page_size) buf e in
          (o, refl, size, room, ground arith)
    ]

write_memory_inv :
    (m : Memory) (id : PageId) (buf : PageBuf) {m' : Memory}
    → write_memory m id buf ≡ (done tt, m')
    → (o : ℕ) × (offset_of m id ≡ some o)
      × (o + length buf ≡ o + page_size)
      × (o + page_size ≤ length m.buf)
      × (m' ≡ record m { buf = put m.buf o buf })
unfolding write_memory write_at
write_memory_inv m id buf h = write_at_inv m buf (offset_of m id) h

-- The place of a page depends on the size of the memory alone.
offset_of-put :
    (m : Memory) (out : PageBuf) (id : PageId)
    → offset_of (record m { buf = out }) id ≡ offset_of m id
unfolding offset_of
offset_of-put m out (pos n) = refl
offset_of-put m out (negsuc n) = refl

read_memory_at :
    (m : Memory) (id : PageId) (o : ℕ)
    → offset_of m id ≡ some o
    → o + page_size ≤ length m.buf
    → read_memory m id ≡ done (slice m.buf o page_size)
unfolding read_memory
read_memory_at m id o e room =
    let width : o + page_size - o ≡ page_size = omega arith in
    rw (e, range_lem m.buf o (o + page_size) (omega arith) room, width)

-- A page reads back as it was written last.
read_memory-write_memory :
    (m m' : Memory) (id : PageId) (buf : PageBuf)
    → length buf ≡ page_size
    → write_memory m id buf ≡ (done tt, m')
    → read_memory m' id ≡ done buf
read_memory-write_memory m m' id buf size h =
    let (o, e, _, room, same) = write_memory_inv m id buf h in
    let out : PageBuf = put m.buf o buf in
    rw
      (
        same,
        read_memory_at (record m { buf = out }) id o (offset_of-put m out id ∙ e)
            (omega (arith, length-put m.buf o buf)),
        ← size,
      )
      (ap done (slice-put_self m.buf o buf (omega arith)))

-- Two pages that both have a place lie apart.
apart :
    (n k : ℕ)
    → pos k ≢ pos n
    → (page_size * k + page_size ≤ page_size * n) ⊎ (page_size * n + page_size ≤ page_size * k)
apart n k ne = ground (arith, le_total n k)

read_at : Memory → Option ℕ → IoResult PageBuf
read_at m o? = from_option (o? >>= λ o. range m.buf o (o + page_size))

read_at_other :
    (m : Memory) (buf : PageBuf) (n k : ℕ) (o? : Option ℕ)
    → pos k ≢ pos n
    → length buf ≡ page_size
    → ((o : ℕ) → o? ≡ some o → o ≡ page_size * k)
    → read_at (record m { buf = put m.buf (page_size * n) buf }) o? ≡ read_at m o?
unfolding read_at
read_at_other m buf n k none ne size at = refl
read_at_other m buf n k (some o) ne size at = ap from_option (elim (apart n k ne) [
  | inl before ↦
      range-put_before m.buf (page_size * n) buf o (o + page_size) (omega arith)
        (omega (arith, at o refl))
  | inr after ↦
      range-put_after m.buf (page_size * n) buf o (o + page_size) (omega (arith, at o refl))
])

read_other_at :
    (m : Memory) (buf : PageBuf) (j : PageId) (n : ℕ)
    → j ≢ pos n
    → length buf ≡ page_size
    → read_memory (record m { buf = put m.buf (page_size * n) buf }) j ≡ read_memory m j
unfolding read_memory offset_of read_at
read_other_at m buf (negsuc k) n ne size = refl
read_other_at m buf (pos k) n ne size =
    read_at_other m buf n k (offset_of m (pos k)) ne size λ o e. ground arith

read_memory-write_memory_ne :
    (m m' : Memory) (id j : PageId) (buf : PageBuf)
    → j ≢ id
    → write_memory m id buf ≡ (done tt, m')
    → read_memory m' j ≡ read_memory m j
read_memory-write_memory_ne m m' id j buf ne h =
    let (o, e, size, room, same) = write_memory_inv m id buf h in
    let (n, place, at, _) = offset_of_inv m id e in
    rw (same, at) (read_other_at m buf j n (rw (← place) ne) (omega arith))

read_memory_sized :
    (m : Memory) (id : PageId) (o? : Option ℕ) {buf : PageBuf}
    → from_option (o? >>= λ o. range m.buf o (o + page_size)) ≡ done buf
    → length buf ≡ page_size
read_memory_sized m id none h = cc
read_memory_sized m id (some o) h = elim (Option-cases (range m.buf o (o + page_size))) [
  | inl e ↦ absurd (not_done (rw e at h))
  | inr (out, e) ↦
      let (_, room, same) = range_inv m.buf o (o + page_size) e in
      ground (arith, length-slice m.buf o page_size)
]

-- The in-memory disk keeps the contract of a disk: a page reads back as it was written last, a write
-- leaves the other pages alone, and a page that is read has the page size.
pub memory-IsLawful : IsLawful memory
unfolding memory read_memory
memory-IsLawful = record {
  read_written = read_memory-write_memory;
  read_other = read_memory-write_memory_ne;
  read_sized = λ m id h. read_memory_sized m id (offset_of m id) h;
}
