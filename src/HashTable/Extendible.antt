-- ===== src/HashTable/Extendible.antt =====
-- src/hash_table/extendible.rs: the extendible hash table over the page cache. Its state is that of the
-- cache; a table is the id of its directory page. `DefaultHasher` is a parameter.
pub mod Laws
use dbstorage.Base.{
  ℕ, zero, suc, ◌+◌, ◌-◌, ◌*◌, ◌/◌, ◌%◌, ◌^◌, bit_and, Bool, true, false, ◌&&◌, Option, some, none,
  List, [], ◌∷◌, ltb, leb, ◌==◌, if◌then◌else◌, Outcome, ok, err, panic, or_panic, set,
}
use dbstorage.Base.Panic
use dbstorage.Bytes.Signed.{ℤ, pos, ◌=ℤ◌}
use dbstorage.Page.{PageId, PageBuf, PageInner}
use dbstorage.Disk.{Disk}
use dbstorage.HashMap.{Eq}
use dbstorage.Storable.{Storable}
use dbstorage.PageCache.{
  PageCache, Pin, Call, ◌>>=◌, ◌>>◌, pure, page_at, fetch_page, new_page, read_pin, drop_pin,
  remove_page,
}
use dbstorage.PageCache.Scopes.{lift, finally, overwrite}
use dbstorage.PageCache.FreeFrames.{range_from}
use dbstorage.HashTable.Directory
use dbstorage.HashTable.Directory.{
  Directory, page_ids_size_u32, incr_global_depth, local_depth_mask, global_depth_mask,
  get_local_high_bit,
}
use dbstorage.HashTable.Bucket
use dbstorage.HashTable.Bucket.{Bucket, Pair, get_pairs, is_full}

-- The id that the frame has.
unfoldable pub page_id : {D : Type 0} → Pin → Call D PageId
unfolding page_at
page_id pin = do p ← page_at pin.i; pure p.id

-- `(start..512).step_by(bit)`
unfoldable pub steps : ℕ → ℕ → List ℕ → List ℕ
steps start bit [] = []
steps start bit (i ∷ rest) =
    let later = steps start bit rest in
    if leb start i && ((i - start) % bit == 0) then i ∷ later else later

-- The loop that gives the places of a split bucket their new pages.
unfoldable pub repoint : ℕ → PageId → PageId → List ℕ → Directory → Option Directory
repoint bit id0 id1 [] dir = some dir
repoint bit id0 id1 (i ∷ rest) dir =
    Panic.◌>>=◌ (Directory.insert dir i (if ltb 0 (bit_and i bit) then id0 else id1))
      (repoint bit id0 id1 rest)

-- `get_bucket_index`
unfoldable pub bucket_index : {K : Type 0} → (K → ℕ) → K → Directory → ℕ
bucket_index hash k dir = bit_and (hash k) (global_depth_mask dir) % page_ids_size_u32

-- The loop that spreads the pairs of a full bucket over two new ones.
unfoldable pub spread :
    {K V : Type 0}
    → (K → ℕ)
    → ℕ
    → Directory
    → List (Pair K V)
    → Bucket K V × Bucket K V
    → Option (Bucket K V × Bucket K V)
unfolding bucket_index
spread hash bit dir [] s = some s
spread hash bit dir (pair ∷ rest) (bucket0, bucket1) =
    Panic.◌>>=◌
      (if ltb 0 (bit_and (bucket_index hash pair.a dir) bit)
        then Panic.◌>>=◌ (Bucket.insert bucket1 pair.a pair.b) (λ b. some (bucket0, b))
        else Panic.◌>>=◌ (Bucket.insert bucket0 pair.a pair.b) (λ b. some (b, bucket1)))
      (spread hash bit dir rest)

module _ {D K V : Type 0} (disk : Disk D) (ks : Storable K) (vs : Storable V) (hash : K → ℕ)
    (dir_page_id : PageId) where
  unfoldable pub read_dir : Pin → Call D Directory
  read_dir pin = do buf ← read_pin disk pin; lift (Directory.from_page buf)

  unfoldable pub read_bucket : Pin → Call D (Bucket K V)
  read_bucket pin = do buf ← read_pin disk pin; lift (Bucket.from_page ks vs buf)

  unfoldable pub write_dir : Pin → Directory → Call D (Unit {0})
  unfolding overwrite
  write_dir pin dir = do image ← lift (Directory.to_page dir); overwrite pin image

  unfoldable pub write_bucket : Pin → Bucket K V → Call D (Unit {0})
  unfolding overwrite
  write_bucket pin bucket = do image ← lift (Bucket.to_page ks vs bucket); overwrite pin image

  -- The bucket's page; id 0 stands for none, and then a new page enters the directory.
  unfoldable pub open_bucket : Pin → Directory → ℕ → PageId → Call D (Pin × Directory)
  unfolding page_id write_dir
  open_bucket dir_page dir i id =
      if id =ℤ pos 0
      then (do
        p ← new_page disk
        new_id ← page_id p
        dir' ← lift (Directory.insert dir i new_id)
        write_dir dir_page dir'
        pure (p, dir'))
      else (do p ← fetch_page disk id; pure (p, dir))

  -- The end of a split, once the pairs are spread: both new pages get the first new bucket, as in the
  -- source.
  unfoldable pub write_split : Pin → Pin → Pin → Pin → Directory → Bucket K V → Call D (Unit {0})
  unfolding write_dir write_bucket page_id
  write_split dir_page bucket_page page0 page1 dir bucket0 = do
    write_dir dir_page dir
    write_bucket page0 bucket0
    write_bucket page1 bucket0
    id ← page_id bucket_page
    remove_page disk id

  -- The split with its two new pages.
  unfoldable pub split_into :
      K
      → Pin
      → Pin
      → Directory
      → ℕ
      → Bucket K V
      → Pin
      → Pin
      → Bucket K V
      → Bucket K V
      → Call D (Unit {0})
  unfolding spread steps repoint write_split page_id
  split_into k dir_page bucket_page dir i bucket page0 page1 bucket0 bucket1 = do
    bit ← lift (get_local_high_bit dir i)
    both ← lift (spread hash bit dir (get_pairs bucket) (bucket0, bucket1))
    id0 ← page_id page0
    id1 ← page_id page1
    dir' ← lift (
        repoint bit id0 id1
          (steps (bit_and (bucket_index hash k dir) (bit - 1)) bit (range_from 0 page_ids_size_u32))
          dir)
    write_split dir_page bucket_page page0 page1 dir' both.0

  unfoldable pub deepen : Directory → ℕ → Option Directory
  deepen dir i =
      Panic.◌>>=◌ (local_depth_mask dir i)
        λ mask. some (if mask == global_depth_mask dir then incr_global_depth dir else dir)

  unfoldable pub split : K → Pin → Pin → Directory → ℕ → Bucket K V → Call D (Unit {0})
  unfolding deepen split_into read_bucket
  split k dir_page bucket_page dir i bucket = do
    dir' ← lift (deepen dir i)
    page0 ← new_page disk
    finally disk page0 (do
      bucket0 ← read_bucket page0
      page1 ← new_page disk
      finally disk page1 (do
        bucket1 ← read_bucket page1
        split_into k dir_page bucket_page dir' i bucket page0 page1 bucket0 bucket1))

  unfoldable pub insert_into : K → V → Pin → Pin → Directory → ℕ → Call D Bool
  unfolding read_bucket write_bucket split
  insert_into k v dir_page bucket_page dir i = do
    bucket ← read_bucket bucket_page
    bucket' ← lift (Bucket.insert bucket k v)
    write_bucket bucket_page bucket'
    full ← lift (is_full ks vs bucket')
    if full then split k dir_page bucket_page dir i bucket' else pure tt
    pure true

  unfoldable pub insert : K → V → Call D Bool
  unfolding read_dir bucket_index open_bucket insert_into
  insert k v = do
    dir_page ← fetch_page disk dir_page_id
    finally disk dir_page (do
      dir ← read_dir dir_page
      id ← lift (Directory.get dir (bucket_index hash k dir))
      opened ← open_bucket dir_page dir (bucket_index hash k dir) id
      finally disk opened.0 (insert_into k v dir_page opened.0 opened.1 (bucket_index hash k dir)))

  unfoldable pub get_num_buckets : Call D ℕ
  unfolding read_dir
  get_num_buckets = do
    dir_page ← fetch_page disk dir_page_id
    finally disk dir_page (do dir ← read_dir dir_page; pure (2 ^ (dir.global_depth % 32)))

module _ {D K V : Type 0} ⦃key : Eq K⦄ (disk : Disk D) (ks : Storable K) (vs : Storable V)
    (hash : K → ℕ) (dir_page_id : PageId) where
  unfoldable pub find_in : K → PageId → Call D (List V)
  unfolding read_bucket
  find_in k id = if id =ℤ pos 0 then pure [] else (do
    bucket_page ← fetch_page disk id
    finally disk bucket_page (do
      bucket ← read_bucket disk ks vs hash dir_page_id bucket_page
      lift (Bucket.find bucket k)))

  unfoldable pub get : K → Call D (List V)
  unfolding read_dir bucket_index find_in
  get k = do
    dir_page ← fetch_page disk dir_page_id
    finally disk dir_page (do
      dir ← read_dir disk ks vs hash dir_page_id dir_page
      id ← lift (Directory.get dir (bucket_index hash k dir))
      find_in k id)

module _ {D K V : Type 0} ⦃key : Eq K⦄ ⦃val : Eq V⦄ (disk : Disk D) (ks : Storable K)
    (vs : Storable V) (hash : K → ℕ) (dir_page_id : PageId) where
  unfoldable pub remove_in : K → V → PageId → Call D Bool
  unfolding read_bucket write_bucket
  remove_in k v id = if id =ℤ pos 0 then pure false else (do
    bucket_page ← fetch_page disk id
    finally disk bucket_page (do
      bucket ← read_bucket disk ks vs hash dir_page_id bucket_page
      removed ← lift (Bucket.remove bucket k v)
      write_bucket disk ks vs hash dir_page_id bucket_page removed.0
      pure removed.1))

  unfoldable pub remove : K → V → Call D Bool
  unfolding read_dir bucket_index remove_in
  remove k v = do
    dir_page ← fetch_page disk dir_page_id
    finally disk dir_page (do
      dir ← read_dir disk ks vs hash dir_page_id dir_page
      id ← lift (Directory.get dir (bucket_index hash k dir))
      remove_in k v id)
