-- ===== src/Tests/Catalogs.antt =====
-- A new catalog gets its first table, over a page cache with an empty disk.
use dbstorage.Base.{range, ◌≡◌, refl, none, ok, arith}
use dbstorage.Bytes.Signed.{pos}
use dbstorage.Page.{page_size, zeroed, default_page}
use dbstorage.Disk.{Memory, memory, read_memory, offset_of}
use dbstorage.HashMap.{lookup, insert, remove}
use dbstorage.Replacer
use dbstorage.PageCache
use dbstorage.PageCache.{PageCache}
use dbstorage.PageCache.FreeFrames.{pop, default_free, range_from}
use dbstorage.Catalog.Schema.{empty}
use dbstorage.Catalog.Tables.{name_key, new, create_table}
use dbstorage.Catalog.Registration.{IsValid, Registers, create_table-Registers}
use dbstorage.Table.TupleList.{TupleList, default_list}

abbrev start : PageCache Memory
start = PageCache.new (record { buf = zeroed; size = page_size }) (Replacer.new 2) (pos 0)

abbrev table : TupleList
table = record { first_page_id = pos 0; last_page_id = pos 0 }

-- The cache once the table has its page.
made : PageCache Memory
made = (default_list memory start).1

default_list-made : default_list memory start ≡ (ok table, made)
unfolding made default_list PageCache.new_page PageCache.allocate_page PageCache.try_get_page
    PageCache.pick_frame PageCache.pick_from pop PageCache.load PageCache.page_at
    PageCache.found_page PageCache.take_over PageCache.install PageCache.write_back PageCache.remap
    PageCache.read_in PageCache.fill PageCache.new PageCache.drop_pin default_free range_from
    default_page memory read_memory offset_of insert remove lookup zeroed range
default_list-made = refl

new-IsValid : IsValid new
unfolding new
new-IsValid = tt

create_table-Registers_example :
    Registers "users" empty table new start made (create_table memory "users" empty new start) none
unfolding new lookup
create_table-Registers_example =
    create_table-Registers memory "users" empty new start made table new-IsValid (omega arith)
      default_list-made
