-- ===== src/PageTable/Tests.antt =====
-- The page tables at work: the start of the machine maps pages, and a page of a process is unmapped.
use tout_os.Base.{ℕ, refl, false, arith}
use tout_os.PageTable.{PageTables, setup_pg_for_addr, add_single_map, unmap_one_user_page}
use tout_os.PageTable.Tree.{IsTree, CallocLaws}
use tout_os.PageTable.Setup.{SetUp}
use tout_os.PageTable.Map.{setup_pg_for_addr-SetUp}
use tout_os.PageTable.Range.{Ranged, add_single_map-Ranged}
use tout_os.PageTable.Unmap.{Unmaps, unmap_one_user_page-Unmaps}
use tout_os.PageTable.PgCalloc.{pg_calloc, pg_calloc_laws}
use tout_os.PageTable.Sample.{
  only_root, start-IsTree, dir, FreePage, two_owner, with_page, with_page_tree, page_3-IsMapped,
}

-- an empty directory, with the memory for the tables behind it
abbrev start : PageTables ℕ
start = record { mem = λ a. 0; pages = 0 }

abbrev four_tables : CallocLaws false (pg_calloc 0x10000 0x5000)
four_tables = pg_calloc_laws 0x10000 0x5000 refl (omega arith)

abbrev start_tree : IsTree false (four_tables.free 0) (λ a. 0) 0x1000 (only_root 0x1000)
start_tree = start-IsTree false (four_tables.free 0) 0x1000 refl (λ f. omega (arith, f))

setup_pg_for_addr-SetUp_example :
    SetUp false
      (pg_calloc 0x10000 0x5000)
      four_tables.free
      0x1000
      0x40000000
      0x50000000
      start
      (setup_pg_for_addr (pg_calloc 0x10000 0x5000) false 0x700 0x1000 0x40000000 0x50000000 start)
setup_pg_for_addr-SetUp_example =
    setup_pg_for_addr-SetUp false (pg_calloc 0x10000 0x5000) four_tables 0x700 refl 0x1000
      0x40000000 0x50000000 refl (omega arith) start (only_root 0x1000) start_tree

add_single_map-Ranged_example :
    Ranged false
      (pg_calloc 0x10000 0x5000)
      four_tables.free
      0x700
      0x1000
      2
      0x40000000
      0x50000000
      start
      (add_single_map
        (pg_calloc 0x10000 0x5000)
        false
        0x700
        0x1000
        0x40000000
        0x50000000
        5000
        start)
add_single_map-Ranged_example =
    add_single_map-Ranged false (pg_calloc 0x10000 0x5000) four_tables 0x700 refl 0x1000 0x40000000
      0x50000000 5000 refl (omega arith) start (only_root 0x1000) start_tree

unmap_one_user_page-Unmaps_example :
    Unmaps (FreePage 3) with_page dir two_owner 0x3000 (unmap_one_user_page with_page dir 0x3000)
unmap_one_user_page-Unmaps_example =
    unmap_one_user_page-Unmaps (FreePage 3) with_page dir two_owner with_page_tree 0x3000
      page_3-IsMapped
