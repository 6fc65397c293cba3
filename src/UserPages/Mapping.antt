-- ===== src/UserPages/Mapping.antt =====
-- `setup_user_page_mapping` of kernel/sched.c for one page, with the page allocator behind the tables.
use tout_os.Base.{
  ℕ, ◌-◌, ◌%◌, ◌^◌, ◌≤◌, ◌<◌, ◌≡◌, refl, sym, subst, Bool, true, false, ◌||◌, Option, none, some,
  ◌==◌, if◌then◌else◌, arith,
}
use tout_os.Pages.{Usage}
use tout_os.PageTable.{PageTables, setup_pg_for_addr, map_loop, add_single_map}
use tout_os.PageTable.Tree.{Place, IsTree, IsAttrs}
use tout_os.PageTable.Setup.{SetUp}
use tout_os.PageTable.Map.{setup_pg_for_addr-SetUp}
use tout_os.PageTable.Range.{map_loop-none, map_loop-some}
use tout_os.UserPages.{get_zeroed_pages, map_attrs, setup_user_page_mapping}
use tout_os.UserPages.Supply.{IsFree, page_laws}

map_attrs-IsAttrs : (rdonly : Bool) → IsAttrs (map_attrs rdonly)
map_attrs-IsAttrs true = refl
map_attrs-IsAttrs false = refl

one_page :
    (attrs pg_dir phy_addr virt_addr : ℕ) (s : PageTables Usage) (r : Option (PageTables Usage))
    → setup_pg_for_addr get_zeroed_pages true attrs pg_dir phy_addr virt_addr s ≡ r
    → add_single_map get_zeroed_pages true attrs pg_dir phy_addr virt_addr 4096 s ≡ r
unfolding add_single_map map_loop
one_page attrs pg_dir phy_addr virt_addr s none e =
    map_loop-none get_zeroed_pages true attrs 0 pg_dir phy_addr virt_addr s e
one_page attrs pg_dir phy_addr virt_addr s (some t) e =
    map_loop-some get_zeroed_pages true attrs 0 pg_dir phy_addr virt_addr s t e

-- Mapping one page in a tree is what `setup_pg_for_addr` does, with the free pages of the page pool
-- as the free pages.
pub setup_user_page_mapping-SetUp :
    (pg_dir virt_addr phy_addr : ℕ) (rdonly : Bool) (s : PageTables Usage)
    (owner : ℕ → Option Place)
    → 1 ≤ pg_dir
    → phy_addr % 4096 ≡ 0
    → phy_addr < 2 ^ 48
    → IsTree true (IsFree s.pages) s.mem pg_dir owner
    → SetUp true get_zeroed_pages IsFree pg_dir phy_addr virt_addr s
        (setup_user_page_mapping pg_dir virt_addr phy_addr 4096 rdonly s)
unfolding setup_user_page_mapping
setup_user_page_mapping-SetUp pg_dir virt_addr phy_addr rdonly s owner some_dir aligned short v =
    let z : ((pg_dir == 0) || (phy_addr == 2 ^ 64 - 1)) ≡ false = ground (arith, some_dir, short) in
    rw (z, if◌then◌else◌)
      (subst (λ r. SetUp true get_zeroed_pages IsFree pg_dir phy_addr virt_addr s r)
        (sym (
          one_page (map_attrs rdonly) pg_dir phy_addr virt_addr s
            (setup_pg_for_addr get_zeroed_pages true (map_attrs rdonly) pg_dir phy_addr virt_addr s)
            refl))
        (setup_pg_for_addr-SetUp true get_zeroed_pages page_laws (map_attrs rdonly)
          (map_attrs-IsAttrs rdonly) pg_dir phy_addr virt_addr aligned short s owner v))
