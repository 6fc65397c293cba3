-- ===== src/SystemCalls/Fault.antt =====
-- What `do_el0_sync` of kernel/isr.c does for an address that a process touches.
use tout_os.Base.{
  ℕ, ◌≤◌, ◌≡◌, refl, Bool, true, false, Option, none, some, List, inl, inr, Option-cases,
}
use tout_os.Pages.{Usage}
use tout_os.PageTable.{PageTables, to_phys, walk_virt_addr}
use tout_os.PageTable.Tree.{Place, IsTree, to_phys-aligned}
use tout_os.PageTable.Walk.{IsMapped}
use tout_os.PageTable.Draws.{RunsOut}
use tout_os.PageTable.Setup.{SetUp, out_of_pages, set_up}
use tout_os.PageTable.Range.{KeepsWalks}
use tout_os.UserPages.{get_zeroed_pages, setup_user_page_mapping}
use tout_os.UserPages.Supply.{IsFree, page_laws}
use tout_os.UserPages.Mapping.{setup_user_page_mapping-SetUp}
use tout_os.Areas.{Area, find_area, add_pages_block}
use tout_os.SystemCalls.{
  Space, Faulted, killed, no_page, asserted, served, put_block, page_addr, with_tables, serve_page,
  page_fault,
}

-- What a fault does: the process is killed only when no area has the address; it has no page only when none is
-- free; an assertion fails only when the address is not mapped and one of the two pages behind the first is not
-- there; and else the tables are a tree, the address is mapped, to a page that was free if it was not mapped
-- before, and every address that was mapped leads where it did.
pub data Served (pg_dir addr : ℕ) (s : Space) : Faulted → Type 0 where
  no_area : find_area s.mmap addr ≡ none → Served pg_dir addr s killed
  none_free :
      (vma : Area) (u : Usage)
      → find_area s.mmap addr ≡ some vma
      → get_zeroed_pages s.tables.pages ≡ (none, u)
      → Served pg_dir addr s no_page
  none_for_table :
      (vma : Area) (page : ℕ) (u : Usage)
      → find_area s.mmap addr ≡ some vma
      → get_zeroed_pages s.tables.pages ≡ (some page, u)
      → (IsMapped true s.tables.mem pg_dir (page_addr addr) → ⊥)
      → RunsOut get_zeroed_pages 2 u
      → Served pg_dir addr s asserted
  has_page :
      (vma : Area) (page : ℕ) (o : ℕ → Option Place) (s' : Space)
      → find_area s.mmap addr ≡ some vma
      → IsFree s.tables.pages page
      → IsTree true (IsFree s'.tables.pages) s'.tables.mem pg_dir o
      → IsMapped true s'.tables.mem pg_dir (page_addr addr)
      → KeepsWalks true s.tables.mem s'.tables.mem pg_dir
      → ((IsMapped true s.tables.mem pg_dir (page_addr addr) → ⊥)
          → walk_virt_addr true s'.tables.mem pg_dir (page_addr addr) ≡ to_phys true page)
      → Served pg_dir addr s (served s')

-- fewer free pages leave a tree a tree
fewer-IsTree :
    (free free' : ℕ → Type 0) (mem : ℕ → ℕ) (pg_dir : ℕ) (owner : ℕ → Option Place)
    → ((p : ℕ) → free' p → free p)
    → IsTree true free mem pg_dir owner
    → IsTree true free' mem pg_dir owner
fewer-IsTree free free' mem pg_dir owner fewer v = record {
  root_at = v.root_at;
  hangs = v.hangs;
  aligned = v.aligned;
  taken = λ t f. v.taken t (fewer t f);
}

module _ (has_memory : Bool) (pg_dir addr : ℕ) (s : Space) (owner : ℕ → Option Place)
    (some_dir : 1 ≤ pg_dir) (v : IsTree true (IsFree s.tables.pages) s.tables.mem pg_dir owner)
    (vma : Area) (found : find_area s.mmap addr ≡ some vma) where
  with_tables-Served :
      (mmap : List Area) (page : ℕ) (u : Usage) (r : Option (PageTables Usage))
      → IsFree s.tables.pages page
      → get_zeroed_pages s.tables.pages ≡ (some page, u)
      → SetUp true get_zeroed_pages IsFree pg_dir
          (to_phys true page)
          (page_addr addr)
          (record { mem = s.tables.mem; pages = u })
          r
      → Served pg_dir addr s (with_tables mmap r)
  with_tables-Served mmap page u _ free e (out_of_pages new out) =
      none_for_table vma page u found e new out
  with_tables-Served mmap page u _ free e (set_up o t tree mapped kept new _) =
      has_page vma page o (record { mmap = mmap; tables = t }) found free tree mapped kept new

  serve_page-Served :
      (r : Option ℕ × Usage)
      → get_zeroed_pages s.tables.pages ≡ r
      → Served pg_dir addr s (serve_page has_memory pg_dir addr vma s r)
  serve_page-Served (none, u) e = none_free vma u found e
  serve_page-Served (some page, u) e =
      let (free, not_now, aligned, low, short) = page_laws.gives s.tables.pages page u e in
      let mmap =
        put_block s.mmap addr (add_pages_block has_memory (some vma) (page_addr addr) page 0) in
      let tables : PageTables Usage = record { mem = s.tables.mem; pages = u } in
      with_tables-Served mmap page u
        (setup_user_page_mapping pg_dir (page_addr addr) (to_phys true page) 4096 false tables) free
        e
        (setup_user_page_mapping-SetUp pg_dir (page_addr addr) (to_phys true page) false tables
          owner some_dir (to_phys-aligned true page aligned) short
          (fewer-IsTree (IsFree s.tables.pages) (IsFree u) s.tables.mem pg_dir owner
            (page_laws.keeps s.tables.pages page u e) v))

-- A fault of a process whose tables are a tree kills it only when no area has the address. It is left
-- without a page only when none is free, and an assertion fails only when the address is not mapped and, with
-- one page taken for it, no page is free for one of its two tables. Else the address is mapped in a tree, to a page that was free if it was not mapped before, and every address that was
-- mapped leads where it did.
pub page_fault-Served :
    (has_memory : Bool) (pg_dir addr : ℕ) (s : Space) (owner : ℕ → Option Place)
    → 1 ≤ pg_dir
    → IsTree true (IsFree s.tables.pages) s.tables.mem pg_dir owner
    → Served pg_dir addr s (page_fault has_memory pg_dir addr s)
unfolding page_fault get_zeroed_pages
page_fault-Served has_memory pg_dir addr s owner some_dir v =
    elim (Option-cases (find_area s.mmap addr)) [
      | inl e ↦ rw (e, page_fault) (no_area e)
      | inr (vma, e) ↦
          rw (e, page_fault)
            (serve_page-Served has_memory pg_dir addr s owner some_dir v vma e
              (get_zeroed_pages s.tables.pages) refl)
    ]
