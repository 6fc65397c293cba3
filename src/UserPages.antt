-- ===== src/UserPages.antt =====
-- The pages of a process, kernel/sched.c: its page tables (PageTable) with the page allocator (Pages)
-- behind them.
pub mod Supply
pub mod Draws
pub mod Range
pub mod Mapping
mod Tests
use tout_os.Base.{
  ℕ, zero, suc, ◌+◌, ◌-◌, ◌*◌, ◌/◌, ◌%◌, ◌^◌, Bool, true, false, ◌&&◌, ◌||◌, not, Option, none,
  some, List, [], ◌∷◌, ◌++◌, ltb, leb, ◌==◌, if◌then◌else◌, ℤ, pos, minus_one, bit_or, bit_and,
  add64, sub64,
}
use tout_os.Pages.{Usage, get_free_pages}
use tout_os.PageTable.{Calloc, PageTables, add_single_map, unmap_one_user_page, Unmapped}
use tout_os.Areas.{Area, vm_shared}

-- get_zeroed_pages (0); the tables see to it that the page is zeroed
unfoldable pub get_zeroed_pages : Calloc Usage
get_zeroed_pages u = get_free_pages 0 u

-- PTE_BLOCK_MEMTYPE (MT_NORMAL) | PTE_USER | PTE_BLOCK_INNER_SHARE | PTE_BLOCK_NG
abbrev pub user_attrs : ℕ
user_attrs = 16 + 64 + 768 + 2048

-- PTE_RDONLY, which is none of these bits
abbrev pub pte_rdonly : ℕ
pte_rdonly = 128

abbrev pub map_attrs : Bool → ℕ
map_attrs rdonly = if rdonly then user_attrs + pte_rdonly else user_attrs

-- VM_WRITE
abbrev pub vm_write : ℕ
vm_write = 2

-- `none` is a failed assertion.
unfoldable pub setup_user_page_mapping :
    ℕ → ℕ → ℕ → ℕ → Bool → PageTables Usage → Option (PageTables Usage)
setup_user_page_mapping pg_dir virt_addr phy_addr size rdonly s =
    if (pg_dir == 0) || (phy_addr == 2 ^ 64 - 1)
    then some s
    else add_single_map get_zeroed_pages true (map_attrs rdonly) pg_dir phy_addr virt_addr size s

-- the loop over the areas of the task
unfoldable pub setup_user_page_mappings :
    ℕ → List Area → PageTables Usage → Option (PageTables Usage)
setup_user_page_mappings pg_dir [] s = some s
setup_user_page_mappings pg_dir (vma ∷ rest) s =
    elim (setup_user_page_mapping pg_dir vma.vm_start vma.lma (sub64 vma.vm_end vma.vm_start)
      (bit_and vma.vm_flags vm_write == 0) s) [
        | none ↦ none
        | some t ↦ setup_user_page_mappings pg_dir rest t
      ]

-- What a run of `unmap_user_page_mapping` does: the tables after it, and the pages that it hands to
-- `free_pages`, in their order.
pub record UnmapRun : Type 0 where
  pub tables : ℕ → ℕ
  pub freed : List ℕ

abbrev pub with_freed : Option ℕ → UnmapRun → UnmapRun
with_freed none r = r
with_freed (some page) r = record r { freed = page ∷ r.freed }

-- the loop, with `n` pages left
unfoldable pub unmap_loop : ℕ → (ℕ → ℕ) → ℕ → ℕ → UnmapRun
unmap_loop zero mem pg_dir addr = record { tables = mem; freed = [] }
unmap_loop (suc n) mem pg_dir addr =
    let u = unmap_one_user_page mem pg_dir addr in
    with_freed u.freed (unmap_loop n u.tables pg_dir (addr + 4096))

-- `unmap_one_user_page` gives 0 always. The range does not wrap.
unfoldable pub unmap_user_page_mapping : (ℕ → ℕ) → ℕ → ℕ → ℕ → ℤ × UnmapRun
unmap_user_page_mapping mem pg_dir virt_addr size =
    if (pg_dir == 0) || ((virt_addr == 0) || not (size % 4096 == 0))
    then (minus_one, record { tables = mem; freed = [] })
    else (pos 0, unmap_loop (size / 4096) mem pg_dir virt_addr)
