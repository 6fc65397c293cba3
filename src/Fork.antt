-- ===== src/Fork.antt =====
-- sys_fork of kernel/isr.c: the slot, the areas and the pages of the child. The memory allocator is a
-- parameter, `alloc`, with the state that it keeps: it tells whether kmalloc or kzalloc gives memory. What
-- the pages hold, the kernel stack and the saved registers are left out.
pub mod Order
pub mod Copy
pub mod Areas
pub mod Children
pub mod Back
pub mod Tables
pub mod Result
mod Tests
use tout_os.Base.{
  ℕ, ◌+◌, ◌-◌, ◌^◌, ◌==◌, Bool, true, false, not, Option, none, some, List, [], ◌∷◌, if◌then◌else◌,
  ℤ, pos, negsuc, bit_and, sub64, minus_one,
}
use tout_os.Pages.{Usage, Release, wild, halted, done, get_free_pages, free_pages}
use tout_os.PageTable.{PageTables, to_phys, zero_page}
use tout_os.Clock.{get_order}
use tout_os.Areas.{Area, Mm, PagesBlock, vm_shared, setup_vma, find_area, add_pages_block}
use tout_os.SystemCalls.{put_area}
use tout_os.Sched.{Sched, Task, get_task_slot, free_task_slot, put, running}
use tout_os.UserPages.{setup_user_page_mappings}
use tout_os.Exit.{exit_mm}

-- (unsigned long)(-1), of an area whose pages come when they are touched
abbrev pub no_lma : ℕ
no_lma = 2 ^ 64 - 1

-- what the child has so far, with the state of the two allocators
pub record Child (M : Type 0) : Type 0 where
  pub mm : Mm
  pub usage : Usage
  pub memory : M

-- A step of the copying went well, or it goes to `fail_setup_vma`; a page that it had got was given back.
pub data Copied (M : Type 0) : Type 0 where
  copied : Child M → Copied M
  fails : Mm → Release → Copied M

-- the areas after `setup_vma` or `add_pages_block`; `none` when the result is negative
abbrev pub made : ℤ × Option Mm → Option Mm
made (pos n, mm) = mm
made (negsuc n, mm) = none

abbrev pub added : Mm → ℕ → ℤ × Option Area → Option Mm
added mm addr (pos n, none) = none
added mm addr (pos n, some vma) = some (record mm { mmap = put_area mm.mmap addr vma })
added mm addr (negsuc n, vma) = none

module _ {M : Type 0} (alloc : M → Bool × M) where
  abbrev pub with_area : Child M → M → Option Mm → Copied M
  with_area c m none = fails c.mm (done c.usage)
  with_area c m (some mm) = copied (record c { mm = mm; memory = m })

  -- an area of the child like the one of the parent, at `lma`
  abbrev pub child_area : Area → ℕ → Child M → Copied M
  child_area vma lma c =
      let (has_memory, m) = alloc c.memory in
      with_area c m
        (made (setup_vma has_memory (some c.mm) vma.vm_start vma.vm_end vma.vm_flags lma))

  abbrev pub with_block : Child M → ℕ → ℕ → M → Option Mm → Copied M
  with_block c page order m none = fails c.mm (free_pages page order c.usage)
  with_block c page order m (some mm) = copied (record c { mm = mm; memory = m })

  -- the block is added to the area of the child at `vm_start`
  abbrev pub new_block : ℕ → ℕ → ℕ → ℕ → Child M → Copied M
  new_block vm_start user_virt_addr page order c =
      let (has_memory, m) = alloc c.memory in
      with_block c page order m (
        added c.mm vm_start
          (add_pages_block has_memory (find_area c.mm.mmap vm_start) user_virt_addr page order))

  abbrev pub then_block : Area → ℕ → ℕ → Usage → Copied M → Copied M
  then_block vma page order u (copied c) = new_block vma.vm_start vma.vm_start page order c
  then_block vma page order u (fails mm r) = fails mm (free_pages page order u)

  -- an area with pages of its own: the pages that `get_free_pages` gives
  abbrev pub copy_owned : Area → ℕ → Child M → Option ℕ × Usage → Copied M
  copy_owned vma order c (none, u) = fails c.mm (done u)
  copy_owned vma order c (some page, u) =
      then_block vma page order u (child_area vma (to_phys true page) (record c { usage = u }))

  abbrev pub copy_page : ℕ → PagesBlock → Child M → Option ℕ × Usage → Copied M
  copy_page vm_start pb c (none, u) = fails c.mm (done u)
  copy_page vm_start pb c (some page, u) =
      new_block vm_start pb.user_virt_addr page 0 (record c { usage = u })

  -- the loop over the blocks of the parent's area
  unfoldable pub copy_blocks : ℕ → List PagesBlock → Child M → Copied M
  copy_blocks vm_start [] c = copied c
  copy_blocks vm_start (pb ∷ rest) c = elim (copy_page vm_start pb c (get_free_pages 0 c.usage)) [
    | copied d ↦ copy_blocks vm_start rest d
    | fails mm r ↦ fails mm r
  ]

  abbrev pub then_blocks : Area → Copied M → Copied M
  then_blocks vma (copied c) = copy_blocks vma.vm_start vma.pages_block_list c
  then_blocks vma (fails mm r) = fails mm r

  -- the body of the loop over the areas of the parent
  unfoldable pub copy_area : Area → Child M → Copied M
  copy_area vma c =
      if not (bit_and vma.vm_flags vm_shared == 0)
      then child_area vma vma.lma c
      else if not (vma.lma == no_lma)
      then (let order = get_order (sub64 vma.vm_end vma.vm_start) in
          copy_owned vma order c (get_free_pages order c.usage))
      else then_blocks vma (child_area vma no_lma c)

  unfoldable pub copy_areas : List Area → Child M → Copied M
  copy_areas [] c = copied c
  copy_areas (vma ∷ rest) c = elim (copy_area vma c) [
    | copied d ↦ copy_areas rest d
    | fails mm r ↦ fails mm r
  ]

-- How `sys_fork` ends: with a child, its areas, tables and slot; with an assertion of the page tables that
-- fails, which stops the kernel; or with -1 and the pages and the slots after the cleaning up.
pub data Forked : Type 0 where
  forked : ℕ → Mm → PageTables Usage → Sched → Forked
  asserted : Forked
  no_child : Release → Sched → Forked

-- mm after kzalloc
abbrev pub zeroed_mm : Mm
zeroed_mm = record { mmap = []; start_brk = 0; brk = 0 }

-- the slot of the child runs, with the addresses of its mm and of its tables
abbrev pub start_child : ℕ → ℕ → ℕ → Sched → Sched
start_child i mm_addr pg_dir s = record s {
  tasks = put s.tasks i (record (s.tasks i) { mm = mm_addr; pg_dir = pg_dir; state = running });
}

-- `mm_addr` is the address of the mm of the child.
module _ {M : Type 0} (alloc : M → Bool × M) (mem : ℕ → ℕ) (mm_addr : ℕ) (parent : Mm) where
  -- the page tables are set up, unless an assertion fails, and the child runs
  abbrev pub with_page_tables : ℕ → ℕ → Mm → Sched → Option (PageTables Usage) → Forked
  with_page_tables i pg_dir mm s none = asserted
  with_page_tables i pg_dir mm s (some t) =
      forked i (record mm { start_brk = parent.start_brk; brk = parent.brk }) t
        (start_child i mm_addr pg_dir s)

  -- what follows the loop over the areas
  abbrev pub finish_fork : ℕ → ℕ → Sched → Copied M → Forked
  finish_fork i pg_dir s (fails mm r) =
      no_child
        (elim r [
          | wild ↦ wild
          | halted ↦ halted
          | done u ↦ exit_mm mm.mmap (zero_page mem pg_dir) pg_dir u
        ])
        (free_task_slot (some i) s)
  finish_fork i pg_dir s (copied c) = with_page_tables i pg_dir c.mm s (
      setup_user_page_mappings pg_dir c.mm.mmap
        (record { mem = zero_page mem pg_dir; pages = c.usage }))

  -- the page directory, get_zeroed_pages (0)
  abbrev pub with_directory : ℕ → Sched → M → Option ℕ × Usage → Forked
  with_directory i s m (none, u) =
      no_child (exit_mm [] mem (s.tasks i).pg_dir u) (free_task_slot (some i) s)
  with_directory i s m (some pg_dir, u) =
      finish_fork i pg_dir s
        (copy_areas alloc parent.mmap (record { mm = zeroed_mm; usage = u; memory = m }))

  abbrev pub after_mm : ℕ → Sched → Usage → Bool × M → Forked
  after_mm i s u (false, m) = no_child (done u) (free_task_slot (some i) s)
  after_mm i s u (true, m) = with_directory i s m (get_free_pages 0 u)

  abbrev pub with_slot : Usage → M → Option ℕ × Sched → Forked
  with_slot u m (none, s) = no_child (done u) (free_task_slot none s)
  with_slot u m (some i, s) = after_mm i s u (alloc m)

  unfoldable pub sys_fork : ℕ → Usage → M → Sched → Forked
  sys_fork stacks u m s = with_slot u m (get_task_slot stacks s)
