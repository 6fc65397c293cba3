-- ===== src/SystemCalls.antt =====
-- do_el0_sync of kernel/isr.c: the entry to the system calls, and the pages that a process touches for the
-- first time. The tables of the process and the page allocator are one state; what a page holds is left
-- out. `has_memory` is whether `kmalloc` gives memory.
pub mod Numbers
pub mod Fault
pub mod HeapArea
pub mod Brk
pub mod Io
mod Tests
use tout_os.Base.{
  ℕ, zero, suc, ◌+◌, ◌-◌, ◌*◌, ◌/◌, ◌%◌, ◌^◌, Bool, true, false, ◌&&◌, ◌||◌, not, Option, none,
  some, List, [], ◌∷◌, ltb, leb, ◌==◌, if◌then◌else◌, ℤ, add64,
}
use tout_os.Interrupts.{is_svc}
use tout_os.Pages.{Usage, get_free_pages}
use tout_os.PageTable.{PageTables, to_phys}
use tout_os.Areas.{Area, Mm, PagesBlock, find_area, find_vma, setup_vma, add_pages_block}
use tout_os.UserPages.{setup_user_page_mapping, unmap_user_page_mapping, UnmapRun}

-- the entries of `syscall_func` that are not NULL
pub data Syscall : Type 0 where
  call_fork : Syscall
  call_brk : Syscall
  call_exit : Syscall
  call_nanosleep : Syscall
  call_pause : Syscall
  call_read : Syscall
  call_write : Syscall

-- in the order of the table; `none` is NULL
abbrev pub entries : List Syscall
entries =
    call_fork ∷ call_brk ∷ call_exit ∷ call_nanosleep ∷ call_pause ∷ call_read ∷ call_write ∷ []

unfoldable pub entry_at : List Syscall → ℕ → Option Syscall
entry_at [] n = none
entry_at (f ∷ rest) n = if n == 0 then some f else entry_at rest (n - 1)

abbrev pub syscall_func : ℕ → Option Syscall
syscall_func n = entry_at entries n

-- the numbers of include/unistd.h, which the program puts into x8
unfoldable pub nr : Syscall → ℕ
nr call_fork = 0
nr call_brk = 1
nr call_exit = 2
nr call_nanosleep = 3
nr call_pause = 4
nr call_read = 5
nr call_write = 6

abbrev pub max_num_syscalls : ℕ
max_num_syscalls = 64

-- -ENOSYS in a register
abbrev pub minus_enosys : ℕ
minus_enosys = 2 ^ 64 - 38

-- of struct pt_regs: regs[0], regs[8], orig_x0 and syscallno
pub record Regs : Type 0 where
  pub x0 : ℕ
  pub x8 : ℕ
  pub orig_x0 : ℕ
  pub syscallno : ℕ

-- The call returns at once, or a function of the table runs.
pub data Entered : Type 0 where
  returns : Regs → Entered
  runs : Syscall → Regs → Entered

abbrev pub run_entry : Option Syscall → Regs → Entered
run_entry none regs = returns (record regs { x0 = minus_enosys })
run_entry (some f) regs = runs f regs

unfoldable pub enter_syscall : Regs → Entered
enter_syscall regs =
    let s = record regs { orig_x0 = regs.x0; syscallno = regs.x8 } in
    if leb max_num_syscalls s.syscallno
    then returns (record s { x0 = minus_enosys })
    else run_entry (syscall_func s.syscallno) s

-- the areas and the tables of a process
pub record Space : Type 0 where
  pub mmap : List Area
  pub tables : PageTables Usage

-- What happens for an address that the process touches: it is killed, it goes on without a page, an
-- assertion fails, or it has a page.
pub data Faulted : Type 0 where
  killed : Faulted
  no_page : Faulted
  asserted : Faulted
  served : Space → Faulted

-- the area that `find_area` finds is changed
unfoldable pub put_area : List Area → ℕ → Area → List Area
put_area [] addr a = []
put_area (vma ∷ rest) addr a = elim (leb vma.vm_start addr && ltb addr vma.vm_end) [
  | true ↦ a ∷ rest
  | false ↦ vma ∷ put_area rest addr a
]

-- PAGE_ADDR
abbrev pub page_addr : ℕ → ℕ
page_addr addr = addr - addr % 4096

-- the areas after `add_pages_block` for the area of the address
abbrev pub put_block : List Area → ℕ → ℤ × Option Area → List Area
put_block mmap addr (ret, none) = mmap
put_block mmap addr (ret, some vma) = put_area mmap addr vma

abbrev pub with_tables : List Area → Option (PageTables Usage) → Faulted
with_tables mmap none = asserted
with_tables mmap (some t) = served (record { mmap = mmap; tables = t })

-- the page that `get_free_pages` gives for the area
abbrev pub serve_page : Bool → ℕ → ℕ → Area → Space → Option ℕ × Usage → Faulted
serve_page has_memory pg_dir addr vma s (none, u) = no_page
serve_page has_memory pg_dir addr vma s (some page, u) =
    with_tables
      (put_block s.mmap addr (add_pages_block has_memory (some vma) (page_addr addr) page 0))
      (setup_user_page_mapping pg_dir (page_addr addr) (to_phys true page) 4096 false
        (record { mem = s.tables.mem; pages = u }))

unfoldable pub page_fault : Bool → ℕ → ℕ → Space → Faulted
page_fault has_memory pg_dir addr s = elim (find_area s.mmap addr) [
  | none ↦ killed
  | some vma ↦ serve_page has_memory pg_dir addr vma s (get_free_pages 0 s.tables.pages)
]

pub data El0 : Type 0 where
  called : Entered → El0
  faulted : Faulted → El0

unfoldable pub do_el0_sync : Bool → ℕ → ℕ → ℕ → Regs → Space → El0
do_el0_sync has_memory pg_dir addr esr regs s =
    if is_svc esr
    then called (enter_syscall regs)
    else faulted (page_fault has_memory pg_dir addr s)

-- MAX_BRK_ADDR
abbrev pub max_brk_addr : ℕ
max_brk_addr = 0x0C000000

-- UPPER_PAGE_ADDR
abbrev pub upper_page_addr : ℕ → ℕ
upper_page_addr addr = add64 addr 4095 - add64 addr 4095 % 4096

-- the list without the blocks that lie between the addresses
unfoldable pub drop_blocks : ℕ → ℕ → List PagesBlock → List PagesBlock
drop_blocks newbrk oldbrk [] = []
drop_blocks newbrk oldbrk (pb ∷ rest) =
    let kept = drop_blocks newbrk oldbrk rest in
    if leb newbrk pb.user_virt_addr && ltb pb.user_virt_addr oldbrk then kept else pb ∷ kept

-- the state that `sys_brk` works on, with the pages that it hands to `free_pages` and the result
pub record Heap : Type 0 where
  pub mm : Mm
  pub run : UnmapRun

-- The heap gets smaller; `none` is the access through a NULL area.
unfoldable pub shrink : ℕ → ℕ → ℕ → Mm → (ℕ → ℕ) → Option Heap
shrink pg_dir newbrk oldbrk mm mem = elim (find_area mm.mmap mm.start_brk) [
  | none ↦ none
  | some vma ↦ some (record {
    mm = record mm {
      mmap =
          put_area mm.mmap mm.start_brk
            (record vma { pages_block_list = drop_blocks newbrk oldbrk vma.pages_block_list });
    };
    run = (unmap_user_page_mapping mem pg_dir newbrk (oldbrk - newbrk)).1;
  })
]

-- current->mm->brk = (unsigned int)addr
unfoldable pub set_brk : ℕ → Heap → Heap
set_brk addr h = record h { mm = record h.mm { brk = addr % 2 ^ 32 } }

-- `out`: the area of the heap ends at the break, or is made with the flags VM_READ | VM_WRITE
abbrev pub area_end : Bool → Mm → Option Area → Option Mm
area_end has_memory mm none = (setup_vma has_memory (some mm) mm.start_brk mm.brk 3 (2 ^ 64 - 1)).1
area_end has_memory mm (some vma) =
    some (record mm { mmap = put_area mm.mmap mm.start_brk (record vma { vm_end = mm.brk }) })

abbrev pub with_mm : Heap → Option Mm → Option Heap
with_mm h none = none
with_mm h (some mm) = some (record h { mm = mm })

unfoldable pub finish_brk : Bool → Heap → Option Heap
finish_brk has_memory h = with_mm h (area_end has_memory h.mm (find_area h.mm.mmap h.mm.start_brk))

abbrev pub moved_brk : Bool → ℕ → Option Heap → Option Heap
moved_brk has_memory addr none = none
moved_brk has_memory addr (some h) = finish_brk has_memory (set_brk addr h)

-- The result in x0 is the break after the call.
unfoldable pub sys_brk : Bool → ℕ → ℕ → Mm → (ℕ → ℕ) → Option Heap
sys_brk has_memory pg_dir addr mm mem =
    let h : Heap = record { mm = mm; run = record { tables = mem; freed = [] } } in
    if (addr == 0) || (ltb addr mm.start_brk || ltb max_brk_addr addr)
    then finish_brk has_memory h
    else if ltb (upper_page_addr addr) (upper_page_addr mm.brk)
    then moved_brk has_memory addr
        (shrink pg_dir (upper_page_addr addr) (upper_page_addr mm.brk) mm mem)
    else finish_brk has_memory (set_brk addr h)
