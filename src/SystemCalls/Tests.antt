-- ===== src/SystemCalls/Tests.antt =====
-- Runs of the system calls of kernel/isr.c, and their theorems at concrete inputs.
use tout_os.Base.{
  ℕ, ◌+◌, ◌*◌, ◌<◌, subst, replicate, pos, minus_one, ◌-◌, ◌^◌, ◌≡◌, refl, ap, sym, true, some,
  List, [], ◌∷◌, ◌==◌, if◌then◌else◌, arith,
}
use tout_os.Pages.{Usage, page_pool_start}
use tout_os.PageTable.Walk.{IsMapped}
use tout_os.PageTable.Sample.{
  only_root, start-IsTree, dir, FreePage, two_owner, with_page, with_page_tree, page_3-IsMapped,
}
use tout_os.Areas.{Area, Mm, find_area, setup_vma}
use tout_os.UserPages.Supply.{IsFree}
use tout_os.SystemCalls.{
  Regs, returns, minus_enosys, enter_syscall, entry_at, Space, page_fault, Heap, sys_brk,
  upper_page_addr, finish_brk,
}
use tout_os.SystemCalls.Fault.{Served, page_fault-Served}
use tout_os.SystemCalls.HeapArea.{IsHeap}
use tout_os.LineDiscipline.{LineBuffer, to_line_discipline}
use tout_os.SystemCalls.Io.{gives, typed, no_keys, one_more, read_stdin, sys_read, sys_read-typed}
use tout_os.SystemCalls.Brk.{BrkDone, sys_brk-BrkDone}

-- number 7, with the argument 5
abbrev unknown_call : Regs
unknown_call = record { x0 = 5; x8 = 7; orig_x0 = 0; syscallno = 0 }

not_there :
    enter_syscall unknown_call
    ≡ returns (record { x0 = minus_enosys; x8 = 7; orig_x0 = 5; syscallno = 7 })
unfolding enter_syscall entry_at
not_there = refl

-- page 0 of the pool is the directory
abbrev one_held : Usage
one_held j = if j == 0 then 1 else 0

abbrev heap_area : Area
heap_area = record {
  vm_start = 0x80000;
  vm_end = 0x82000;
  vm_flags = 3;
  lma = 2 ^ 64 - 1;
  pages_block_list = [];
}

abbrev empty_space : Space
empty_space = record { mmap = heap_area ∷ []; tables = record { mem = λ a. 0; pages = one_held } }

directory_held : IsFree one_held page_pool_start → ⊥
directory_held f =
    let (i, lt, at, free) = f in
    let first : i ≡ 0 = omega (arith, at) in
    let held : 1 ≡ one_held i = ap one_held (sym first) in omega (arith, held, free)

page_fault-Served_example :
    Served page_pool_start 0x81008 empty_space (page_fault true page_pool_start 0x81008 empty_space)
page_fault-Served_example =
    page_fault-Served true page_pool_start 0x81008 empty_space (only_root page_pool_start)
      (omega arith) (start-IsTree true (IsFree one_held) page_pool_start refl directory_held)

abbrev low_area : Area
low_area = record {
  vm_start = 0x2000;
  vm_end = 0x4000;
  vm_flags = 3;
  lma = 2 ^ 64 - 1;
  pages_block_list = [];
}

abbrev small_heap : Mm
small_heap = record { mmap = low_area ∷ []; start_brk = 0x2000; brk = 0x4000 }

small_heap-IsHeap : IsHeap small_heap
unfolding find_area
small_heap-IsHeap = record {
  low = omega arith;
  high = omega arith;
  covered = λ lt. record { area = low_area; is_found = refl; ends = refl };
}

last_page-IsMapped :
    (k : ℕ)
    → upper_page_addr 0x3000 + 4096 * k < upper_page_addr 0x4000
    → IsMapped true with_page dir (upper_page_addr 0x3000 + 4096 * k)
last_page-IsMapped k lt =
    let same : 0x3000 ≡ upper_page_addr 0x3000 + 4096 * k = omega (arith, lt) in
    subst (IsMapped true with_page dir) same page_3-IsMapped

sys_brk-BrkDone_example :
    BrkDone
      (FreePage 3)
      two_owner
      dir
      0x3000
      small_heap
      with_page
      (sys_brk true dir 0x3000 small_heap with_page)
sys_brk-BrkDone_example =
    sys_brk-BrkDone dir 0x3000 small_heap with_page (FreePage 3) two_owner (omega arith)
      with_page_tree (λ some lo. last_page-IsMapped) small_heap-IsHeap

abbrev empty_heap : Mm
empty_heap = record { mmap = []; start_brk = 0x80000; brk = 0x80000 }

abbrev empty_area : Area
empty_area = record {
  vm_start = 0x80000;
  vm_end = 0x80000;
  vm_flags = 3;
  lma = 2 ^ 64 - 1;
  pages_block_list = [];
}

abbrev queried : List Area → Heap
queried mmap = record {
  mm = record empty_heap { mmap = mmap };
  run = record { tables = λ a. 0; freed = [] };
}

-- Each query of the break of an empty heap adds an area.
one_area : sys_brk true page_pool_start 0 empty_heap (λ a. 0) ≡ some (queried (empty_area ∷ []))
unfolding sys_brk finish_brk setup_vma find_area
one_area = refl

two_areas :
    sys_brk true page_pool_start 0 (queried (empty_area ∷ [])).mm (λ a. 0)
    ≡ some (queried (empty_area ∷ empty_area ∷ []))
unfolding sys_brk finish_brk setup_vma find_area
two_areas = refl

abbrev no_line : LineBuffer
no_line = record { uart_in_buf = replicate 256 0; uib_index = 0 }

-- `ab` and the enter key, read with room for 80 bytes
sys_read-typed_example :
    sys_read 0 80 (to_line_discipline 13 (typed (97 ∷ 98 ∷ []) no_line)).0
    ≡ gives
        (pos 3)
        (97 ∷ 98 ∷ 10 ∷ [])
        (record (to_line_discipline 13 (typed (97 ∷ 98 ∷ []) no_line)).0 { uib_index = 0 })
sys_read-typed_example =
    sys_read-typed (97 ∷ 98 ∷ []) no_line 0 80 (refl, omega arith) refl
      (one_more (refl, omega arith) (one_more (refl, omega arith) no_keys)) (omega arith) refl
      (omega arith)

-- With room for fewer bytes the line stays.
sys_read_short :
    sys_read 0 2 (to_line_discipline 13 (typed (97 ∷ 98 ∷ []) no_line)).0
    ≡ gives minus_one [] (to_line_discipline 13 (typed (97 ∷ 98 ∷ []) no_line)).0
unfolding sys_read read_stdin to_line_discipline
sys_read_short = refl
