-- ===== src/Areas.antt =====
-- The areas of a process, kernel/sched.c. The list from mm->mmap is the list of areas, the first one
-- first; `vm_prev` follows from it. The allocator is a parameter: whether it gives memory.
pub mod Find
mod Tests
use tout_os.Base.{
  ℕ, zero, suc, ◌+◌, ◌-◌, Bool, true, false, ◌&&◌, Option, none, some, List, [], ◌∷◌, ◌++◌, ltb,
  leb, ◌==◌, if◌then◌else◌, ℤ, pos, minus_one, bit_and,
}
use tout_os.Pages.{Usage, Release, wild, halted, done, free_pages}

-- struct pages_block
pub record PagesBlock : Type 0 where
  pub user_virt_addr : ℕ
  pub linear_addr : ℕ
  pub order : ℕ

-- struct vm_area_struct, with `pages_block_list` as a list
pub record Area : Type 0 where
  pub vm_start : ℕ
  pub vm_end : ℕ
  pub vm_flags : ℕ
  pub lma : ℕ
  pub pages_block_list : List PagesBlock

-- struct mm_struct
pub record Mm : Type 0 where
  pub mmap : List Area
  pub start_brk : ℕ
  pub brk : ℕ

abbrev pub vm_shared : ℕ
vm_shared = 8

-- `has_memory` is whether `kzalloc` gives memory; `none` as the task is NULL.
unfoldable pub setup_vma : Bool → Option Mm → ℕ → ℕ → ℕ → ℕ → ℤ × Option Mm
setup_vma has_memory none vm_start vm_end vm_flags lma = (minus_one, none)
setup_vma has_memory (some mm) vm_start vm_end vm_flags lma =
    if has_memory
    then (
      pos 0,
      some (record mm {
        mmap =
            record {
              vm_start = vm_start;
              vm_end = vm_end;
              vm_flags = vm_flags;
              lma = lma;
              pages_block_list = [];
            }
            ∷ mm.mmap;
      }),
    )
    else (minus_one, some mm)

-- the loop of `find_vma`
unfoldable pub find_area : List Area → ℕ → Option Area
find_area [] addr = none
find_area (vma ∷ rest) addr = elim (leb vma.vm_start addr && ltb addr vma.vm_end) [
  | true ↦ some vma
  | false ↦ find_area rest addr
]

unfoldable pub find_vma : Option Mm → ℕ → Option Area
find_vma none addr = none
find_vma (some mm) addr = find_area mm.mmap addr

-- The two addresses are 0 for NULL; `list_add_tail` puts the block at the end.
unfoldable pub add_pages_block : Bool → Option Area → ℕ → ℕ → ℕ → ℤ × Option Area
add_pages_block has_memory none user_virt_addr linear_addr order = (minus_one, none)
add_pages_block has_memory (some vma) user_virt_addr linear_addr order =
    if user_virt_addr == 0
    then (minus_one, some vma)
    else if linear_addr == 0
    then (minus_one, some vma)
    else if has_memory
    then (
      pos 0,
      some (record vma {
        pages_block_list =
            vma.pages_block_list
            ++ (record { user_virt_addr = user_virt_addr; linear_addr = linear_addr; order = order }
                ∷ []);
      }),
    )
    else (minus_one, some vma)

-- the loop of `free_pages_blocks`
unfoldable pub free_pages_blocks : List PagesBlock → Usage → Release
free_pages_blocks [] u = done u
free_pages_blocks (pb ∷ rest) u = elim (free_pages pb.linear_addr pb.order u) [
  | wild ↦ wild
  | halted ↦ halted
  | done u' ↦ free_pages_blocks rest u'
]

-- The loop of `exit_mm`: what the areas that are not shared hold is freed.
unfoldable pub exit_areas : List Area → Usage → Release
exit_areas [] u = done u
exit_areas (vma ∷ rest) u = elim (bit_and vma.vm_flags vm_shared == 0) [
  | false ↦ exit_areas rest u
  | true ↦ elim (free_pages_blocks vma.pages_block_list u) [
    | wild ↦ wild
    | halted ↦ halted
    | done u' ↦ exit_areas rest u'
  ]
]
