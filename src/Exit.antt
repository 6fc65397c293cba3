-- ===== src/Exit.antt =====
-- The end of the memory of a process, exit_mm of kernel/sched.c: its pages and its page tables go back
-- to the page allocator.
pub mod Held
pub mod Runs
use tout_os.Base.{ℕ, zero, suc, ◌+◌, ◌*◌, ◌==◌, Bool, true, false, List}
use tout_os.Pages.{Usage, Release, wild, halted, done, free_pages}
use tout_os.PageTable.{entry, next_table}
use tout_os.Areas.{Area, exit_areas}

abbrev pub then_release : Release → (Usage → Release) → Release
then_release wild f = wild
then_release halted f = halted
then_release (done u) f = f u

-- the loop of `free_page_tables_layer1`, with `n` entries left from `i` on
unfoldable pub layer1_loop : ℕ → ℕ → (ℕ → ℕ) → ℕ → Usage → Release
layer1_loop zero i mem page_table u = done u
layer1_loop (suc n) i mem page_table u = elim (mem (entry page_table i) == 0) [
  | true ↦ layer1_loop n (i + 1) mem page_table u
  | false ↦
      then_release (free_pages (next_table true mem (entry page_table i)) 0 u)
        (λ v. layer1_loop n (i + 1) mem page_table v)
]

unfoldable pub free_page_tables_layer1 : (ℕ → ℕ) → ℕ → Usage → Release
free_page_tables_layer1 mem page_table u = elim (page_table == 0) [
  | true ↦ done u
  | false ↦ then_release (layer1_loop 512 0 mem page_table u) (λ v. free_pages page_table 0 v)
]

-- the loop of `free_page_tables`
unfoldable pub layer0_loop : ℕ → ℕ → (ℕ → ℕ) → ℕ → Usage → Release
layer0_loop zero i mem pg_dir u = done u
layer0_loop (suc n) i mem pg_dir u = elim (mem (entry pg_dir i) == 0) [
  | true ↦ layer0_loop n (i + 1) mem pg_dir u
  | false ↦
      then_release (free_page_tables_layer1 mem (next_table true mem (entry pg_dir i)) u)
        (λ v. layer0_loop n (i + 1) mem pg_dir v)
]

unfoldable pub free_page_tables : (ℕ → ℕ) → ℕ → Usage → Release
free_page_tables mem pg_dir u = elim (pg_dir == 0) [
  | true ↦ done u
  | false ↦ then_release (layer0_loop 512 0 mem pg_dir u) (λ v. free_pages pg_dir 0 v)
]

-- `exit_mm` of a task that has an `mm`; the memory of the areas themselves is left out
unfoldable pub exit_mm : List Area → (ℕ → ℕ) → ℕ → Usage → Release
exit_mm mmap mem pg_dir u = then_release (exit_areas mmap u) (λ v. free_page_tables mem pg_dir v)
