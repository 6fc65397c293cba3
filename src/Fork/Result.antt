-- ===== src/Fork/Result.antt =====
-- What sys_fork of kernel/isr.c does as a whole.
use tout_os.Base.{ℕ, ◌*◌, ◌≤◌, ◌<◌, ◌≡◌, false, []}
use tout_os.Pages.{Usage, Release}
use tout_os.PageTable.{PageTables}
use tout_os.Areas.{Mm, exit_areas}
use tout_os.Exit.Held.{Held, Returned}
use tout_os.Sched.{Sched, taken, running, max_num_processes}
use tout_os.Sched.Slots.{IsNoTask}
use tout_os.Fork.{Forked, forked, asserted, no_child}
use tout_os.PageTable.Draws.{RunsOut}
use tout_os.UserPages.{get_zeroed_pages}
use tout_os.UserPages.Draws.{areas_pages}
use tout_os.Fork.Tables.{Takes}
use tout_os.Fork.Copy.{IsRun}
use tout_os.Fork.Back.{Copies}

-- The child in slot `i`, which was free.
pub record IsChild (stacks mm_addr : ℕ) (s : Sched) (i pg_dir : ℕ) (s' : Sched) : Type 0 where
  pub slot : i < max_num_processes
  pub was_free : (s.tasks i).in_use ≡ false
  pub runs :
      s'.tasks i
      ≡ record (taken stacks (s.tasks i) i) { mm = mm_addr; pg_dir = pg_dir; state = running }

-- What `sys_fork` does from the pages `u` and the tasks `s`.
pub data ForkOutcome (stacks mm_addr : ℕ) (parent : Mm) (u : Usage) (s : Sched)
    : Forked → Type 0 where
  undone :
      {r : Release} {s' : Sched}
      → Returned u r
      → IsNoTask s s'
      → ForkOutcome stacks mm_addr parent u s (no_child r s')
  out_of_tables :
      (mm : Mm) (v : Usage) (pg_dir : ℕ) (base : Usage)
      → IsRun u base pg_dir 0
      → Copies parent.mmap [] mm.mmap
      → Returned base (exit_areas mm.mmap v)
      → RunsOut get_zeroed_pages (2 * areas_pages mm.mmap) v
      → ForkOutcome stacks mm_addr parent u s asserted
  child_made :
      {mm : Mm} {t : PageTables Usage} {s' : Sched} (i pg_dir k : ℕ) (base left : Usage)
      → IsChild stacks mm_addr s i pg_dir s'
      → IsRun u base pg_dir 0
      → Copies parent.mmap [] mm.mmap
      → mm.start_brk ≡ parent.start_brk
      → mm.brk ≡ parent.brk
      → k ≤ 2 * areas_pages mm.mmap
      → Takes k base left
      → Returned left (exit_areas mm.mmap t.pages)
      → ForkOutcome stacks mm_addr parent u s (forked i mm t s')
