-- ===== src/SystemCalls/Numbers.antt =====
-- Which system call of kernel/isr.c a number runs.
use tout_os.Base.{ℕ, suc, ◌≤◌, ◌≡◌, Option, none, some, List, [], ◌∷◌}
use tout_os.SystemCalls.{Syscall, nr, minus_enosys, Regs, Entered, returns, runs}

-- what an entry does with the registers: the call that has the number runs, or -ENOSYS is returned
pub data Dispatched (regs : Regs) : Entered → Type 0 where
  refused :
      ((f : Syscall) → nr f ≡ regs.x8 → ⊥)
      → Dispatched regs (
          returns
            (record { x0 = minus_enosys; x8 = regs.x8; orig_x0 = regs.x0; syscallno = regs.x8 }))
  taken :
      (f : Syscall)
      → nr f ≡ regs.x8
      → Dispatched regs
          (runs f (record { x0 = regs.x0; x8 = regs.x8; orig_x0 = regs.x0; syscallno = regs.x8 }))

-- the table has at each number the call of the number, and NULL from 7 on
data Entry (n : ℕ) : Option Syscall → Type 0 where
  there : (f : Syscall) → nr f ≡ n → Entry n (some f)
  behind : 7 ≤ n → Entry n none

-- The calls of the list have the numbers from `k` on.
data Numbered : ℕ → List Syscall → Type 0 where
  done : {k : ℕ} → k ≡ 7 → Numbered k []
  more :
      {k : ℕ} {f : Syscall} {rest : List Syscall}
      → nr f ≡ k
      → Numbered (suc k) rest
      → Numbered k (f ∷ rest)
