-- ===== src/Mutex.antt =====
-- kernel/mutex.c. A section under the spin lock of the mutex is one step. The tasks are numbered by
-- their pid; `waiting` is the bitmap as a map from bits, of which an unsigned int has 32.
pub mod Exclusion
pub mod Rounds
pub mod Fair
pub mod Progress
mod Tests
use tout_os.Base.{
  ℕ, zero, suc, ◌+◌, ◌-◌, Bool, true, false, ◌&&◌, Option, none, some, ltb, ◌==◌, if◌then◌else◌,
}

-- mutex_t: `locked` is state == MUTEX_LOCKED
pub record Mutex : Type 0 where
  pub locked : Bool
  pub waiting : ℕ → Bool

-- sizeof (m->waiting) * 8
abbrev pub max_pid : ℕ
max_pid = 32

-- A bit behind the bitmap is lost when the word is stored.
abbrev pub set_bit : (ℕ → Bool) → ℕ → Bool → ℕ → Bool
set_bit w pid b i = if i == pid then ltb pid max_pid && b else w i

unfoldable pub init_mutex : Mutex
init_mutex = record { locked = false; waiting = λ i. false }

-- What a round of the loop of `mutex_lock` does: the task has the lock, or is put to sleep.
pub data LockRound : Type 0 where
  acquired : Mutex → LockRound
  asleep : Mutex → LockRound

unfoldable pub mutex_lock_round : ℕ → Mutex → LockRound
mutex_lock_round pid p =
    if p.locked
    then asleep (record p { waiting = set_bit p.waiting pid true })
    else acquired (record p { locked = true })

-- the loop of `get_next_waiting` at bit `i`, with `k` bits left
unfoldable pub waiting_loop : ℕ → ℕ → (ℕ → Bool) → Option ℕ
waiting_loop zero i w = none
waiting_loop (suc k) i w = elim (w i) [ true ↦ some i | false ↦ waiting_loop k (i + 1) w ]

unfoldable pub get_next_waiting : Mutex → Option ℕ
get_next_waiting m = waiting_loop max_pid 0 m.waiting

-- The mutex after `mutex_unlock`, and the pid of the task that is woken, if there is one. Bit 0 is
-- found like the others, but wakes nobody.
unfoldable pub mutex_unlock : Mutex → Option ℕ × Mutex
mutex_unlock p = elim (get_next_waiting p) [
  | none ↦ (none, record p { locked = false })
  | some pid ↦
      if ltb 0 pid
      then (some pid, record { locked = false; waiting = set_bit p.waiting pid false })
      else (none, record p { locked = false })
]
