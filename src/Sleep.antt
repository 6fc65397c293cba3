-- ===== src/Sleep.antt =====
-- Sleeping for a time: schedule_timeout and msleep of kernel/sched.c, and sys_nanosleep of
-- kernel/isr.c. What the other tasks and the interrupts do until the task runs again is an argument
-- for each time that it is resumed. The members of a request are not negative and do not overflow a
-- long; that `rem` is zeroed is left out. `fuel` is for the walk over the timers, `none` is a task
-- that is not resumed often enough.
pub mod Timeout
pub mod Until
mod Tests
use tout_os.Base.{
  ℕ, zero, suc, ◌+◌, ◌-◌, ◌*◌, ◌/◌, ◌%◌, ◌^◌, Bool, true, false, ◌&&◌, not, Option, none, some,
  List, [], ◌∷◌, ltb, ◌==◌, if◌then◌else◌, ℤ, pos, negsuc, minus_one, to_int, sub64, add32,
}
use tout_os.Timer.{Timers, init_timer, add_timer, del_timer, put_node}
use tout_os.Sched.{Sched, set_task_state, sleeping, running}

-- the timers and the tasks
pub record World : Type 0 where
  pub timers : Timers
  pub sched : Sched

-- The tick at which the task runs again, and what happened until then.
pub record Resume : Type 0 where
  pub tick : ℕ
  pub others : World → World

-- TICK in milliseconds, and HZ
abbrev pub tick_ms : ℕ
tick_ms = 10

abbrev pub hz : ℕ
hz = 1000 / tick_ms

-- the function `process_timeout` by its number
abbrev pub process_timeout_function : ℕ
process_timeout_function = 1

unfoldable pub process_timeout : ℕ → Sched → Sched
process_timeout t s = set_task_state (some t) (pos running) s

-- the three assignments to the timer at `p`
abbrev pub set_timer : ℕ → ℕ → ℕ → Timers → Timers
set_timer p expires data_arg s = record s {
  node = put_node s.node p (record (s.node p) {
    expires = expires;
    function = process_timeout_function;
    data_arg = data_arg;
  });
}

-- `delta < 0` gives 0
abbrev pub not_negative : ℤ → ℕ
not_negative (pos delta) = delta
not_negative (negsuc n) = 0

-- a 64-bit register from an int
abbrev pub extend : ℤ → ℕ
extend (pos n) = n
extend (negsuc n) = 2 ^ 64 - n - 1

abbrev pub go_to_sleep : ℕ → World → World
go_to_sleep proc w = record w { sched = set_task_state (some proc) (pos sleeping) w.sched }

-- The timer stands on the stack of the task, at `p`; `proc` is the slot of the task.
module _ (fuel p proc : ℕ) where
  -- before and after `schedule`
  abbrev pub arm : ℕ → World → World
  arm expires w = record w {
    timers = add_timer p (set_timer p expires proc (init_timer p w.timers));
  }

  unfoldable pub schedule_timeout : ℕ → ℕ → World → Resume → Option (ℕ × World)
  schedule_timeout timeout tick w r =
      let expires = (timeout + tick) % 2 ^ 32 in
      let w' = r.others (arm expires w) in
      elim (del_timer fuel p w'.timers) [
        | none ↦ none
        | some t ↦ some (not_negative (to_int (sub64 expires r.tick)), record w' { timers = t })
      ]

  -- the loop of `msleep`, with the tick at its end
  unfoldable pub msleep_loop : List Resume → ℕ → ℕ → World → Option (ℕ × World)
  msleep_loop [] timeout tick w = if timeout == 0 then some (tick, w) else none
  msleep_loop (r ∷ rs) timeout tick w = elim (timeout == 0) [
    | true ↦ some (tick, w)
    | false ↦ elim (schedule_timeout timeout tick (go_to_sleep proc w) r) [
      | none ↦ none
      | some (delta, w') ↦ msleep_loop rs delta r.tick w'
    ]
  ]

  -- timeout is computed in unsigned int
  unfoldable pub msleep : List Resume → ℕ → ℕ → World → Option (ℕ × World)
  msleep rs msecs tick w = msleep_loop rs (add32 msecs (tick_ms - 1) / tick_ms) tick w

  abbrev pub is_positive : ℤ → Bool
  is_positive (pos n) = ltb 0 n
  is_positive (negsuc n) = false

  -- The loop of `sys_nanosleep`; `done` is `ret == 0`.
  unfoldable pub nanosleep_loop : List Resume → Bool → ℤ → ℤ → ℕ → World → Option (ℕ × World)
  nanosleep_loop [] done timeout end_tick tick w =
      if not done && is_positive timeout then none else some (tick, w)
  nanosleep_loop (r ∷ rs) done timeout end_tick tick w = elim (not done && is_positive timeout) [
    | false ↦ some (tick, w)
    | true ↦ elim (schedule_timeout (not_negative timeout) tick w r) [
      | none ↦ none
      | some (ret, w') ↦
          nanosleep_loop rs (ret == 0) (to_int (sub64 (extend end_tick) r.tick)) end_tick r.tick w'
    ]
  ]

  abbrev pub timespec_to_jiffies : ℕ → ℕ → ℕ
  timespec_to_jiffies tv_sec tv_nsec =
      (tv_sec * hz + (tv_nsec + tick_ms * 1000000 - 1) * hz / 1000000000) % 2 ^ 32

  -- what is returned, the tick at the end and the state
  abbrev pub woken : Option (ℕ × World) → Option (ℤ × ℕ × World)
  woken none = none
  woken (some (tick, w)) = some (pos 0, tick, w)

  unfoldable pub sys_nanosleep : List Resume → ℕ → ℕ → ℕ → World → Option (ℤ × ℕ × World)
  sys_nanosleep rs tv_sec tv_nsec tick w =
      let timeout = to_int (timespec_to_jiffies tv_sec tv_nsec) in
      if is_positive timeout
      then woken (
          nanosleep_loop rs false timeout (to_int (extend timeout + tick)) tick
            (go_to_sleep proc w))
      else some (minus_one, tick, w)
