-- ===== src/WaitQueue/Reader.antt =====
-- A reader of the standard input beside the keys: the wait of read_stdin of kernel/isr.c in the queue that
-- to_line_discipline of kernel/uart.c wakes. What is done under `uib_lock` is one step.
use tout_os.Base.{ℕ, ◌≡◌, List, [], ◌∷◌, some, ℤ, pos}
use tout_os.LineDiscipline.{LineBuffer, Effect, write_char, wake_readers, to_line_discipline}
use tout_os.Sched.{Sched, set_task_state, running, sleeping}
use tout_os.SystemCalls.Io.{Reading, sleeps, gives, read_stdin}
use tout_os.WaitQueue.{ListOps, add_wait_queue, remove_wait_queue, wake_up}

-- the line buffer with its wait queue, and the tasks
pub record Console (L : Type 0) : Type 0 where
  pub line : LineBuffer
  pub uib_wq_head : L
  pub sched : Sched

-- Where the reader is: before the call, in the loop behind spin_unlock_irqrestore, behind set_task_state, in
-- schedule, or back with what the call returns and copies.
pub data Reader : Type 0 where
  outside : Reader
  unlocked : Reader
  set_asleep : Reader
  off : Reader
  back : ℤ → List ℕ → Reader

abbrev pub set_state : ℕ → ℕ → {L : Type 0} → Console L → Console L
set_state t state c = record c { sched = set_task_state (some t) (pos state) c.sched }

module _ {L : Type 0} (ops : ListOps L) (t count : ℕ) where
  -- the first look at the line
  abbrev pub begun : Console L → Reading → Reader × Console L
  begun c (gives ret bytes line) = (back ret bytes, record c { line = line })
  begun c sleeps = (
    unlocked,
    set_state t sleeping (record c { uib_wq_head = add_wait_queue ops t c.uib_wq_head }),
  )

  unfoldable pub begin_read : Console L → Reader × Console L
  begin_read c = begun c (read_stdin count c.line)

  -- a look at the line after `schedule`
  abbrev pub looked : Console L → Reading → Reader × Console L
  looked c (gives ret bytes line) = (
    back ret bytes,
    set_state t running
        (record c { line = line; uib_wq_head = remove_wait_queue ops t c.uib_wq_head }),
  )
  looked c sleeps = (unlocked, c)

  unfoldable pub look_again : Console L → Reader × Console L
  look_again c = looked c (read_stdin count c.line)

  -- what a key does to the readers that wait
  abbrev pub wakes : List Effect → L → Sched → Sched
  wakes [] wq s = s
  wakes (write_char c ∷ es) wq s = wakes es wq s
  wakes (wake_readers ∷ es) wq s = wakes es wq (wake_up ops wq s)

  unfoldable pub press : ℕ → Console L → Console L
  press key c =
      let (line, effects) = to_line_discipline key c.line in
      record c { line = line; sched = wakes effects c.uib_wq_head c.sched }

  -- a step of the reader or a key
  pub data Step : Reader × Console L → Reader × Console L → Type 0 where
    begins : {c : Console L} → Step (outside, c) (begin_read c)
    sets_asleep : {c : Console L} → Step (unlocked, c) (set_asleep, set_state t sleeping c)
    schedules : {c : Console L} → Step (set_asleep, c) (off, c)
    resumes : {c : Console L} → (c.sched.tasks t).state ≡ running → Step (off, c) (look_again c)
    key : {r : Reader} {c : Console L} (k : ℕ) → Step (r, c) (r, press k c)

  pub data Reach (c0 : Console L) : Reader × Console L → Type 0 where
    here : Reach c0 (outside, c0)
    then_step : {x y : Reader × Console L} → Reach c0 x → Step x y → Reach c0 y
