-- ===== src/Sched.antt =====
-- The task table and the scheduler's choice, kernel/sched.c. Each function takes `tasks_lock` for
-- the whole of its work, so that a function is one step. A task pointer is a slot number, and
-- `tasks` is the array, meant below `max_num_processes`.
pub mod Choice
pub mod Slots
pub mod Reach
pub mod Thread
mod Tests
use tout_os.Base.{
  ℕ, zero, suc, ◌+◌, ◌-◌, ◌*◌, ◌/◌, ◌^◌, Bool, true, false, not, ◌&&◌, ◌||◌, Option, none, some,
  List, [], ◌∷◌, ltb, leb, ◌==◌, if◌then◌else◌, add64, ℤ, pos, negsuc,
}

abbrev pub max_num_processes : ℕ
max_num_processes = 32

-- enum process_state
abbrev pub initializing : ℕ
initializing = 0

abbrev pub running : ℕ
running = 1

abbrev pub sleeping : ℕ
sleeping = 2

abbrev pub stopped : ℕ
stopped = 3

abbrev pub num_proc_states : ℕ
num_proc_states = 4

-- struct task_struct, less the saved registers and the name
pub record Task : Type 0 where
  pub state : ℕ
  pub stack : ℕ
  pub pid : ℕ
  pub in_use : Bool
  pub pg_dir : ℕ
  pub mm : ℕ
  pub stime : ℕ
  pub utime : ℕ

-- after memset (t, 0, sizeof (*t))
abbrev pub zeroed : Task
zeroed = record {
  state = 0;
  stack = 0;
  pid = 0;
  in_use = false;
  pg_dir = 0;
  mm = 0;
  stime = 0;
  utime = 0;
}

-- `thread_info` is the task that the word at the base of each kernel stack names, and `flushed` the
-- address space numbers whose TLB entries were invalidated, the last one first.
pub record Sched : Type 0 where
  pub tasks : ℕ → Task
  pub thread_info : ℕ → ℕ
  pub flushed : List ℕ

abbrev pub put : (ℕ → Task) → ℕ → Task → ℕ → Task
put tasks i t j = if j == i then t else tasks j

-- the static variables at the start
abbrev pub boot : Sched
boot = record { tasks = λ i. zeroed; thread_info = λ i. 0; flushed = [] }

unfoldable pub is_task_ready : Task → Bool
is_task_ready t = t.in_use && (t.state == running)

-- stime and utime are u64.
unfoldable pub proc_time : Task → ℕ
proc_time t = add64 t.stime t.utime

-- min_time_index, -1 as `none`, and min_time
abbrev pub Best : Type 0
Best = Option (ℕ × ℕ)

-- the body of the loop
unfoldable pub better : (ℕ → Task) → ℕ → Best → Best
better tasks i best = elim (is_task_ready (tasks i)) [
  | true ↦ elim best [
    | none ↦ some (i, proc_time (tasks i))
    | some (index, min_time) ↦
        if ltb (proc_time (tasks i)) min_time
        then some (i, proc_time (tasks i))
        else some (index, min_time)
  ]
  | false ↦ best
]

-- The loop of `get_next_proc` from `i` on, in steps of `num_cpus`.
unfoldable pub next_loop : ℕ → ℕ → (ℕ → Task) → ℕ → Best → Best
next_loop zero num_cpus tasks i best = best
next_loop (suc fuel) num_cpus tasks i best = elim (ltb i max_num_processes) [
  | true ↦ next_loop fuel num_cpus tasks (i + num_cpus) (better tasks i best)
  | false ↦ best
]

-- One round for each slot is enough, since `num_cpus` is not 0.
unfoldable pub get_next_proc : ℕ → ℕ → Sched → Option ℕ
get_next_proc num_cpus core_id s =
    elim (next_loop max_num_processes num_cpus s.tasks core_id none) [
      | none ↦ none
      | some (min_time_index, min_time) ↦ some min_time_index
    ]

-- a task of the table, or the idle task of a core
pub data Proc : Type 0 where
  task : ℕ → Proc
  swapper : ℕ → Proc

-- the task that `schedule` on the core goes on with
unfoldable pub schedule : ℕ → ℕ → Sched → Proc
schedule num_cpus core_id s = elim (get_next_proc num_cpus core_id s) [
  | none ↦ swapper core_id
  | some i ↦ task i
]

-- &proc_kernel_stacks[i]
abbrev pub kernel_stack_size : ℕ
kernel_stack_size = 4096

module _ (proc_kernel_stacks : ℕ) where
  -- the task that takes slot `i`
  abbrev pub taken : Task → ℕ → Task
  taken t i = record t {
    in_use = true;
    pid = i + 1;
    stack = proc_kernel_stacks + kernel_stack_size * i;
  }

  abbrev pub take_slot : Sched → ℕ → Sched
  take_slot s i = record s {
    tasks = put s.tasks i (taken (s.tasks i) i);
    thread_info = λ j. if j == i then i else s.thread_info j;
  }

  -- a stopped task is removed
  abbrev pub reap : Sched → ℕ → Sched
  reap s i = record s { tasks = put s.tasks i zeroed; flushed = (s.tasks i).pid ∷ s.flushed }

  -- the loop of `get_task_slot`, with `k` slots left from `i` on
  unfoldable pub slot_loop : ℕ → ℕ → Sched → Option ℕ × Sched
  slot_loop zero i s = (none, s)
  slot_loop (suc k) i s = elim ((s.tasks i).in_use) [
    | false ↦ (some i, take_slot s i)
    | true ↦ elim ((s.tasks i).state == stopped) [
      | true ↦ slot_loop k (i + 1) (reap s i)
      | false ↦ slot_loop k (i + 1) s
    ]
  ]

  unfoldable pub get_task_slot : Sched → Option ℕ × Sched
  get_task_slot s = slot_loop max_num_processes 0 s

unfoldable pub free_task_slot : Option ℕ → Sched → Sched
free_task_slot none s = s
free_task_slot (some i) s = record s { tasks = put s.tasks i zeroed }

-- `index < 0` is `pid < 1`.
unfoldable pub pid_to_task : ℤ → Option ℕ
pid_to_task (negsuc n) = none
pid_to_task (pos pid) =
    if leb 1 pid && ltb (pid - 1) max_num_processes then some (pid - 1) else none

unfoldable pub set_task_state : Option ℕ → ℤ → Sched → Sched
set_task_state none state s = s
set_task_state (some i) (negsuc n) s = s
set_task_state (some i) (pos state) s =
    if leb num_proc_states state
    then s
    else record s { tasks = put s.tasks i (record (s.tasks i) { state = state }) }

-- the state change of `do_exit`, without the lock, before `schedule`
unfoldable pub do_exit : ℕ → Sched → Sched
do_exit i s = record s { tasks = put s.tasks i (record (s.tasks i) { state = stopped }) }
