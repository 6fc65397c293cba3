-- ===== src/Sched/Tests.antt =====
-- Runs of kernel/sched.c, and its theorems at concrete inputs.
use tout_os.Base.{ℕ, ◌+◌, ◌≡◌, refl, some, arith, pos, true}
use tout_os.Sched.{
  Sched, boot, running, schedule, get_task_slot, slot_loop, max_num_processes, set_task_state,
  pid_to_task, take_slot,
}
use tout_os.Sched.Choice.{schedule-Picked, Picked}
use tout_os.Sched.Thread.{Threads, ThreadOutcome, kernel_thread, kernel_thread-Outcome}
use tout_os.Sched.Slots.{get_task_slot-Slot, Slot}
use tout_os.Sched.Reach.{pid_to_task-pid, Reach, start, next, slot_taken}

-- two tasks, the second with its state set
abbrev two_tasks : Sched
two_tasks = take_slot 4096 (take_slot 4096 boot 0) 1

abbrev one_runs : Sched
one_runs = set_task_state (some 1) (pos running) two_tasks

first_slot : get_task_slot 4096 boot ≡ (some 0, take_slot 4096 boot 0)
unfolding get_task_slot slot_loop
first_slot = refl

second_slot : get_task_slot 4096 (take_slot 4096 boot 0) ≡ (some 1, two_tasks)
unfolding get_task_slot slot_loop
second_slot = refl

two_tasks-Reach : Reach 4096 two_tasks
two_tasks-Reach =
    next {s = take_slot 4096 boot 0} (next {s = boot} start (slot_taken {r = some 0} first_slot))
      (slot_taken {r = some 1} second_slot)

schedule-Picked_example : Picked 2 1 (one_runs.tasks) (schedule 2 1 one_runs)
schedule-Picked_example = schedule-Picked 2 1 one_runs (omega arith)

get_task_slot-Slot_example : Slot 4096 two_tasks 0 max_num_processes (get_task_slot 4096 two_tasks)
get_task_slot-Slot_example = get_task_slot-Slot 4096 two_tasks

pid_to_task-pid_example :
    (pid_to_task (pos ((two_tasks.tasks 1).pid)) ≡ some 1) × (two_tasks.thread_info 1 ≡ 1)
pid_to_task-pid_example = pid_to_task-pid 4096 two_tasks 1 two_tasks-Reach (omega arith) refl

abbrev one_thread : Threads ℕ
one_thread = record {
  sched = take_slot 4096 boot 0;
  cpu_context = λ j. record { fp = 0; pc = 0; sp = 0 };
  mem = λ a. 0;
  memory = 40960;
}

kernel_thread-Outcome_example :
    ThreadOutcome
      (λ m. (some m, m + 48))
      524288
      4096
      true
      528384
      7
      one_thread
      (kernel_thread (λ m. (some m, m + 48)) 524288 4096 true 528384 7 one_thread)
kernel_thread-Outcome_example =
    kernel_thread-Outcome (λ m. (some m, m + 48)) 524288 4096 true 528384 7 one_thread
