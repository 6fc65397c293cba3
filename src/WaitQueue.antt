-- ===== src/WaitQueue.antt =====
-- The wait queues of kernel/wait.c and include/wait.h. The list of include/list.h, a copy of that of another
-- project, is a parameter: its operations with the entries that it holds, the first one first. An
-- entry stands on the stack of its task, so that it is named by the task.
pub mod Reader
pub mod Wake
mod Tests
use tout_os.Base.{ℕ, ◌≡◌, List, [], ◌∷◌, some, pos}
use tout_os.Sched.{Sched, set_task_state, running}
use tout_os.Timer.Chain.{remove}

-- INIT_LIST_HEAD, list_add, list_del, and what list_for_each_entry visits
pub record ListOps (L : Type 0) : Type 0 where
  pub init_list_head : L
  pub list_add : ℕ → L → L
  pub list_del : ℕ → L → L
  pub entries : L → List ℕ

-- What is relied on: a new entry comes first, a deleted one is gone, the others stay.
pub record ListLaws {L : Type 0} (ops : ListOps L) : Type 0 where
  pub none_at_first : ops.entries ops.init_list_head ≡ []
  pub adds : (t : ℕ) (l : L) → ops.entries (ops.list_add t l) ≡ t ∷ ops.entries l
  pub deletes : (t : ℕ) (l : L) → ops.entries (ops.list_del t l) ≡ remove t (ops.entries l)

-- the loop of `wake_up`
unfoldable pub wake_all : List ℕ → Sched → Sched
wake_all [] s = s
wake_all (t ∷ ts) s = wake_all ts (set_task_state (some t) (pos running) s)

module _ {L : Type 0} (ops : ListOps L) where
  abbrev pub init_waitqueue_head : L
  init_waitqueue_head = ops.init_list_head

  abbrev pub add_wait_queue : ℕ → L → L
  add_wait_queue t wq = ops.list_add t wq

  abbrev pub remove_wait_queue : ℕ → L → L
  remove_wait_queue t wq = ops.list_del t wq

  unfoldable pub wake_up : L → Sched → Sched
  wake_up wq s = wake_all (ops.entries wq) s
