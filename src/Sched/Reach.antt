-- ===== src/Sched/Reach.antt =====
-- The states that the functions of kernel/sched.c reach from the start, in any order of calls: a call
-- holds `tasks_lock`, so that each is one step. `do_exit` writes the state with no lock, in one store.
use tout_os.Base.{
  ℕ, zero, suc, ◌+◌, ◌-◌, ◌*◌, ◌<◌, ◌≡◌, ◌≢◌, refl, ap, ◌∙◌, sym, subst, inl, inr, true, true≢false,
  Option, none, some, ltb, leb, ◌==◌, ◌&&◌, if◌then◌else◌, arith, Bool-cases, ℤ, pos, negsuc,
}
use tout_os.Sched.{
  Task, Sched, put, zeroed, taken, stopped, take_slot, reap, slot_loop, get_task_slot,
  max_num_processes, boot, free_task_slot, set_task_state, do_exit, pid_to_task, kernel_stack_size,
  num_proc_states,
}
use tout_os.Sched.Slots.{put_self, put_other}

pub data Step (stacks : ℕ) : Sched → Sched → Type 0 where
  slot_taken : {s s' : Sched} {r : Option ℕ} → get_task_slot stacks s ≡ (r, s') → Step stacks s s'
  slot_freed : {s : Sched} (t : Option ℕ) → Step stacks s (free_task_slot t s)
  state_set : {s : Sched} (t : Option ℕ) (state : ℤ) → Step stacks s (set_task_state t state s)
  exited : {s : Sched} (i : ℕ) → Step stacks s (do_exit i s)

pub data Reach (stacks : ℕ) : Sched → Type 0 where
  start : Reach stacks boot
  next : {s s' : Sched} → Reach stacks s → Step stacks s s' → Reach stacks s'

-- A task in use has the pid and the stack of its slot, and its stack names it.
pub record IsNumbered (stacks : ℕ) (i : ℕ) (t : Task) (info : ℕ) : Type 0 where
  pub pid_of : t.pid ≡ i + 1
  pub stack_of : t.stack ≡ stacks + kernel_stack_size * i
  pub info_of : info ≡ i

abbrev pub IsOrdered : ℕ → Sched → Type 0
IsOrdered stacks s =
    (i : ℕ) → (s.tasks i).in_use ≡ true → IsNumbered stacks i (s.tasks i) (s.thread_info i)

-- a step that only changes slot `a`, and there keeps what numbers it or empties it
put-IsOrdered :
    (stacks : ℕ) (s : Sched) (a : ℕ) (t : Task)
    → IsOrdered stacks s
    → (t.in_use ≡ true → IsNumbered stacks a t (s.thread_info a))
    → (i : ℕ) → (put s.tasks a t i).in_use ≡ true
    → IsNumbered stacks i (put s.tasks a t i) (s.thread_info i)
put-IsOrdered stacks s a t inv new i u = elim (Bool-cases (i == a)) [
  | inl y ↦
      let e : i ≡ a = ground (arith, y) in
      let now : put s.tasks a t i ≡ t = put_self s.tasks a t i e in
      subst (λ x. IsNumbered stacks i x (s.thread_info i)) (sym now)
        (subst (λ j. IsNumbered stacks j t (s.thread_info j)) (sym e)
          (new (subst (λ x. x.in_use ≡ true) now u)))
  | inr z ↦
      let ne : i ≢ a = ground (arith, z) in
      let kept : put s.tasks a t i ≡ s.tasks i = put_other s.tasks a t i ne in
      subst (λ x. IsNumbered stacks i x (s.thread_info i)) (sym kept)
        (inv i (subst (λ x. x.in_use ≡ true) kept u))
]

with_state :
    (stacks i info state : ℕ) (t : Task)
    → IsNumbered stacks i t info
    → IsNumbered stacks i (record t { state = state }) info
with_state stacks i info state t c = record {
  pid_of = c.pid_of;
  stack_of = c.stack_of;
  info_of = c.info_of;
}

take_slot-IsOrdered :
    (stacks : ℕ) (s : Sched) (a : ℕ) → IsOrdered stacks s → IsOrdered stacks (take_slot stacks s a)
take_slot-IsOrdered stacks s a inv i u = elim (Bool-cases (i == a)) [
  | inl y ↦
      let e : i ≡ a = ground (arith, y) in
      let now : put s.tasks a (taken stacks (s.tasks a) a) i ≡ taken stacks (s.tasks a) a =
        put_self s.tasks a (taken stacks (s.tasks a) a) i e in
      record {
        pid_of = ap (λ t. t.pid) now ∙ rw e refl;
        stack_of = ap (λ t. t.stack) now ∙ rw e refl;
        info_of = rw (y, if◌then◌else◌) (sym e);
      }
  | inr z ↦
      let ne : i ≢ a = ground (arith, z) in
      let kept : put s.tasks a (taken stacks (s.tasks a) a) i ≡ s.tasks i =
        put_other s.tasks a (taken stacks (s.tasks a) a) i ne in
      let c = inv i (subst (λ x. x.in_use ≡ true) kept u) in
      record {
        pid_of = ap (λ t. t.pid) kept ∙ c.pid_of;
        stack_of = ap (λ t. t.stack) kept ∙ c.stack_of;
        info_of = rw (z, if◌then◌else◌) c.info_of;
      }
]

slot_loop-IsOrdered :
    (stacks k i : ℕ) (s : Sched)
    → IsOrdered stacks s
    → IsOrdered stacks ((slot_loop stacks k i s).1)
unfolding slot_loop
slot_loop-IsOrdered stacks zero i s inv = inv
slot_loop-IsOrdered stacks (suc k) i s inv = elim (Bool-cases ((s.tasks i).in_use)) [
  | inr z ↦ rw (z, slot_loop) (take_slot-IsOrdered stacks s i inv)
  | inl y ↦ elim (Bool-cases ((s.tasks i).state == stopped)) [
    | inl dead ↦
        rw (y, dead, slot_loop)
          (slot_loop-IsOrdered stacks k (i + 1) (reap stacks s i)
            (put-IsOrdered stacks s i zeroed inv (λ u. absurd (true≢false (sym u)))))
    | inr alive ↦ rw (y, alive, slot_loop) (slot_loop-IsOrdered stacks k (i + 1) s inv)
  ]
]

set_task_state-IsOrdered :
    (stacks : ℕ) (t : Option ℕ) (state : ℤ) (s : Sched)
    → IsOrdered stacks s
    → IsOrdered stacks (set_task_state t state s)
unfolding set_task_state
set_task_state-IsOrdered stacks none state s inv = inv
set_task_state-IsOrdered stacks (some i) (negsuc n) s inv = inv
set_task_state-IsOrdered stacks (some i) (pos n) s inv = elim (Bool-cases (leb num_proc_states n)) [
  | inl y ↦ rw (y, set_task_state) inv
  | inr z ↦
      rw (z, set_task_state)
        (put-IsOrdered stacks s i (record (s.tasks i) { state = n }) inv
          (λ u. with_state stacks i (s.thread_info i) n (s.tasks i) (inv i u)))
]

Step-IsOrdered :
    (stacks : ℕ) {s s' : Sched} → IsOrdered stacks s → Step stacks s s' → IsOrdered stacks s'
unfolding get_task_slot free_task_slot do_exit
Step-IsOrdered stacks {s} inv (slot_taken e) =
    subst (IsOrdered stacks) (ap (λ r. r.1) e)
      (slot_loop-IsOrdered stacks max_num_processes 0 s inv)
Step-IsOrdered stacks inv (slot_freed none) = inv
Step-IsOrdered stacks {s} inv (slot_freed (some i)) =
    put-IsOrdered stacks s i zeroed inv (λ u. absurd (true≢false (sym u)))
Step-IsOrdered stacks {s} inv (state_set t state) = set_task_state-IsOrdered stacks t state s inv
Step-IsOrdered stacks {s} inv (exited i) =
    put-IsOrdered stacks s i (record (s.tasks i) { state = stopped }) inv
      (λ u. with_state stacks i (s.thread_info i) stopped (s.tasks i) (inv i u))

Reach-IsOrdered : (stacks : ℕ) {s : Sched} → Reach stacks s → IsOrdered stacks s
Reach-IsOrdered stacks start = λ i u. absurd (true≢false (sym u))
Reach-IsOrdered stacks (next r step) = Step-IsOrdered stacks (Reach-IsOrdered stacks r) step

-- In every state that the functions reach, `pid_to_task` of the pid of a task in use is its slot, and
-- `thread_info` of the slot's stack names the slot.
pub pid_to_task-pid :
    (stacks : ℕ) (s : Sched) (i : ℕ)
    → Reach stacks s
    → i < max_num_processes
    → (s.tasks i).in_use ≡ true
    → (pid_to_task (pos ((s.tasks i).pid)) ≡ some i) × (s.thread_info i ≡ i)
unfolding pid_to_task
pid_to_task-pid stacks s i r lt u =
    let c = Reach-IsOrdered stacks r i u in
    let inside : (leb 1 (i + 1) && ltb (i + 1 - 1) max_num_processes) ≡ true = ground (arith, lt) in
    let back : i + 1 - 1 ≡ i = omega arith in (rw (c.pid_of, inside) (ap some back), c.info_of)
