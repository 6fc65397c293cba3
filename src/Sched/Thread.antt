-- ===== src/Sched/Thread.antt =====
-- kernel_thread of kernel/sched.c: a task of the kernel with its function and argument on its stack. `alloc` is
-- kzalloc with the state that it keeps. The name of the task is left out, and the saved registers of the
-- stopped tasks that get_task_slot removes on its way.
use tout_os.Base.{
  ℕ, ◌+◌, ◌-◌, ◌*◌, ◌<◌, ◌≤◌, ◌≡◌, ◌≢◌, refl, ap, ◌∙◌, ◌⊎◌, inl, inr, Bool, true, false, Option,
  none, some, ◌==◌, if◌then◌else◌, ℤ, pos, minus_one, arith, Bool-cases,
}
use tout_os.Sched.{
  Task, Sched, put, taken, running, kernel_stack_size, get_task_slot, free_task_slot,
  max_num_processes,
}
use tout_os.Sched.Slots.{
  Slot, got, full, swept-cases, put_self, get_task_slot-Slot, IsNoTask, IsNoTask-freed,
}

-- the saved registers that are set, fp, pc and sp
pub record CpuContext : Type 0 where
  pub fp : ℕ
  pub pc : ℕ
  pub sp : ℕ

-- the tasks, the saved registers of each slot, the memory of the stacks, and the state of the allocator; the
-- word at the base of a stack is `thread_info` of the tasks
pub record Threads (M : Type 0) : Type 0 where
  pub sched : Sched
  pub cpu_context : ℕ → CpuContext
  pub mem : ℕ → ℕ
  pub memory : M

abbrev pub push_word : (ℕ → ℕ) → ℕ → ℕ → ℕ → ℕ
push_word mem a x b = if b == a then x else mem b

module _ {M : Type 0} (alloc : M → Option ℕ × M) (call_thread_func stacks : ℕ) where
  -- the slot `i` gets its mm, its stack and its state
  abbrev pub start_thread : ℕ → ℕ → ℕ → ℕ → M → Sched → Threads M → Threads M
  start_thread i fn args mm m s w =
      let top = (s.tasks i).stack + kernel_stack_size in
      record {
        sched = record s {
          tasks = put s.tasks i (record (s.tasks i) { mm = mm; state = running });
        };
        cpu_context = λ j.
            if j == i
            then record { fp = 0; pc = call_thread_func; sp = top - 16 }
            else w.cpu_context j;
        mem = push_word (push_word w.mem (top - 8) fn) (top - 16) args;
        memory = m;
      }

  abbrev pub with_mm : ℕ → ℕ → ℕ → Sched → Threads M → Option ℕ × M → ℤ × Threads M
  with_mm i fn args s w (none, m) = (
    minus_one,
    record w {
      sched = free_task_slot (some i) s;
      cpu_context = λ j. if j == i then record { fp = 0; pc = 0; sp = 0 } else w.cpu_context j;
      memory = m;
    },
  )
  with_mm i fn args s w (some mm, m) = (pos 0, start_thread i fn args mm m s w)

  abbrev pub with_task : ℕ → ℕ → Threads M → Option ℕ × Sched → ℤ × Threads M
  with_task fn args w (none, s) = (minus_one, record w { sched = s })
  with_task fn args w (some i, s) = with_mm i fn args s w (alloc w.memory)

  -- 0 stands for NULL; `name` is whether a name is given.
  unfoldable pub kernel_thread : Bool → ℕ → ℕ → Threads M → ℤ × Threads M
  kernel_thread name fn args w =
      if name
      then (if fn == 0 then (minus_one, w) else with_task fn args w (get_task_slot stacks w.sched))
      else (minus_one, w)

  abbrev pub IsFull : Sched → Type 0
  IsFull s = (j : ℕ) → j < max_num_processes → (s.tasks j).in_use ≡ true

  -- What `kernel_thread` does: it refuses and nothing changes, no task is gained since no slot or no memory is
  -- left, or a task is ready in a slot that was free.
  pub data ThreadOutcome (name : Bool) (fn args : ℕ) (w : Threads M) : ℤ × Threads M → Type 0 where
    no_arguments : (name ≡ false) ⊎ (fn ≡ 0) → ThreadOutcome name fn args w (minus_one, w)
    no_thread :
        {w' : Threads M}
        → name ≡ true
        → fn ≢ 0
        → IsFull w.sched ⊎ ((alloc w.memory).0 ≡ none)
        → IsNoTask w.sched w'.sched
        → ThreadOutcome name fn args w (minus_one, w')
    thread_made :
        {w' : Threads M} (i mm : ℕ)
        → name ≡ true
        → fn ≢ 0
        → (alloc w.memory).0 ≡ some mm
        → i < max_num_processes
        → (w.sched.tasks i).in_use ≡ false
        → w'.sched.tasks i ≡ record (taken stacks (w.sched.tasks i) i) { mm = mm; state = running }
        → w'.sched.thread_info i ≡ i
        → (w'.cpu_context i).pc ≡ call_thread_func
        → w'.mem (w'.cpu_context i).sp ≡ args
        → w'.mem ((w'.cpu_context i).sp + 8) ≡ fn
        → (w'.cpu_context i).sp + 16 ≡ stacks + kernel_stack_size * (i + 1)
        → ((a : ℕ)
            → (a < (w'.cpu_context i).sp) ⊎ ((w'.cpu_context i).sp + 16 ≤ a)
            → a ≢ stacks + kernel_stack_size * i
            → w'.mem a ≡ w.mem a)
        → ThreadOutcome name fn args w (pos 0, w')

  push_word_here : (mem : ℕ → ℕ) (a x b : ℕ) → b ≡ a → push_word mem a x b ≡ x
  push_word_here mem a x b e =
      let y : (b == a) ≡ true = ground (arith, e) in rw (y, if◌then◌else◌) refl

  push_word_other : (mem : ℕ → ℕ) (a x b : ℕ) → b ≢ a → push_word mem a x b ≡ mem b
  push_word_other mem a x b ne =
      let z : (b == a) ≡ false = ground (arith, ne) in rw (z, if◌then◌else◌) refl

  start_thread-Outcome :
      (fn args i mm : ℕ) (m : M) (s : Sched) (w : Threads M)
      → i < max_num_processes
      → (w.sched.tasks i).in_use ≡ false
      → s.tasks i ≡ taken stacks (w.sched.tasks i) i
      → s.thread_info i ≡ i
      → fn ≢ 0
      → (alloc w.memory).0 ≡ some mm
      → ThreadOutcome true fn args w (pos 0, start_thread i fn args mm m s w)
  start_thread-Outcome fn args i mm m s w lt unused now info is_fn got_mm =
      let top = (s.tasks i).stack + kernel_stack_size in
      let at : top ≡ stacks + kernel_stack_size * i + kernel_stack_size =
        ap (λ (t : Task). t.stack + kernel_stack_size) now in
      let y : (i == i) ≡ true = ground arith in
      let context : (start_thread i fn args mm m s w).cpu_context i
          ≡ record { fp = 0; pc = call_thread_func; sp = top - 16 } =
        rw (y, if◌then◌else◌) refl in
      let sp_at : ((start_thread i fn args mm m s w).cpu_context i).sp ≡ top - 16 =
        ap (λ (c : CpuContext). c.sp) context in
      let sp = ((start_thread i fn args mm m s w).cpu_context i).sp in
      let first = push_word w.mem (top - 8) fn in
      thread_made i mm refl is_fn got_mm lt unused
        (put_self s.tasks i (record (s.tasks i) { mm = mm; state = running }) i refl
          ∙ ap (λ (t : Task). record t { mm = mm; state = running }) now)
        info (ap (λ (c : CpuContext). c.pc) context) (push_word_here first (top - 16) args sp sp_at)
        (push_word_other first (top - 16) args (sp + 8) (omega (arith, sp_at))
          ∙ push_word_here w.mem (top - 8) fn (sp + 8) (omega (arith, sp_at)))
        (omega (arith, sp_at, at))
        (λ a away off.
          push_word_other first (top - 16) args a (omega (arith, sp_at, away))
          ∙ push_word_other w.mem (top - 8) fn a (omega (arith, sp_at, away)))

  with_mm-Outcome :
      (fn args i : ℕ) (s : Sched) (w : Threads M)
      → i < max_num_processes
      → (w.sched.tasks i).in_use ≡ false
      → s.tasks i ≡ taken stacks (w.sched.tasks i) i
      → s.thread_info i ≡ i
      → fn ≢ 0
      → IsNoTask w.sched (free_task_slot (some i) s)
      → (r : Option ℕ × M) → alloc w.memory ≡ r
      → ThreadOutcome true fn args w (with_mm i fn args s w r)
  with_mm-Outcome fn args i s w lt unused now info is_fn no_task (none, m) e =
      no_thread refl is_fn (inr (ap (λ (r : Option ℕ × M). r.0) e)) no_task
  with_mm-Outcome fn args i s w lt unused now info is_fn no_task (some mm, m) e =
      start_thread-Outcome fn args i mm m s w lt unused now info is_fn
        (ap (λ (r : Option ℕ × M). r.0) e)

  with_task-Outcome :
      (fn args : ℕ) (w : Threads M) (r : Option ℕ × Sched)
      → fn ≢ 0
      → Slot stacks w.sched 0 max_num_processes r
      → ThreadOutcome true fn args w (with_task fn args w r)
  with_task-Outcome fn args w (none, s) is_fn (full all behind ahead) =
      no_thread refl is_fn (inl (λ j lt. all j (omega (arith)) (omega (arith, lt)))) (λ j lt.
        swept-cases (w.sched.tasks j) (s.tasks j) (behind j (omega (arith)) (omega (arith, lt))))
  with_task-Outcome fn args w (some i, s) is_fn (got _ lo hi unused before now info behind ahead) =
      with_mm-Outcome fn args i s w (omega (arith, hi)) unused now info is_fn
        (IsNoTask-freed w.sched s i unused (λ j lt. behind j (omega (arith)) lt)
          (λ j gt. ahead j (inr gt)))
        (alloc w.memory) refl

  -- `kernel_thread` without a name or a function returns -1 and changes nothing. Else it makes a task in a slot
  -- that was free: it runs `call_thread_func` with the argument and the function as the two words at the top
  -- of its own stack, the word at the base of the stack is its slot, and no other word changes. Or it returns -1
  -- and no task is gained, only when all slots are in use or the allocator has no memory for its mm.
  pub kernel_thread-Outcome :
      (name : Bool) (fn args : ℕ) (w : Threads M)
      → ThreadOutcome name fn args w (kernel_thread name fn args w)
  unfolding kernel_thread
  kernel_thread-Outcome false fn args w = no_arguments (inl refl)
  kernel_thread-Outcome true fn args w = elim (Bool-cases (fn == 0)) [
    | inl y ↦ rw (y, if◌then◌else◌) (no_arguments (inr (ground (arith, y))))
    | inr z ↦
        rw (z, if◌then◌else◌)
          (with_task-Outcome fn args w (get_task_slot stacks w.sched) (ground (arith, z))
            (get_task_slot-Slot stacks w.sched))
  ]
