-- ===== src/Sched/Choice.antt =====
-- The choice of `get_next_proc` of kernel/sched.c: the ready task of this core with the least time.
use tout_os.Base.{
  ℕ, zero, suc, ◌+◌, ◌*◌, ◌≤◌, ◌<◌, ◌≡◌, refl, ap, ◌∙◌, sym, subst, ◌⊎◌, inl, inr, true, true≢false,
  none, some, ltb, arith, Bool-cases,
}
use tout_os.Sched.{
  Task, Sched, Best, is_task_ready, proc_time, better, next_loop, get_next_proc, max_num_processes,
  Proc, task, swapper, schedule,
}

-- The slot is ready, the first with its time, and no ready slot of those in `S` has less.
pub record IsLeast (tasks : ℕ → Task) (S : ℕ → Type 0) (i time : ℕ) : Type 0 where
  pub is_in : S i
  pub ready : is_task_ready (tasks i) ≡ true
  pub time_of : proc_time (tasks i) ≡ time
  pub least : (j : ℕ) → S j → is_task_ready (tasks j) ≡ true → time ≤ proc_time (tasks j)
  pub first : (j : ℕ) → S j → is_task_ready (tasks j) ≡ true → proc_time (tasks j) ≡ time → i ≤ j

-- what the search over the slots in `S` holds
pub data Chosen (tasks : ℕ → Task) (S : ℕ → Type 0) : Best → Type 0 where
  chosen : (i time : ℕ) → IsLeast tasks S i time → Chosen tasks S (some (i, time))
  nobody : ((j : ℕ) → S j → is_task_ready (tasks j) ≡ true → ⊥) → Chosen tasks S none

-- the slots below `n` that the core looks at
abbrev pub Mine : ℕ → ℕ → ℕ → ℕ → Type 0
Mine num_cpus core_id n j =
    (j < n) × (j < max_num_processes) × (k : ℕ) × (j ≡ core_id + k * num_cpus)

mul_mono : (a b n : ℕ) → a ≤ b → a * n ≤ b * n
mul_mono a b n h = grind arith

-- between two turns of a core there is no slot of it
no_slot_between :
    (k m n core_id : ℕ)
    → core_id + m * n ≤ core_id + k * n
    → core_id + k * n < core_id + m * n + n
    → k ≡ m
no_slot_between k m n core_id lo hi = elim (Bool-cases (ltb k m)) [
  | inl less ↦ absurd (omega (arith, mul_mono (k + 1) m n (ground (arith, less)), lo, hi))
  | inr z ↦ elim (Bool-cases (ltb m k)) [
    | inl more ↦ absurd (omega (arith, mul_mono (m + 1) k n (ground (arith, more)), lo, hi))
    | inr z' ↦ ground (arith, z, z')
  ]
]

module _ (tasks : ℕ → Task) (S : ℕ → Type 0) (i : ℕ) where
  -- the slots after one more
  abbrev Also : ℕ → Type 0
  Also j = S j ⊎ (j ≡ i)

  IsLeast-start :
      ((j : ℕ) → S j → is_task_ready (tasks j) ≡ true → ⊥)
      → is_task_ready (tasks i) ≡ true
      → IsLeast tasks Also i (proc_time (tasks i))
  IsLeast-start f r = record {
    is_in = inr refl;
    ready = r;
    time_of = refl;
    least = λ j h y. elim h [
      | inl old ↦ absurd (f j old y)
      | inr e ↦ subst (λ k. proc_time (tasks i) ≤ proc_time (tasks k)) (sym e) (omega arith)
    ];
    first = λ j h y t. elim h [ inl old ↦ absurd (f j old y) | inr e ↦ omega (arith, e) ];
  }

  IsLeast-less :
      (a time : ℕ)
      → IsLeast tasks S a time
      → is_task_ready (tasks i) ≡ true
      → proc_time (tasks i) < time
      → IsLeast tasks Also i (proc_time (tasks i))
  IsLeast-less a time c r lt = record {
    is_in = inr refl;
    ready = r;
    time_of = refl;
    least = λ j h y. elim h [
      | inl old ↦ omega (arith, c.least j old y, lt)
      | inr e ↦ subst (λ k. proc_time (tasks i) ≤ proc_time (tasks k)) (sym e) (omega arith)
    ];
    first = λ j h y t. elim h [
      | inl old ↦ absurd (omega (arith, c.least j old y, lt, t))
      | inr e ↦ omega (arith, e)
    ];
  }

  IsLeast-keep :
      (a time : ℕ)
      → ((j : ℕ) → S j → j < i)
      → IsLeast tasks S a time
      → (is_task_ready (tasks i) ≡ true → time ≤ proc_time (tasks i))
      → IsLeast tasks Also a time
  IsLeast-keep a time below c more = record {
    is_in = inl c.is_in;
    ready = c.ready;
    time_of = c.time_of;
    least = λ j h y. elim h [
      | inl old ↦ c.least j old y
      | inr e ↦
          subst (λ k. time ≤ proc_time (tasks k)) (sym e)
            (more (subst (λ k. is_task_ready (tasks k) ≡ true) e y))
    ];
    first = λ j h y t. elim h [
      | inl old ↦ c.first j old y t
      | inr e ↦ omega (arith, e, below a c.is_in)
    ];
  }

  better-Chosen :
      (best : Best)
      → ((j : ℕ) → S j → j < i)
      → Chosen tasks S best
      → Chosen tasks Also (better tasks i best)
  unfolding better
  better-Chosen none below (nobody f) = elim (Bool-cases (is_task_ready (tasks i))) [
    | inl r ↦ rw (r, better) (chosen i (proc_time (tasks i)) (IsLeast-start f r))
    | inr z ↦
        rw (z, better)
          (nobody (λ j h y. elim h [
            | inl old ↦ f j old y
            | inr e ↦ true≢false (sym (subst (λ k. is_task_ready (tasks k) ≡ true) e y) ∙ z)
          ]))
  ]
  better-Chosen (some (a, time)) below (chosen first_slot t c) =
      elim (Bool-cases (is_task_ready (tasks i))) [
        | inl r ↦ elim (Bool-cases (ltb (proc_time (tasks i)) time)) [
          | inl lt ↦
              rw (r, lt, better)
                (chosen i (proc_time (tasks i)) (IsLeast-less a time c r (ground (arith, lt))))
          | inr ge ↦
              rw (r, ge, better)
                (chosen a time (IsLeast-keep a time below c (λ y. ground (arith, ge))))
        ]
        | inr z ↦
            rw (z, better)
              (chosen a time (IsLeast-keep a time below c (λ y. absurd (true≢false (sym y ∙ z)))))
      ]

Chosen-same :
    (tasks : ℕ → Task) (S T : ℕ → Type 0) (best : Best)
    → ((j : ℕ) → S j → T j)
    → ((j : ℕ) → T j → S j)
    → Chosen tasks S best
    → Chosen tasks T best
Chosen-same tasks S T (some (a, t)) to from (chosen i time c) = chosen a t record {
  is_in = to i c.is_in;
  ready = c.ready;
  time_of = c.time_of;
  least = λ j h. c.least j (from j h);
  first = λ j h. c.first j (from j h);
}
Chosen-same tasks S T none to from (nobody f) = nobody (λ j h. f j (from j h))

-- One more turn: the slots seen are those before it and itself.
Mine-step :
    (num_cpus core_id m i j : ℕ)
    → 0 < num_cpus
    → i ≡ core_id + m * num_cpus
    → i < max_num_processes
    → Mine num_cpus core_id (i + num_cpus) j
    → Mine num_cpus core_id i j ⊎ (j ≡ i)
Mine-step num_cpus core_id m i j p e lt (hi, hi', k, at) = elim (Bool-cases (ltb j i)) [
  | inl y ↦ inl (ground (arith, y), hi', k, at)
  | inr z ↦
      let lo : i ≤ j = ground (arith, z) in
      let same : k ≡ m =
        no_slot_between k m num_cpus core_id (omega (arith, lo, e, at))
          (omega (arith, hi, e, at)) in
      inr (at ∙ ap (λ x. core_id + x * num_cpus) same ∙ sym e)
]

Mine-back :
    (num_cpus core_id m i j : ℕ)
    → 0 < num_cpus
    → i ≡ core_id + m * num_cpus
    → i < max_num_processes
    → Mine num_cpus core_id i j ⊎ (j ≡ i)
    → Mine num_cpus core_id (i + num_cpus) j
Mine-back num_cpus core_id m i j p e lt (inl (hi, hi', k, at)) = (omega (arith, hi), hi', k, at)
Mine-back num_cpus core_id m i j p e lt (inr same) =
    (omega (arith, same, p), omega (arith, same, lt), m, same ∙ e)

next_loop-Chosen :
    (fuel num_cpus core_id m i : ℕ) (tasks : ℕ → Task) (best : Best)
    → 0 < num_cpus
    → i ≡ core_id + m * num_cpus
    → max_num_processes ≤ i + fuel
    → Chosen tasks (Mine num_cpus core_id i) best
    → Chosen tasks (Mine num_cpus core_id max_num_processes) (next_loop fuel num_cpus tasks i best)
unfolding next_loop
next_loop-Chosen zero num_cpus core_id m i tasks best p e enough c =
    Chosen-same tasks (Mine num_cpus core_id i) (Mine num_cpus core_id max_num_processes) best
      (λ j (hi, hi', k, at). (hi', hi', k, at))
      (λ j (hi, hi', k, at). (omega (arith, hi, enough), hi', k, at)) c
next_loop-Chosen (suc fuel) num_cpus core_id m i tasks best p e enough c =
    elim (Bool-cases (ltb i max_num_processes)) [
      | inl y ↦
          let lt : i < max_num_processes = ground (arith, y) in
          rw (y, next_loop)
            (next_loop-Chosen fuel num_cpus core_id (m + 1) (i + num_cpus) tasks
              (better tasks i best) p (omega (arith, e)) (omega (arith, enough, p))
              (Chosen-same tasks (λ j. Mine num_cpus core_id i j ⊎ (j ≡ i))
                (Mine num_cpus core_id (i + num_cpus)) (better tasks i best)
                (λ j. Mine-back num_cpus core_id m i j p e lt)
                (λ j. Mine-step num_cpus core_id m i j p e lt)
                (better-Chosen tasks (Mine num_cpus core_id i) i best (λ j (hi, hi', k, at). hi)
                  c)))
      | inr z ↦
          let ge : max_num_processes ≤ i = ground (arith, z) in
          rw (z, next_loop)
            (Chosen-same tasks (Mine num_cpus core_id i) (Mine num_cpus core_id max_num_processes)
              best (λ j (hi, hi', k, at). (hi', hi', k, at))
              (λ j (hi, hi', k, at). (omega (arith, hi', ge), hi', k, at)) c)
    ]

-- What `schedule` goes on with: a ready task of this core with the least time, the first of these, or
-- the core's idle task when no task of the core is ready.
pub data Picked (num_cpus core_id : ℕ) (tasks : ℕ → Task) : Proc → Type 0 where
  picked :
      (i time : ℕ)
      → IsLeast tasks (Mine num_cpus core_id max_num_processes) i time
      → Picked num_cpus core_id tasks (task i)
  idle :
      ((j : ℕ) → Mine num_cpus core_id max_num_processes j → is_task_ready (tasks j) ≡ true → ⊥)
      → Picked num_cpus core_id tasks (swapper core_id)

-- the choice from what the loop found
abbrev choice : ℕ → Best → Proc
choice core_id none = swapper core_id
choice core_id (some (i, time)) = task i

Chosen-Picked :
    (num_cpus core_id : ℕ) (tasks : ℕ → Task) (best : Best)
    → Chosen tasks (Mine num_cpus core_id max_num_processes) best
    → Picked num_cpus core_id tasks (choice core_id best)
Chosen-Picked num_cpus core_id tasks (some (a, t)) (chosen i time c) = picked a t c
Chosen-Picked num_cpus core_id tasks none (nobody f) = idle f

schedule-choice :
    (num_cpus core_id : ℕ) (s : Sched) (best : Best)
    → next_loop max_num_processes num_cpus s.tasks core_id none ≡ best
    → schedule num_cpus core_id s ≡ choice core_id best
unfolding schedule get_next_proc
schedule-choice num_cpus core_id s none e = rw (e, schedule, get_next_proc) refl
schedule-choice num_cpus core_id s (some (i, time)) e = rw (e, schedule, get_next_proc) refl

-- On every core, of at least one, `schedule` goes on with a task of the core that is in use and
-- running, has the least stime + utime of these, and is the first with that time. It goes on with the
-- idle task only when no task of the core is ready.
pub schedule-Picked :
    (num_cpus core_id : ℕ) (s : Sched)
    → 0 < num_cpus
    → Picked num_cpus core_id s.tasks (schedule num_cpus core_id s)
schedule-Picked num_cpus core_id s p =
    let best = next_loop max_num_processes num_cpus s.tasks core_id none in
    subst (Picked num_cpus core_id s.tasks) (sym (schedule-choice num_cpus core_id s best refl)) (
      Chosen-Picked num_cpus core_id s.tasks best (
        next_loop-Chosen max_num_processes num_cpus core_id 0 core_id s.tasks none p (omega arith)
          (omega arith) (nobody (λ j (lt, lt', k, at) r. absurd (omega (arith, lt, at))))))
