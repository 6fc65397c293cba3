-- ===== src/Sched/Slots.antt =====
-- What `get_task_slot` of kernel/sched.c does to the task table.
use tout_os.Base.{
  ℕ, zero, suc, ◌+◌, ◌≤◌, ◌<◌, ◌≡◌, ◌≢◌, refl, ap, ◌∙◌, sym, subst, ◌⊎◌, inl, inr, true, false,
  Option, none, some, ltb, ◌==◌, if◌then◌else◌, arith, Bool-cases,
}
use tout_os.Sched.{
  Task, Sched, put, zeroed, taken, stopped, take_slot, reap, slot_loop, get_task_slot,
  max_num_processes, free_task_slot,
}

-- what becomes of a slot that is passed over
abbrev pub swept : Task → Task
swept t = if t.state == stopped then zeroed else t

-- What the search from slot `i` on gives, with `k` slots left: the first slot that is not in use is
-- taken, or none is. The slots passed over are all in use, and the stopped ones are zeroed.
pub data Slot (stacks : ℕ) (s : Sched) (i k : ℕ) : Option ℕ × Sched → Type 0 where
  got :
      (a : ℕ) {s' : Sched}
      → i ≤ a
      → a < i + k
      → (s.tasks a).in_use ≡ false
      → ((j : ℕ) → i ≤ j → j < a → (s.tasks j).in_use ≡ true)
      → s'.tasks a ≡ taken stacks (s.tasks a) a
      → s'.thread_info a ≡ a
      → ((j : ℕ) → i ≤ j → j < a → s'.tasks j ≡ swept (s.tasks j))
      → ((j : ℕ) → (j < i) ⊎ (a < j) → s'.tasks j ≡ s.tasks j)
      → Slot stacks s i k (some a, s')
  full :
      {s' : Sched}
      → ((j : ℕ) → i ≤ j → j < i + k → (s.tasks j).in_use ≡ true)
      → ((j : ℕ) → i ≤ j → j < i + k → s'.tasks j ≡ swept (s.tasks j))
      → ((j : ℕ) → (j < i) ⊎ (i + k ≤ j) → s'.tasks j ≡ s.tasks j)
      → Slot stacks s i k (none, s')

pub put_self : (tasks : ℕ → Task) (i : ℕ) (t : Task) (j : ℕ) → j ≡ i → put tasks i t j ≡ t
put_self tasks i t j e = let y : (j == i) ≡ true = ground (arith, e) in rw (y, if◌then◌else◌)

pub put_other : (tasks : ℕ → Task) (i : ℕ) (t : Task) (j : ℕ) → j ≢ i → put tasks i t j ≡ tasks j
put_other tasks i t j ne = let z : (j == i) ≡ false = ground (arith, ne) in rw (z, if◌then◌else◌)

-- One more slot that is passed over: `m` is the state after it.
Slot-suc :
    (stacks : ℕ) (s m : Sched) (i k : ℕ) {r : Option ℕ × Sched}
    → (s.tasks i).in_use ≡ true
    → m.tasks i ≡ swept (s.tasks i)
    → ((j : ℕ) → j ≢ i → m.tasks j ≡ s.tasks j)
    → Slot stacks m (i + 1) k r
    → Slot stacks s i (suc k) r
Slot-suc stacks s m i k used here other (got a lo hi is_free before now info behind ahead) =
    let same : m.tasks a ≡ s.tasks a = other a (omega (arith, lo)) in
    got a (omega (arith, lo)) (omega (arith, hi)) (sym (ap (λ t. t.in_use) same) ∙ is_free)
      (λ j l h. elim (Bool-cases (j == i)) [
        | inl y ↦ let e : j ≡ i = ground (arith, y) in rw (e) used
        | inr z ↦
            sym (ap (λ t. t.in_use) (other j (ground (arith, z))))
            ∙ before j (ground (arith, z, l)) h
      ])
      (now ∙ ap (λ t. taken stacks t a) same) info
      (λ j l h. elim (Bool-cases (j == i)) [
        | inl y ↦
            let e : j ≡ i = ground (arith, y) in
            ahead j (inl (omega (arith, e)))
            ∙ subst (λ x. m.tasks x ≡ swept (s.tasks x)) (sym e) here
        | inr z ↦ behind j (ground (arith, z, l)) h ∙ ap swept (other j (ground (arith, z)))
      ])
      (λ j away. ahead j (omega (arith, away)) ∙ other j (omega (arith, away, lo)))
Slot-suc stacks s m i k used here other (full all behind ahead) =
    full
      (λ j l h. elim (Bool-cases (j == i)) [
        | inl y ↦ let e : j ≡ i = ground (arith, y) in rw (e) used
        | inr z ↦
            sym (ap (λ t. t.in_use) (other j (ground (arith, z))))
            ∙ all j (ground (arith, z, l)) (omega (arith, h))
      ])
      (λ j l h. elim (Bool-cases (j == i)) [
        | inl y ↦
            let e : j ≡ i = ground (arith, y) in
            ahead j (inl (omega (arith, e)))
            ∙ subst (λ x. m.tasks x ≡ swept (s.tasks x)) (sym e) here
        | inr z ↦
            behind j (ground (arith, z, l)) (omega (arith, h))
            ∙ ap swept (other j (ground (arith, z)))
      ])
      (λ j away. ahead j (omega (arith, away)) ∙ other j (omega (arith, away)))

take_slot-thread_info : (stacks : ℕ) (s : Sched) (a : ℕ) → (take_slot stacks s a).thread_info a ≡ a
take_slot-thread_info stacks s a = let y : (a == a) ≡ true = ground arith in rw (y, if◌then◌else◌)

slot_loop-Slot : (stacks k i : ℕ) (s : Sched) → Slot stacks s i k (slot_loop stacks k i s)
unfolding slot_loop
slot_loop-Slot stacks zero i s =
    full (λ j l h. absurd (omega (arith, l, h))) (λ j l h. absurd (omega (arith, l, h)))
      (λ j away. refl)
slot_loop-Slot stacks (suc k) i s = elim (Bool-cases ((s.tasks i).in_use)) [
  | inr z ↦
      rw (z, slot_loop)
        (got i (omega arith) (omega arith) z (λ j l h. absurd (omega (arith, l, h)))
          (put_self s.tasks i (taken stacks (s.tasks i) i) i refl)
          (take_slot-thread_info stacks s i) (λ j l h. absurd (omega (arith, l, h)))
          (λ j away. put_other s.tasks i (taken stacks (s.tasks i) i) j (omega (arith, away))))
  | inl y ↦ elim (Bool-cases ((s.tasks i).state == stopped)) [
    | inl dead ↦
        rw (y, dead, slot_loop)
          (Slot-suc stacks s (reap stacks s i) i k y
            (put_self s.tasks i zeroed i refl ∙ rw (dead, if◌then◌else◌))
            (put_other s.tasks i zeroed) (slot_loop-Slot stacks k (i + 1) (reap stacks s i)))
    | inr alive ↦
        rw (y, alive, slot_loop)
          (Slot-suc stacks s s i k y (rw (alive, if◌then◌else◌)) (λ j ne. refl)
            (slot_loop-Slot stacks k (i + 1) s))
  ]
]

-- `get_task_slot` takes the first slot that is not in use, sets its pid to the slot's number + 1 and
-- its stack and `thread_info` to the slot's own, and leaves the slots behind it. It gives NULL only
-- when all slots are in use. The slots before it are zeroed when they are stopped, and else kept.
pub get_task_slot-Slot :
    (stacks : ℕ) (s : Sched) → Slot stacks s 0 max_num_processes (get_task_slot stacks s)
unfolding get_task_slot
get_task_slot-Slot stacks s = slot_loop-Slot stacks max_num_processes 0 s

-- The task table with no task gained: a slot is as it was, or it is emptied, when it was free or stopped.
abbrev pub IsNoTask : Sched → Sched → Type 0
IsNoTask s s' =
    (j : ℕ)
    → j < max_num_processes
    → (s'.tasks j ≡ s.tasks j)
      ⊎ ((s'.tasks j ≡ zeroed)
          × (((s.tasks j).in_use ≡ false) ⊎ (((s.tasks j).state == stopped) ≡ true)))

pub swept-cases :
    (t x : Task)
    → x ≡ swept t
    → (x ≡ t) ⊎ ((x ≡ zeroed) × ((t.in_use ≡ false) ⊎ ((t.state == stopped) ≡ true)))
swept-cases t x e = elim (Bool-cases (t.state == stopped)) [
  | inl y ↦ inr (e ∙ rw (y, if◌then◌else◌) refl, inr y)
  | inr z ↦ inl (e ∙ rw (z, if◌then◌else◌) refl)
]

-- Freeing the slot `i` that get_task_slot took leaves no task
pub IsNoTask-freed :
    (s m : Sched) (i : ℕ)
    → (s.tasks i).in_use ≡ false
    → ((j : ℕ) → j < i → m.tasks j ≡ swept (s.tasks j))
    → ((j : ℕ) → i < j → m.tasks j ≡ s.tasks j)
    → IsNoTask s (free_task_slot (some i) m)
unfolding free_task_slot
IsNoTask-freed s m i unused behind ahead j lt = elim (Bool-cases (j == i)) [
  | inl y ↦
      let e : j ≡ i = ground (arith, y) in
      inr (put_self m.tasks i zeroed j e, inl (ap (λ (x : ℕ). (s.tasks x).in_use) e ∙ unused))
  | inr z ↦ elim (Bool-cases (ltb j i)) [
    | inl y ↦
        swept-cases (s.tasks j) (put m.tasks i zeroed j)
          (put_other m.tasks i zeroed j (ground (arith, z)) ∙ behind j (ground (arith, y)))
    | inr n ↦
        inl (put_other m.tasks i zeroed j (ground (arith, z)) ∙ ahead j (ground (arith, z, n)))
  ]
]
