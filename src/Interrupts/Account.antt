-- ===== src/Interrupts/Account.antt =====
-- The times that irq_handler of kernel/isr.c gives a task.
use tout_os.Base.{
  ℕ, ◌+◌, ◌≡◌, ◌<◌, ◌^◌, refl, Bool, true, false, not, ◌&&◌, ◌||◌, Option, none, some, ◌==◌,
  if◌then◌else◌, arith, Bool-cases, ap, ◌∙◌, inl, inr,
}
use tout_os.Interrupts.{
  Counters, irq_handler, account, counted, count_irq, count_if, Handler, dispatch, irq_timer,
  irq_spurious,
}

-- the two times of the task
abbrev SameTimes : Counters → Counters → Type 0
SameTimes d c = (d.stime ≡ c.stime) × (d.utime ≡ c.utime)

count_if-times : (h : Option Handler) (irq : ℕ) (c : Counters) → SameTimes (count_if h irq c) c
unfolding count_irq
count_if-times none irq c = (refl, refl)
count_if-times (some h) irq c = (refl, refl)

counted-times : (irq : ℕ) (c : Counters) → SameTimes (counted irq c) c
counted-times irq c = count_if-times (dispatch irq) irq c

account-times :
    (b : Bool) (d c : Counters)
    → SameTimes d c
    → c.stime + 1 < 2 ^ 64
    → c.utime + 1 < 2 ^ 64
    → ((account b d).stime ≡ c.stime + (if not b then 1 else 0))
      × ((account b d).utime ≡ c.utime + (if b then 1 else 0))
unfolding account
account-times true d c (s, u) hs hu = (omega (arith, s), omega (arith, u, hu))
account-times false d c (s, u) hs hu = (omega (arith, s, hs), omega (arith, u))

irq_handler-timer :
    (irq : ℕ) (b : Bool) (pid : ℕ) (c : Counters)
    → (irq == irq_timer) ≡ true
    → (irq_handler irq b pid c).counters ≡ account b (counted irq c)
unfolding irq_handler
irq_handler-timer irq b pid c y =
    let z : (irq == irq_spurious) ≡ false = ground (arith, y) in
    rw (z, y, irq_handler, if◌then◌else◌) refl

irq_handler-other :
    (irq : ℕ) (b : Bool) (pid : ℕ) (c : Counters)
    → (irq == irq_timer) ≡ false
    → SameTimes ((irq_handler irq b pid c).counters) c
unfolding irq_handler
irq_handler-other irq b pid c z = elim (Bool-cases (irq == irq_spurious)) [
  | inl y ↦ rw (y, irq_handler, if◌then◌else◌) (refl, refl)
  | inr n ↦ rw (n, z, irq_handler, if◌then◌else◌) (counted-times irq c)
]

irq_handler-flags :
    (irq : ℕ) (b : Bool) (pid : ℕ) (c : Counters)
    → ((irq_handler irq b pid c).scheduled ≡ ((irq == irq_timer) && (b || (pid == 0))))
      × ((irq_handler irq b pid c).ended ≡ not (irq == irq_spurious))
unfolding irq_handler
irq_handler-flags irq b pid c = elim (Bool-cases (irq == irq_spurious)) [
  | inl y ↦
      let z : (irq == irq_timer) ≡ false = ground (arith, y) in
      rw (y, z, irq_handler, if◌then◌else◌) (refl, refl)
  | inr n ↦ rw (n, irq_handler, if◌then◌else◌) (refl, refl)
]

-- Below the wrap, a timer interrupt adds 1 to utime of the task when it came in user mode, and to stime
-- when it did not; no other interrupt changes either. The task is preempted by a timer interrupt only, in
-- user mode or when it is the idle one, and every interrupt but the spurious one is told to the controller.
pub irq_handler-time :
    (irq : ℕ) (in_user_mode : Bool) (pid : ℕ) (c : Counters)
    → c.stime + 1 < 2 ^ 64
    → c.utime + 1 < 2 ^ 64
    → let h = irq_handler irq in_user_mode pid c in
      (h.counters.stime ≡ c.stime + (if (irq == irq_timer) && not in_user_mode then 1 else 0))
      × (h.counters.utime ≡ c.utime + (if (irq == irq_timer) && in_user_mode then 1 else 0))
      × (h.scheduled ≡ ((irq == irq_timer) && (in_user_mode || (pid == 0))))
      × (h.ended ≡ not (irq == irq_spurious))
irq_handler-time irq in_user_mode pid c hs hu = elim (Bool-cases (irq == irq_timer)) [
  | inl y ↦
      let (st, ut) = account-times in_user_mode (counted irq c) c (counted-times irq c) hs hu in
      let e = irq_handler-timer irq in_user_mode pid c y in
      let (sc, en) = irq_handler-flags irq in_user_mode pid c in
      (ap (λ d. d.stime) e ∙ st ∙ rw (y) refl, ap (λ d. d.utime) e ∙ ut ∙ rw (y) refl, sc, en)
  | inr z ↦
      let (st, ut) = irq_handler-other irq in_user_mode pid c z in
      let (sc, en) = irq_handler-flags irq in_user_mode pid c in
      let s0 : c.stime ≡ c.stime + 0 = omega arith in
      let u0 : c.utime ≡ c.utime + 0 = omega arith in
      (st ∙ s0 ∙ rw (z, if◌then◌else◌) refl, ut ∙ u0 ∙ rw (z, if◌then◌else◌) refl, sc, en)
]
