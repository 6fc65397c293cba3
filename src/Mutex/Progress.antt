-- ===== src/Mutex/Progress.antt =====
-- No task sleeps for ever on a free mutex of kernel/mutex.c, when the pids are those that the bitmap holds.
use tout_os.Base.{
  ℕ, ◌≡◌, refl, ◌∙◌, sym, subst, inl, inr, true, false, true≢false, Option, arith, Bool-cases,
}
use tout_os.Mutex.{Mutex, acquired, mutex_lock_round, init_mutex}
use tout_os.Mutex.Exclusion.{
  outside, trying, sleeping, inside, Tasks, put_phase, wake, Step, calls, enters, sleeps, leaves,
  Reach, start, then_step,
}
use tout_os.Mutex.Rounds.{
  Unlocked, no_waiter, wakes, mutex_unlock-Unlocked, Round, mutex_lock_round-Round, Round-acquired,
  Round-asleep, mutex_lock_round-got,
}
use tout_os.Mutex.Fair.{
  IsWaitable, IsFair, outside≢sleeping, put_phase-calls, put_phase-enters, put_phase-sleeps,
  put_phase-leaves, put_phase-wakes,
}

-- The last step, when the mutex is `m` and `woken` runs again.
leaves-IsFair :
    (s : Tasks) (pid : ℕ) (woken : Option ℕ) (m : Mutex)
    → IsFair s
    → s.phase pid ≡ inside
    → Unlocked s.mutex (woken, m)
    → IsFair (record { mutex = m; phase = wake woken (put_phase s.phase pid outside) })
leaves-IsFair s pid _ _ v at (no_waiter clear) = put_phase-leaves s pid v at clear
leaves-IsFair s pid _ _ v at (wakes k lt y) = put_phase-wakes s pid k v at lt y

bit_0-clear : (s : Tasks) → IsFair s → s.mutex.waiting 0 ≡ false
bit_0-clear s v = elim (Bool-cases (s.mutex.waiting 0)) [
  | inl y ↦
      let (low, high) = v.known 0 (λ o. outside≢sleeping (sym o ∙ v.asleep_then 0 y)) in
      absurd (omega (arith, low))
  | inr z ↦ z
]

Step-IsFair : {s t : Tasks} → IsFair s → Step IsWaitable s t → IsFair t
Step-IsFair {s} v (calls pid is_user at) = put_phase-calls s pid v is_user at
Step-IsFair {s} v (enters {m} pid at e) =
    let (free, same) =
      Round-acquired (subst (Round pid s.mutex) e (mutex_lock_round-Round pid s.mutex)) in
    subst (λ (n : Mutex). IsFair (record { mutex = n; phase = put_phase s.phase pid inside }))
      (sym same) (put_phase-enters s pid v at)
Step-IsFair {s} v (sleeps {m} pid at e) =
    let (held, same) =
      Round-asleep (subst (Round pid s.mutex) e (mutex_lock_round-Round pid s.mutex)) in
    subst (λ (n : Mutex). IsFair (record { mutex = n; phase = put_phase s.phase pid sleeping }))
      (sym same) (put_phase-sleeps s pid v held at)
Step-IsFair {s} v (leaves {m} {woken} pid at e) =
    leaves-IsFair s pid woken m v at
      (subst (Unlocked s.mutex) e (mutex_unlock-Unlocked s.mutex (bit_0-clear s v)))

Reach-IsFair : {s : Tasks} → Reach IsWaitable s → IsFair s
unfolding init_mutex
Reach-IsFair start = record {
  known = λ i ne. absurd (ne refl);
  marked = λ i e. absurd (outside≢sleeping e);
  asleep_then = λ i y. absurd (true≢false (sym y));
  heir = λ free i e. absurd (outside≢sleeping e);
  holder = λ held. absurd (true≢false (sym held));
}
Reach-IsFair (then_step r step) = Step-IsFair (Reach-IsFair r) step

-- A task that can go on: one that is inside can leave, and one that tries finds the mutex free.
pub data Goes (s : Tasks) : Type 0 where
  can_leave : (k : ℕ) → s.phase k ≡ inside → Goes s
  can_enter :
      (k : ℕ) (m : Mutex) → s.phase k ≡ trying → mutex_lock_round k s.mutex ≡ acquired m → Goes s

-- No wake-up is lost: when the tasks that use the mutex have the pids 1 to 31, then in every state that
-- the steps reach in which a task sleeps on the mutex, a task is inside, or one that tries gets the mutex
-- in its next round.
pub Reach-progress : (s : Tasks) (i : ℕ) → Reach IsWaitable s → s.phase i ≡ sleeping → Goes s
Reach-progress s i r e =
    let v = Reach-IsFair r in
    elim (Bool-cases s.mutex.locked) [
      | inl held ↦ let (k, is_in) = v.holder held in can_leave k is_in
      | inr free ↦
          let (k, tries) = v.heir free i e in
          can_enter k (record s.mutex { locked = true }) tries (mutex_lock_round-got k s.mutex free)
    ]
