-- ===== src/Mutex/Rounds.antt =====
-- What a round of `mutex_lock` and a `mutex_unlock` of kernel/mutex.c do to the bitmap and the tasks.
use tout_os.Base.{
  ℕ, zero, suc, ◌+◌, ◌≤◌, ◌<◌, ◌≡◌, ◌≢◌, refl, ap, ◌∙◌, sym, subst, ◌⊎◌, inl, inr, Bool, true,
  false, true≢false, Option, none, some, ltb, ◌==◌, if◌then◌else◌, arith, Bool-cases,
}
use tout_os.Mutex.{
  Mutex, LockRound, acquired, asleep, mutex_lock_round, mutex_unlock, get_next_waiting,
  waiting_loop, set_bit, max_pid,
}
use tout_os.Mutex.Exclusion.{Phase, put_phase}

pub put_phase_self : (phase : ℕ → Phase) (i : ℕ) (p : Phase) → put_phase phase i p i ≡ p
put_phase_self phase i p = let y : (i == i) ≡ true = ground arith in rw (y, if◌then◌else◌) refl

pub put_phase_other :
    (phase : ℕ → Phase) (i : ℕ) (p : Phase) (j : ℕ) → j ≢ i → put_phase phase i p j ≡ phase j
put_phase_other phase i p j ne =
    let z : (j == i) ≡ false = ground (arith, ne) in rw (z, if◌then◌else◌) refl

pub put_phase-cases :
    (phase : ℕ → Phase) (i : ℕ) (p : Phase) (j : ℕ) (q : Phase)
    → put_phase phase i p j ≡ q
    → ((j ≡ i) × (p ≡ q)) ⊎ ((j ≢ i) × (phase j ≡ q))
put_phase-cases phase i p j q e = elim (Bool-cases (j == i)) [
  | inl y ↦
      let same : j ≡ i = ground (arith, y) in
      inl (same, sym (put_phase_self phase i p) ∙ ap (put_phase phase i p) (sym same) ∙ e)
  | inr z ↦
      let apart : j ≢ i = ground (arith, z) in
      inr (apart, sym (put_phase_other phase i p j apart) ∙ e)
]

pub set_bit_self : (w : ℕ → Bool) (pid : ℕ) (b : Bool) → pid < 32 → set_bit w pid b pid ≡ b
set_bit_self w pid b lt =
    let y : (pid == pid) ≡ true = ground arith in
    let z : ltb pid max_pid ≡ true = ground (arith, lt) in rw (y, z, if◌then◌else◌) refl

pub set_bit_other : (w : ℕ → Bool) (pid : ℕ) (b : Bool) (i : ℕ) → i ≢ pid → set_bit w pid b i ≡ w i
set_bit_other w pid b i ne =
    let z : (i == pid) ≡ false = ground (arith, ne) in rw (z, if◌then◌else◌) refl

zero_or_more : (j : ℕ) → (j ≡ 0) ⊎ (1 ≤ j)
zero_or_more j = omega arith

-- the next waiting task has its bit set, and there is none only when no bit is
data Found (k i : ℕ) (w : ℕ → Bool) : Option ℕ → Type 0 where
  all_clear : ((j : ℕ) → i ≤ j → j < i + k → w j ≡ false) → Found k i w none
  first_set : (j : ℕ) → i ≤ j → j < i + k → w j ≡ true → Found k i w (some j)

Found-more :
    (k i : ℕ) (w : ℕ → Bool) (r : Option ℕ)
    → w i ≡ false
    → Found k (i + 1) w r
    → Found (suc k) i w r
Found-more k i w _ z (all_clear none_set) = all_clear (λ j le lt.
    let split : (i ≡ j) ⊎ (i + 1 ≤ j) = omega (arith, le) in
    elim split [
      | inl e ↦ subst (λ (x : ℕ). w x ≡ false) e z
      | inr more ↦ none_set j more (omega (arith, lt))
    ])
Found-more k i w _ z (first_set j le lt y) = first_set j (omega (arith, le)) (omega (arith, lt)) y

waiting_loop-Found : (k i : ℕ) (w : ℕ → Bool) → Found k i w (waiting_loop k i w)
unfolding waiting_loop
waiting_loop-Found zero i w = all_clear (λ j le lt. absurd (omega (arith, le, lt)))
waiting_loop-Found (suc k) i w = elim (Bool-cases (w i)) [
  | inl y ↦ rw (waiting_loop, y) (first_set i (omega arith) (omega arith) y)
  | inr z ↦
      rw (waiting_loop, z)
        (Found-more k i w (waiting_loop k (i + 1) w) z (waiting_loop-Found k (i + 1) w))
]

-- What `mutex_unlock` does, when bit 0 is clear.
pub data Unlocked (p : Mutex) : Option ℕ × Mutex → Type 0 where
  no_waiter :
      ((j : ℕ) → j < 32 → p.waiting j ≡ false) → Unlocked p (none, record p { locked = false })
  wakes :
      (k : ℕ)
      → k < 32
      → p.waiting k ≡ true
      → Unlocked p (some k, record { locked = false; waiting = set_bit p.waiting k false })

unlock_found :
    (p : Mutex) (r : Option ℕ)
    → get_next_waiting p ≡ r
    → p.waiting 0 ≡ false
    → Found 32 0 p.waiting r
    → Unlocked p (mutex_unlock p)
unfolding mutex_unlock
unlock_found p _ e zero_clear (all_clear none_set) =
    rw (e, mutex_unlock) (no_waiter (λ j lt. none_set j (omega arith) lt))
unlock_found p _ e zero_clear (first_set j le lt y) =
    let behind : 1 ≤ j = elim (zero_or_more j) [
      | inl z ↦ absurd (true≢false (sym y ∙ ap p.waiting z ∙ zero_clear))
      | inr more ↦ more
    ] in
    let z : ltb 0 j ≡ true = ground (arith, behind) in
    rw (e, mutex_unlock, z, if◌then◌else◌) (wakes j lt y)

pub mutex_unlock-Unlocked : (p : Mutex) → p.waiting 0 ≡ false → Unlocked p (mutex_unlock p)
unfolding get_next_waiting
mutex_unlock-Unlocked p zero_clear =
    unlock_found p (get_next_waiting p) refl zero_clear (waiting_loop-Found max_pid 0 p.waiting)

-- what a round of `mutex_lock` does, by the state of the mutex
pub data Round (pid : ℕ) (p : Mutex) : LockRound → Type 0 where
  got : p.locked ≡ false → Round pid p (acquired (record p { locked = true }))
  waits : p.locked ≡ true → Round pid p (asleep (record p { waiting = set_bit p.waiting pid true }))

mutex_lock_round-waits :
    (pid : ℕ) (p : Mutex)
    → p.locked ≡ true
    → mutex_lock_round pid p ≡ asleep (record p { waiting = set_bit p.waiting pid true })
unfolding mutex_lock_round
mutex_lock_round-waits pid p y = rw (mutex_lock_round, y, if◌then◌else◌) refl

pub mutex_lock_round-got :
    (pid : ℕ) (p : Mutex)
    → p.locked ≡ false
    → mutex_lock_round pid p ≡ acquired (record p { locked = true })
unfolding mutex_lock_round
mutex_lock_round-got pid p z = rw (mutex_lock_round, z, if◌then◌else◌) refl

pub mutex_lock_round-Round : (pid : ℕ) (p : Mutex) → Round pid p (mutex_lock_round pid p)
mutex_lock_round-Round pid p = elim (Bool-cases p.locked) [
  | inl y ↦ subst (Round pid p) (sym (mutex_lock_round-waits pid p y)) (waits y)
  | inr z ↦ subst (Round pid p) (sym (mutex_lock_round-got pid p z)) (got z)
]

pub Round-acquired :
    {pid : ℕ} {p m : Mutex}
    → Round pid p (acquired m)
    → (p.locked ≡ false) × (m ≡ record p { locked = true })
Round-acquired (got z) = (z, refl)

pub Round-asleep :
    {pid : ℕ} {p m : Mutex}
    → Round pid p (asleep m)
    → (p.locked ≡ true) × (m ≡ record p { waiting = set_bit p.waiting pid true })
Round-asleep (waits y) = (y, refl)
