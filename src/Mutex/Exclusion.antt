-- ===== src/Mutex/Exclusion.antt =====
-- The tasks that use a mutex of kernel/mutex.c, in any order of steps.
use tout_os.Base.{
  ℕ, ◌≡◌, ◌≢◌, refl, ap, ◌∙◌, sym, subst, inl, inr, Bool, true, false, true≢false, Option, none,
  some, ltb, ◌==◌, if◌then◌else◌, arith, Bool-cases, Option-cases,
}
use tout_os.Mutex.{
  Mutex, LockRound, acquired, asleep, mutex_lock_round, mutex_unlock, get_next_waiting, init_mutex,
  set_bit,
}

-- what a task does: `trying` is in `mutex_lock` and awake
pub data Phase : Type 0 where
  outside : Phase
  trying : Phase
  sleeping : Phase
  inside : Phase

pub record Tasks : Type 0 where
  pub mutex : Mutex
  pub phase : ℕ → Phase

abbrev pub put_phase : (ℕ → Phase) → ℕ → Phase → ℕ → Phase
put_phase phase i p j = if j == i then p else phase j

-- the woken task runs again
abbrev pub wake : Option ℕ → (ℕ → Phase) → ℕ → Phase
wake none phase = phase
wake (some pid) phase = put_phase phase pid trying

-- `IsUser` says which tasks use the mutex. Only the task that is inside unlocks. A task that sleeps runs
-- again only when it is woken.
pub data Step (IsUser : ℕ → Type 0) : Tasks → Tasks → Type 0 where
  calls :
      {s : Tasks} (pid : ℕ)
      → IsUser pid
      → s.phase pid ≡ outside
      → Step IsUser s (record { mutex = s.mutex; phase = put_phase s.phase pid trying })
  enters :
      {s : Tasks} {m : Mutex} (pid : ℕ)
      → s.phase pid ≡ trying
      → mutex_lock_round pid s.mutex ≡ acquired m
      → Step IsUser s (record { mutex = m; phase = put_phase s.phase pid inside })
  sleeps :
      {s : Tasks} {m : Mutex} (pid : ℕ)
      → s.phase pid ≡ trying
      → mutex_lock_round pid s.mutex ≡ asleep m
      → Step IsUser s (record { mutex = m; phase = put_phase s.phase pid sleeping })
  leaves :
      {s : Tasks} {m : Mutex} {woken : Option ℕ} (pid : ℕ)
      → s.phase pid ≡ inside
      → mutex_unlock s.mutex ≡ (woken, m)
      → Step IsUser s (record { mutex = m; phase = wake woken (put_phase s.phase pid outside) })

abbrev pub begin : Tasks
begin = record { mutex = init_mutex; phase = λ i. outside }

pub data Reach (IsUser : ℕ → Type 0) : Tasks → Type 0 where
  start : Reach IsUser begin
  then_step : {s t : Tasks} → Reach IsUser s → Step IsUser s t → Reach IsUser t

abbrev pub is_inside : Phase → Bool
is_inside outside = false
is_inside trying = false
is_inside sleeping = false
is_inside inside = true

-- A task inside has the mutex locked, and there is one at most.
record IsExclusive (s : Tasks) : Type 0 where
  pub held : (i : ℕ) → is_inside (s.phase i) ≡ true → s.mutex.locked ≡ true
  pub alone : (i j : ℕ) → is_inside (s.phase i) ≡ true → is_inside (s.phase j) ≡ true → i ≡ j

-- what a round does to the state of a mutex, which was locked or not
data Round : Bool → LockRound → Type 0 where
  got : {m : Mutex} → m.locked ≡ true → Round false (acquired m)
  waits : {m : Mutex} → m.locked ≡ true → Round true (asleep m)

mutex_lock_round-Round : (pid : ℕ) (p : Mutex) → Round p.locked (mutex_lock_round pid p)
unfolding mutex_lock_round
mutex_lock_round-Round pid p = elim (Bool-cases p.locked) [
  | inl y ↦
      subst
        (λ b. Round b (
          if b
          then asleep (record p { waiting = set_bit p.waiting pid true })
          else acquired (record p { locked = true })))
        (sym y) (waits y)
  | inr z ↦
      subst
        (λ b. Round b (
          if b
          then asleep (record p { waiting = set_bit p.waiting pid true })
          else acquired (record p { locked = true })))
        (sym z) (got refl)
]

Round-acquired : (b : Bool) (m : Mutex) → Round b (acquired m) → (b ≡ false) × (m.locked ≡ true)
Round-acquired false m (got f) = (refl, f)
Round-acquired true m r = elim r [ ]

Round-asleep : (b : Bool) (m : Mutex) → Round b (asleep m) → m.locked ≡ b
Round-asleep true m (waits e) = e
Round-asleep false m r = elim r [ ]

mutex_unlock-locked : (p : Mutex) → ((mutex_unlock p).1).locked ≡ false
unfolding mutex_unlock
mutex_unlock-locked p = elim (Option-cases (get_next_waiting p)) [
  | inl e ↦ rw (e, mutex_unlock) refl
  | inr (pid, e) ↦ elim (Bool-cases (ltb 0 pid)) [
    | inl y ↦ rw (e, y, mutex_unlock, if◌then◌else◌) refl
    | inr z ↦ rw (e, z, mutex_unlock, if◌then◌else◌) refl
  ]
]

-- A task that is inside after a change of another task's phase was inside, and is not that task.
put_phase-inside :
    (phase : ℕ → Phase) (i : ℕ) (p : Phase) (j : ℕ)
    → is_inside p ≡ false
    → is_inside (put_phase phase i p j) ≡ true
    → (j ≢ i) × (is_inside (phase j) ≡ true)
put_phase-inside phase i p j out u = elim (Bool-cases (j == i)) [
  | inl y ↦
      absurd
        (true≢false (sym u ∙ subst (λ b. is_inside (if b then p else phase j) ≡ false) (sym y) out))
  | inr z ↦ (ground (arith, z), subst (λ b. is_inside (if b then p else phase j) ≡ true) z u)
]

wake-inside :
    (woken : Option ℕ) (phase : ℕ → Phase) (j : ℕ)
    → is_inside (wake woken phase j) ≡ true
    → is_inside (phase j) ≡ true
wake-inside none phase j u = u
wake-inside (some pid) phase j u = (put_phase-inside phase pid trying j refl u).1

-- Only the task that enters is inside when nobody was.
put_phase-only :
    (phase : ℕ → Phase) (i j : ℕ)
    → ((k : ℕ) → is_inside (phase k) ≡ true → ⊥)
    → is_inside (put_phase phase i inside j) ≡ true
    → j ≡ i
put_phase-only phase i j nobody u = elim (Bool-cases (j == i)) [
  | inl y ↦ ground (arith, y)
  | inr z ↦ absurd (nobody j (subst (λ b. is_inside (if b then inside else phase j) ≡ true) z u))
]

Step-IsExclusive :
    {IsUser : ℕ → Type 0} {s t : Tasks} → IsExclusive s → Step IsUser s t → IsExclusive t
Step-IsExclusive {s} v (calls pid is_user at) = record {
  held = λ i u. v.held i (put_phase-inside s.phase pid trying i refl u).1;
  alone = λ i j u w.
      v.alone i j (put_phase-inside s.phase pid trying i refl u).1
        (put_phase-inside s.phase pid trying j refl w).1;
}
Step-IsExclusive {s} v (enters {m} pid at e) =
    let (was_free, now_held) =
      Round-acquired s.mutex.locked m
        (subst (Round s.mutex.locked) e (mutex_lock_round-Round pid s.mutex)) in
    let nobody : (k : ℕ) → is_inside (s.phase k) ≡ true → ⊥ =
      λ k u. true≢false (sym (v.held k u) ∙ was_free) in
    record {
      held = λ i u. now_held;
      alone = λ i j u w.
          put_phase-only s.phase pid i nobody u ∙ sym (put_phase-only s.phase pid j nobody w);
    }
Step-IsExclusive {s} v (sleeps {m} pid at e) =
    let same =
      Round-asleep s.mutex.locked m
        (subst (Round s.mutex.locked) e (mutex_lock_round-Round pid s.mutex)) in
    record {
      held = λ i u. same ∙ v.held i (put_phase-inside s.phase pid sleeping i refl u).1;
      alone = λ i j u w.
          v.alone i j (put_phase-inside s.phase pid sleeping i refl u).1
            (put_phase-inside s.phase pid sleeping j refl w).1;
    }
Step-IsExclusive {s} v (leaves {woken} pid at e) =
    let nobody : (k : ℕ) → is_inside (wake woken (put_phase s.phase pid outside) k) ≡ true → ⊥ =
      λ k u.
        let (ne, was) =
          put_phase-inside s.phase pid outside k refl
            (wake-inside woken (put_phase s.phase pid outside) k u) in
        ne (v.alone k pid was (ap is_inside at)) in
    record { held = λ i u. absurd (nobody i u); alone = λ i j u w. absurd (nobody i u) }

Reach-IsExclusive : {IsUser : ℕ → Type 0} {s : Tasks} → Reach IsUser s → IsExclusive s
Reach-IsExclusive start = record {
  held = λ i u. absurd (true≢false (sym u));
  alone = λ i j u w. absurd (true≢false (sym u));
}
Reach-IsExclusive (then_step r step) = Step-IsExclusive (Reach-IsExclusive r) step

-- In every state that the steps reach two tasks that are inside are the same task, and while a task is
-- inside the mutex is locked.
pub Reach-exclusion :
    (IsUser : ℕ → Type 0) (s : Tasks) (i j : ℕ)
    → Reach IsUser s
    → is_inside (s.phase i) ≡ true
    → is_inside (s.phase j) ≡ true
    → (i ≡ j) × (s.mutex.locked ≡ true)
Reach-exclusion IsUser s i j r u w = let v = Reach-IsExclusive r in (v.alone i j u w, v.held i u)
