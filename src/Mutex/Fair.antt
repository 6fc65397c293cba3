-- ===== src/Mutex/Fair.antt =====
-- The tasks that sleep on a mutex of kernel/mutex.c are those of its bitmap, and the steps keep it so.
use tout_os.Base.{
  ℕ, ◌≤◌, ◌<◌, ◌≡◌, ◌≢◌, ap, ◌∙◌, sym, subst, inl, inr, true, false, true≢false, ◌==◌, arith,
  Bool-cases,
}
use tout_os.Mutex.{set_bit}
use tout_os.Mutex.Exclusion.{outside, trying, sleeping, inside, Tasks, put_phase}
use tout_os.Mutex.Rounds.{
  put_phase_self, put_phase_other, put_phase-cases, set_bit_self, set_bit_other,
}

-- the pids that the bitmap holds and that `mutex_unlock` wakes
abbrev pub IsWaitable : ℕ → Type 0
IsWaitable pid = (1 ≤ pid) × (pid < 32)

-- The bits of a mutex are the tasks that sleep on it. Whoever sleeps on a free mutex will see a task
-- that tries, and a locked mutex has a task inside.
pub record IsFair (s : Tasks) : Type 0 where
  pub known : (i : ℕ) → s.phase i ≢ outside → IsWaitable i
  pub marked : (i : ℕ) → s.phase i ≡ sleeping → s.mutex.waiting i ≡ true
  pub asleep_then : (i : ℕ) → s.mutex.waiting i ≡ true → s.phase i ≡ sleeping
  pub heir :
      s.mutex.locked ≡ false → (i : ℕ) → s.phase i ≡ sleeping → (k : ℕ) × (s.phase k ≡ trying)
  pub holder : s.mutex.locked ≡ true → (k : ℕ) × (s.phase k ≡ inside)

pub outside≢sleeping : outside ≢ sleeping
outside≢sleeping e = cc

trying≢sleeping : trying ≢ sleeping
trying≢sleeping e = cc

trying≢inside : trying ≢ inside
trying≢inside e = cc

trying≢outside : trying ≢ outside
trying≢outside e = cc

inside≢sleeping : inside ≢ sleeping
inside≢sleeping e = cc

outside≢inside : outside ≢ inside
outside≢inside e = cc

pub put_phase-calls :
    (s : Tasks) (pid : ℕ)
    → IsFair s
    → IsWaitable pid
    → s.phase pid ≡ outside
    → IsFair (record { mutex = s.mutex; phase = put_phase s.phase pid trying })
put_phase-calls s pid v is_user at = record {
  known = λ i ne. elim (Bool-cases (i == pid)) [
    | inl y ↦ let e : i ≡ pid = ground (arith, y) in subst IsWaitable (sym e) is_user
    | inr z ↦
        let apart : i ≢ pid = ground (arith, z) in
        v.known i (λ o. ne (put_phase_other s.phase pid trying i apart ∙ o))
  ];
  marked = λ i e. elim (put_phase-cases s.phase pid trying i sleeping e) [
    | inl (same, wrong) ↦ absurd (trying≢sleeping wrong)
    | inr (apart, was) ↦ v.marked i was
  ];
  asleep_then = λ i y.
      let was = v.asleep_then i y in
      put_phase_other s.phase pid trying i
        (λ e. outside≢sleeping (sym at ∙ ap s.phase (sym e) ∙ was))
      ∙ was;
  heir = λ free i e. (pid, put_phase_self s.phase pid trying);
  holder = λ held.
      let (k, is_in) = v.holder held in
      (
        k,
        put_phase_other s.phase pid trying k
              (λ e. outside≢inside (sym at ∙ ap s.phase (sym e) ∙ is_in))
            ∙ is_in,
      );
}

pub put_phase-enters :
    (s : Tasks) (pid : ℕ)
    → IsFair s
    → s.phase pid ≡ trying
    → IsFair
        (record { mutex = record s.mutex { locked = true }; phase = put_phase s.phase pid inside })
put_phase-enters s pid v at = record {
  known = λ i ne. elim (Bool-cases (i == pid)) [
    | inl y ↦
        let e : i ≡ pid = ground (arith, y) in
        subst IsWaitable (sym e) (v.known pid (λ o. trying≢outside (sym at ∙ o)))
    | inr z ↦
        let apart : i ≢ pid = ground (arith, z) in
        v.known i (λ o. ne (put_phase_other s.phase pid inside i apart ∙ o))
  ];
  marked = λ i e. elim (put_phase-cases s.phase pid inside i sleeping e) [
    | inl (same, wrong) ↦ absurd (inside≢sleeping wrong)
    | inr (apart, was) ↦ v.marked i was
  ];
  asleep_then = λ i y.
      let was = v.asleep_then i y in
      put_phase_other s.phase pid inside i
        (λ e. trying≢sleeping (sym at ∙ ap s.phase (sym e) ∙ was))
      ∙ was;
  heir = λ free. absurd (true≢false free);
  holder = λ held. (pid, put_phase_self s.phase pid inside);
}

pub put_phase-sleeps :
    (s : Tasks) (pid : ℕ)
    → IsFair s
    → s.mutex.locked ≡ true
    → s.phase pid ≡ trying
    → IsFair (record {
      mutex = record s.mutex { waiting = set_bit s.mutex.waiting pid true };
      phase = put_phase s.phase pid sleeping;
    })
put_phase-sleeps s pid v held at =
    let (pid_low, pid_high) = v.known pid (λ o. trying≢outside (sym at ∙ o)) in
    record {
      known = λ i ne. elim (Bool-cases (i == pid)) [
        | inl y ↦
            let e : i ≡ pid = ground (arith, y) in subst IsWaitable (sym e) (pid_low, pid_high)
        | inr z ↦
            let apart : i ≢ pid = ground (arith, z) in
            v.known i (λ o. ne (put_phase_other s.phase pid sleeping i apart ∙ o))
      ];
      marked = λ i e. elim (put_phase-cases s.phase pid sleeping i sleeping e) [
        | inl (same, right) ↦
            ap (set_bit s.mutex.waiting pid true) same
            ∙ set_bit_self s.mutex.waiting pid true pid_high
        | inr (apart, was) ↦ set_bit_other s.mutex.waiting pid true i apart ∙ v.marked i was
      ];
      asleep_then = λ i y. elim (Bool-cases (i == pid)) [
        | inl same ↦
            let e : i ≡ pid = ground (arith, same) in
            ap (put_phase s.phase pid sleeping) e ∙ put_phase_self s.phase pid sleeping
        | inr z ↦
            let apart : i ≢ pid = ground (arith, z) in
            put_phase_other s.phase pid sleeping i apart
            ∙ v.asleep_then i (sym (set_bit_other s.mutex.waiting pid true i apart) ∙ y)
      ];
      heir = λ free. absurd (true≢false (sym held ∙ free));
      holder = λ h.
          let (k, is_in) = v.holder held in
          (
            k,
            put_phase_other s.phase pid sleeping k
                  (λ e. trying≢inside (sym at ∙ ap s.phase (sym e) ∙ is_in))
                ∙ is_in,
          );
    }

pub put_phase-leaves :
    (s : Tasks) (pid : ℕ)
    → IsFair s
    → s.phase pid ≡ inside
    → ((j : ℕ) → j < 32 → s.mutex.waiting j ≡ false)
    → IsFair (record {
      mutex = record s.mutex { locked = false };
      phase = put_phase s.phase pid outside;
    })
put_phase-leaves s pid v at clear =
    let nobody : (i : ℕ) → s.phase i ≡ sleeping → ⊥ = λ i was.
      true≢false
        (sym (v.marked i was) ∙ clear i (v.known i (λ o. outside≢sleeping (sym o ∙ was))).1) in
    record {
      known = λ i ne. elim (Bool-cases (i == pid)) [
        | inl y ↦
            let e : i ≡ pid = ground (arith, y) in
            absurd (ne (ap (put_phase s.phase pid outside) e ∙ put_phase_self s.phase pid outside))
        | inr z ↦
            let apart : i ≢ pid = ground (arith, z) in
            v.known i (λ o. ne (put_phase_other s.phase pid outside i apart ∙ o))
      ];
      marked = λ i e. elim (put_phase-cases s.phase pid outside i sleeping e) [
        | inl (same, wrong) ↦ absurd (outside≢sleeping wrong)
        | inr (apart, was) ↦ v.marked i was
      ];
      asleep_then = λ i y. absurd (nobody i (v.asleep_then i y));
      heir = λ free i e. elim (put_phase-cases s.phase pid outside i sleeping e) [
        | inl (same, wrong) ↦ absurd (outside≢sleeping wrong)
        | inr (apart, was) ↦ absurd (nobody i was)
      ];
      holder = λ held. absurd (true≢false (sym held));
    }

pub put_phase-wakes :
    (s : Tasks) (pid k : ℕ)
    → IsFair s
    → s.phase pid ≡ inside
    → k < 32
    → s.mutex.waiting k ≡ true
    → IsFair (record {
      mutex = record { locked = false; waiting = set_bit s.mutex.waiting k false };
      phase = put_phase (put_phase s.phase pid outside) k trying;
    })
put_phase-wakes s pid k v at lt y =
    let left = put_phase s.phase pid outside in
    let was_asleep = v.asleep_then k y in
    record {
      known = λ i ne. elim (Bool-cases (i == k)) [
        | inl same ↦
            let e : i ≡ k = ground (arith, same) in
            subst IsWaitable (sym e) (v.known k (λ o. outside≢sleeping (sym o ∙ was_asleep)))
        | inr z ↦
            let apart : i ≢ k = ground (arith, z) in
            let ne' : left i ≢ outside = λ o. ne (put_phase_other left k trying i apart ∙ o) in
            elim (Bool-cases (i == pid)) [
              | inl same ↦
                  let e : i ≡ pid = ground (arith, same) in
                  absurd (ne' (ap left e ∙ put_phase_self s.phase pid outside))
              | inr z' ↦
                  let apart' : i ≢ pid = ground (arith, z') in
                  v.known i (λ o. ne' (put_phase_other s.phase pid outside i apart' ∙ o))
            ]
      ];
      marked = λ i e. elim (put_phase-cases left k trying i sleeping e) [
        | inl (same, wrong) ↦ absurd (trying≢sleeping wrong)
        | inr (apart, before) ↦ elim (put_phase-cases s.phase pid outside i sleeping before) [
          | inl (same, wrong) ↦ absurd (outside≢sleeping wrong)
          | inr (apart', was) ↦ set_bit_other s.mutex.waiting k false i apart ∙ v.marked i was
        ]
      ];
      asleep_then = λ i set. elim (Bool-cases (i == k)) [
        | inl same ↦
            let e : i ≡ k = ground (arith, same) in
            absurd (
              true≢false (
                sym set
                ∙ ap (set_bit s.mutex.waiting k false) e
                ∙ set_bit_self s.mutex.waiting k false lt))
        | inr z ↦
            let apart : i ≢ k = ground (arith, z) in
            let was = v.asleep_then i (sym (set_bit_other s.mutex.waiting k false i apart) ∙ set) in
            let apart' : i ≢ pid = λ e. inside≢sleeping (sym at ∙ ap s.phase (sym e) ∙ was) in
            put_phase_other left k trying i apart
            ∙ put_phase_other s.phase pid outside i apart'
            ∙ was
      ];
      heir = λ free i e. (k, put_phase_self left k trying);
      holder = λ held. absurd (true≢false (sym held));
    }
