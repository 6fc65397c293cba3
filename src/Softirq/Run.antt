-- ===== src/Softirq/Run.antt =====
-- The nesting count of kernel/softirq.c, which keeps `do_softirq` from running inside itself.
use tout_os.Base.{
  ℕ, zero, suc, ◌+◌, ◌-◌, ◌≡◌, ◌≢◌, refl, ap, ◌∙◌, sym, subst, Bool, true, false, Option, none,
  some, ◌==◌, if◌then◌else◌, arith, Bool-cases, Option-cases, inl, inr,
}
use tout_os.Softirq.{Softirqs, do_softirq, action_loop, max_num_softirq, put_count, take_pending}

module _ {S : Type 0} where
  -- a run that ends has the counts `f`
  pub data Balanced (f : ℕ → ℕ) : Option (Softirqs × S) → Type 0 where
    fault : Balanced f none
    ran : {t : Softirqs × S} → ((c : ℕ) → t.0.nested_softirq_count c ≡ f c) → Balanced f (some t)

module _ {S : Type 0} (call : ℕ → Softirqs × S → Softirqs × S)
    (calm : (a : ℕ) (s : Softirqs × S) (c : ℕ)
      → (call a s).0.nested_softirq_count c ≡ s.0.nested_softirq_count c) where
  action_loop-Balanced :
      (k i : ℕ) (w : ℕ → Bool) (s : Softirqs × S) (f : ℕ → ℕ)
      → ((c : ℕ) → s.0.nested_softirq_count c ≡ f c)
      → Balanced f (action_loop call k i w s)
  unfolding action_loop
  action_loop-Balanced zero i w s f h = ran h
  action_loop-Balanced (suc k) i w s f h = elim (Bool-cases (w i)) [
    | inr z ↦ rw (z, action_loop) (action_loop-Balanced k (i + 1) w s f h)
    | inl y ↦ elim (Option-cases (s.0.softirq_vec i)) [
      | inl e ↦ rw (y, e, action_loop) fault
      | inr (a, e) ↦
          rw (y, e, action_loop)
            (action_loop-Balanced k (i + 1) w (call a s) f (λ c. calm a s c ∙ h c))
    ]
  ]

  -- the count goes up by one and back
  up_and_down :
      (s t : Softirqs) (cpu c : ℕ)
      → ((c : ℕ)
          → t.nested_softirq_count c
            ≡ (put_count call s cpu (s.nested_softirq_count cpu + 1)).nested_softirq_count c)
      → (put_count call t cpu (t.nested_softirq_count cpu - 1)).nested_softirq_count c
        ≡ s.nested_softirq_count c
  up_and_down s t cpu c h = elim (Bool-cases (c == cpu)) [
    | inl y ↦
        let e : cpu ≡ c = ground (arith, y) in
        let same : (cpu == cpu) ≡ true = ground arith in
        let at : t.nested_softirq_count cpu ≡ s.nested_softirq_count cpu + 1 =
          subst
            (λ b.
              t.nested_softirq_count cpu
              ≡ (if b then s.nested_softirq_count cpu + 1 else s.nested_softirq_count cpu))
            same (h cpu) in
        subst
          (λ b.
            (if b then t.nested_softirq_count cpu - 1 else t.nested_softirq_count c)
            ≡ s.nested_softirq_count c)
          (sym y)
          (let down : t.nested_softirq_count cpu - 1 ≡ s.nested_softirq_count cpu =
              omega (arith, at) in
            down ∙ ap s.nested_softirq_count e)
    | inr z ↦
        subst
          (λ b.
            (if b then t.nested_softirq_count cpu - 1 else t.nested_softirq_count c)
            ≡ s.nested_softirq_count c)
          (sym z)
          (subst
            (λ b.
              t.nested_softirq_count c
              ≡ (if b then s.nested_softirq_count cpu + 1 else s.nested_softirq_count c))
            z (h c))
  ]

  Balanced-after :
      (s : Softirqs) (cpu : ℕ) (r : Option (Softirqs × S))
      → Balanced
          (λ c. (put_count call s cpu (s.nested_softirq_count cpu + 1)).nested_softirq_count c)
          r
      → Balanced s.nested_softirq_count (elim r as (λ z. Option (Softirqs × S)) [
        | none ↦ none
        | some (t, y) ↦ some (put_count call t cpu (t.nested_softirq_count cpu - 1), y)
      ])
  Balanced-after s cpu none b = fault
  Balanced-after s cpu (some (t, y)) (ran h) = ran (λ c. up_and_down s t cpu c h)

-- When no action changes a nesting count, a `do_softirq` that ends leaves the count of every core as it
-- was, whichever actions it runs.
pub do_softirq-Balanced :
    {S : Type 0} (call : ℕ → Softirqs × S → Softirqs × S)
    → ((a : ℕ) (s : Softirqs × S) (c : ℕ)
        → (call a s).0.nested_softirq_count c ≡ s.0.nested_softirq_count c)
    → (cpu : ℕ) (s : Softirqs) (x : S)
    → Balanced s.nested_softirq_count (do_softirq call cpu (s, x))
unfolding do_softirq
do_softirq-Balanced call calm cpu s x = elim (Bool-cases (s.nested_softirq_count cpu == 0)) [
  | inr z ↦ rw (z, do_softirq) (ran (λ c. refl))
  | inl y ↦
      rw (y, do_softirq)
        (Balanced-after call calm s cpu
          (action_loop call max_num_softirq 0 (s.pending cpu)
            (take_pending call (put_count call s cpu (s.nested_softirq_count cpu + 1)) cpu, x))
          (action_loop-Balanced call calm max_num_softirq 0 (s.pending cpu)
            (take_pending call (put_count call s cpu (s.nested_softirq_count cpu + 1)) cpu, x)
            (λ c. (put_count call s cpu (s.nested_softirq_count cpu + 1)).nested_softirq_count c)
            (λ c. refl)))
]

-- the state that the action sees: nothing pending on the core, and its nesting count is 1
pub record Entry (cpu : ℕ) (s e : Softirqs) : Type 0 where
  pub vec : e.softirq_vec ≡ s.softirq_vec
  pub nested : e.nested_softirq_count cpu ≡ 1
  pub taken : (i : ℕ) → e.pending cpu i ≡ false
  pub others : (c : ℕ) → c ≢ cpu → (i : ℕ) → e.pending c i ≡ s.pending c i

-- What `do_softirq` does on the core: nothing inside another one; else the pending bits are taken, and the
-- action runs once exactly when its bit was pending, and what it raises stays pending. The counts are
-- then as they were. A pending bit without an action is a call of NULL.
pub data SoftirqRun {S : Type 0} (call : ℕ → Softirqs × S → Softirqs × S) (cpu : ℕ) (s : Softirqs)
    (x : S) : Option (Softirqs × S) → Type 0 where
  inside : s.nested_softirq_count cpu ≢ 0 → SoftirqRun call cpu s x (some (s, x))
  none_pending :
      (t : Softirqs)
      → s.nested_softirq_count cpu ≡ 0
      → s.pending cpu 0 ≡ false
      → ((i : ℕ) → t.pending cpu i ≡ false)
      → ((c : ℕ) → c ≢ cpu → (i : ℕ) → t.pending c i ≡ s.pending c i)
      → ((c : ℕ) → t.nested_softirq_count c ≡ s.nested_softirq_count c)
      → SoftirqRun call cpu s x (some (t, x))
  null_called :
      s.nested_softirq_count cpu ≡ 0
      → s.pending cpu 0 ≡ true
      → s.softirq_vec 0 ≡ none
      → SoftirqRun call cpu s x none
  action_run :
      (a : ℕ) (e t : Softirqs)
      → s.nested_softirq_count cpu ≡ 0
      → s.pending cpu 0 ≡ true
      → s.softirq_vec 0 ≡ some a
      → Entry cpu s e
      → t.pending ≡ (call a (e, x)).0.pending
      → t.softirq_vec ≡ (call a (e, x)).0.softirq_vec
      → ((c : ℕ) → t.nested_softirq_count c ≡ s.nested_softirq_count c)
      → SoftirqRun call cpu s x (some (t, (call a (e, x)).1))

module _ {S : Type 0} (call : ℕ → Softirqs × S → Softirqs × S) (cpu : ℕ) (s : Softirqs)
    (x : S) where
  -- the state at the loop
  abbrev entry : Softirqs
  entry = take_pending call (put_count call s cpu (s.nested_softirq_count cpu + 1)) cpu

  taken_here : (i : ℕ) → entry.pending cpu i ≡ false
  taken_here i = let y : (cpu == cpu) ≡ true = ground arith in rw (y, if◌then◌else◌) refl

  taken_there : (c : ℕ) → c ≢ cpu → (i : ℕ) → entry.pending c i ≡ s.pending c i
  taken_there c ne i = let z : (c == cpu) ≡ false = ground (arith, ne) in rw (z, if◌then◌else◌) refl

  entry-Entry : s.nested_softirq_count cpu ≡ 0 → Entry cpu s entry
  entry-Entry zero_count = record {
    vec = refl;
    nested =
        let y : (cpu == cpu) ≡ true = ground arith in
        let one : s.nested_softirq_count cpu + 1 ≡ 1 = omega (arith, zero_count) in
        rw (y, if◌then◌else◌) one;
    taken = taken_here;
    others = taken_there;
  }

-- A `do_softirq` inside another one, on the same core, does nothing. Any other takes the pending bits of the
-- core and runs the action once exactly when its bit was pending, with the nesting count at 1; what the
-- action raises stays pending; a pending bit without an action is a call of NULL. When no action changes a
-- nesting count, each count is then as it was.
pub do_softirq-SoftirqRun :
    {S : Type 0} (call : ℕ → Softirqs × S → Softirqs × S)
    → ((a : ℕ) (s : Softirqs × S) (c : ℕ)
        → (call a s).0.nested_softirq_count c ≡ s.0.nested_softirq_count c)
    → (cpu : ℕ) (s : Softirqs) (x : S) → SoftirqRun call cpu s x (do_softirq call cpu (s, x))
unfolding do_softirq action_loop
do_softirq-SoftirqRun call calm cpu s x = elim (Bool-cases (s.nested_softirq_count cpu == 0)) [
  | inr z ↦ rw (z, do_softirq) (inside (ground (arith, z)))
  | inl y ↦
      let e = entry call cpu s x in
      let none_inside : s.nested_softirq_count cpu ≡ 0 = ground (arith, y) in
      elim (Bool-cases (s.pending cpu 0)) [
        | inr n ↦
            rw (y, do_softirq, n, action_loop)
              (none_pending (put_count call e cpu (e.nested_softirq_count cpu - 1)) none_inside n
                (taken_here call cpu s x) (taken_there call cpu s x)
                (λ c. up_and_down call calm s e cpu c (λ d. refl)))
        | inl p ↦ elim (Option-cases (s.softirq_vec 0)) [
          | inl none_set ↦
              rw (y, do_softirq, p, none_set, action_loop) (null_called none_inside p none_set)
          | inr (a, set) ↦
              let t = (call a (e, x)).0 in
              rw (y, do_softirq, p, set, action_loop)
                (action_run a e (put_count call t cpu (t.nested_softirq_count cpu - 1)) none_inside
                  p set (entry-Entry call cpu s x none_inside) refl refl
                  (λ c. up_and_down call calm s t cpu c (λ d. calm a (e, x) d)))
        ]
      ]
]
