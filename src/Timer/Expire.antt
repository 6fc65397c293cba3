-- ===== src/Timer/Expire.antt =====
-- What `run_timer_softirq` of kernel/timer.c fires, when the functions that it calls leave the timers.
use tout_os.Base.{
  ℕ, zero, suc, ◌+◌, ◌*◌, ◌≤◌, ◌<◌, ◌≡◌, ◌≢◌, refl, ap, ◌∙◌, sym, subst, inl, inr, Bool, true,
  false, true≢false, Option, none, some, List, [], ◌∷◌, ◌++◌, length, length-append, append_assoc,
  ◌==◌, if◌then◌else◌, arith, Bool-cases,
}
use tout_os.Timer.{
  TimerNode, Timers, set_next, cut_timer, del_loop, unlink_timer, run_loop, run_timer_softirq,
}
use tout_os.Timer.Chain.{mem, remove, Chain, end, link, mem-first, mem-later}
use tout_os.Timer.Unlink.{Holds, Chain-parts, unlink_timer-Unlinked}

-- none of the timers is due
data NotDue (due : ℕ → Bool) : List ℕ → Type 0 where
  none_yet : NotDue due []
  passed : {x : ℕ} {xs : List ℕ} → due x ≡ false → NotDue due xs → NotDue due (x ∷ xs)

module _ (due : ℕ → Bool) where
  -- the timers that are due, and the others
  abbrev pub select : List ℕ → List ℕ
  select [] = []
  select (x ∷ xs) = if due x then x ∷ select xs else select xs

  abbrev pub keep : List ℕ → List ℕ
  keep [] = []
  keep (x ∷ xs) = if due x then keep xs else x ∷ keep xs

  -- the rounds of the loop over `xs` when a restart passes `n` timers at most
  abbrev need : ℕ → List ℕ → ℕ
  need n [] = 1
  need n (x ∷ xs) = if due x then n + 1 + need n xs else 1 + need n xs

  need_bound : (n : ℕ) (xs : List ℕ) → need n xs ≤ length xs * (n + 1) + 1
  need_bound n [] = omega arith
  need_bound n (x ∷ xs) = elim (Bool-cases (due x)) [
    | inl y ↦ rw (y, if◌then◌else◌) (omega (arith, need_bound n xs))
    | inr z ↦ rw (z, if◌then◌else◌) (omega (arith, need_bound n xs))
  ]

  need_pos : (n : ℕ) (xs : List ℕ) → 0 < need n xs
  need_pos n [] = omega arith
  need_pos n (x ∷ xs) = elim (Bool-cases (due x)) [
    | inl y ↦ rw (y, if◌then◌else◌) (omega arith)
    | inr z ↦ rw (z, if◌then◌else◌) (omega arith)
  ]

  need-due : (n x : ℕ) (xs : List ℕ) → due x ≡ true → need n (x ∷ xs) ≡ n + 1 + need n xs
  need-due n x xs y = rw (y, if◌then◌else◌)

  need-later : (n x : ℕ) (xs : List ℕ) → due x ≡ false → need n (x ∷ xs) ≡ 1 + need n xs
  need-later n x xs z = rw (z, if◌then◌else◌)

  select-append : (pre xs : List ℕ) → NotDue due pre → select (pre ++ xs) ≡ select xs
  select-append [] xs none_yet = refl
  select-append (x ∷ pre) xs (passed z f) = rw (z, if◌then◌else◌) (select-append pre xs f)

  keep-append : (pre xs : List ℕ) → NotDue due pre → keep (pre ++ xs) ≡ pre ++ keep xs
  keep-append [] xs none_yet = refl
  keep-append (x ∷ pre) xs (passed z f) =
      rw (z, if◌then◌else◌) (ap (λ ys. x ∷ ys) (keep-append pre xs f))

  need-append :
      (n : ℕ) (pre xs : List ℕ) → NotDue due pre → need n (pre ++ xs) ≡ length pre + need n xs
  need-append n [] xs none_yet = omega arith
  need-append n (x ∷ pre) xs (passed z f) =
      rw (z, if◌then◌else◌) (omega (arith, need-append n pre xs f))

  NotDue-snoc :
      (pre : List ℕ) (x : ℕ) → NotDue due pre → due x ≡ false → NotDue due (pre ++ (x ∷ []))
  NotDue-snoc [] x none_yet z = passed z none_yet
  NotDue-snoc (y ∷ pre) x (passed z' f) z = passed z' (NotDue-snoc pre x f z)

-- the rest of a list from one of its timers on
Chain-after :
    (node : ℕ → TimerNode) (h x : ℕ) (pre xs : List ℕ)
    → Chain node h (pre ++ (x ∷ xs))
    → (remove x (pre ++ (x ∷ xs)) ≡ pre ++ xs)
      × (mem x (pre ++ (x ∷ xs)) ≡ true)
      × (x ≢ 0)
      × Chain node ((node x).next) xs
Chain-after node h x [] xs c =
    let (e, ne, f, tail) = Chain-parts node h x xs c in
    let same : (x == x) ≡ true = ground arith in
    (rw (same, if◌then◌else◌), mem-first x xs, ne, tail)
Chain-after node h x (y ∷ pre) xs c =
    let (e, ne, f, tail) = Chain-parts node h y (pre ++ (x ∷ xs)) c in
    let (removed, m, ne', rest) = Chain-after node ((node y).next) x pre xs tail in
    let apart : (y == x) ≡ false = elim (Bool-cases (y == x)) [
      | inl same ↦
          let e : y ≡ x = ground (arith, same) in
          absurd (true≢false (sym m ∙ subst (λ k. mem k (pre ++ (x ∷ xs)) ≡ false) e f))
      | inr z ↦ z
    ] in
    (
      rw (apart, if◌then◌else◌) (ap (λ ys. y ∷ ys) removed),
      mem-later x y (pre ++ (x ∷ xs)) m,
      ne',
      rest,
    )

set_next-expires :
    (node : ℕ → TimerNode) (p n q : ℕ) → (set_next node p n q).expires ≡ (node q).expires
set_next-expires node p n q = elim (Bool-cases (q == p)) [
  | inl y ↦
      let e : q ≡ p = ground (arith, y) in
      rw (y, if◌then◌else◌) (ap (λ k. (node k).expires) (sym e))
  | inr z ↦ rw (z, if◌then◌else◌)
]

cut_timer-expires :
    (prev p : ℕ) (s : Timers) (q : ℕ) → ((cut_timer prev p s).node q).expires ≡ (s.node q).expires
cut_timer-expires prev p s q = elim (Bool-cases (prev == 0)) [
  | inl y ↦ rw (y, if◌then◌else◌) (set_next-expires s.node p 0 q)
  | inr z ↦
      rw (z, if◌then◌else◌)
        (set_next-expires (set_next s.node prev ((s.node p).next)) p 0 q
          ∙ set_next-expires s.node prev ((s.node p).next) q)
]

data Kept (s : Timers) : Option Timers → Type 0 where
  stuck : Kept s none
  kept : {t : Timers} → ((q : ℕ) → (t.node q).expires ≡ (s.node q).expires) → Kept s (some t)

del_loop-Kept : (fuel p prev cur : ℕ) (s : Timers) → Kept s (del_loop fuel p prev cur s)
unfolding del_loop
del_loop-Kept zero p prev cur s = stuck
del_loop-Kept (suc fuel) p prev cur s = elim (Bool-cases (cur == 0)) [
  | inl y ↦ rw (y, del_loop) (kept (λ q. refl))
  | inr z ↦ elim (Bool-cases (cur == p)) [
    | inl here ↦ rw (z, here, del_loop) (kept (cut_timer-expires prev cur s))
    | inr there ↦ rw (z, there, del_loop) (del_loop-Kept fuel p cur ((s.node cur).next) s)
  ]
]

Kept-expires : (s t : Timers) → Kept s (some t) → (q : ℕ) → (t.node q).expires ≡ (s.node q).expires
Kept-expires s t (kept f) = f

unlink_timer-expires :
    (fuel p : ℕ) (s t : Timers)
    → unlink_timer fuel p s ≡ some t
    → (q : ℕ) → (t.node q).expires ≡ (s.node q).expires
unfolding unlink_timer
unlink_timer-expires fuel p s t e =
    Kept-expires s t (subst (Kept s) e (del_loop-Kept fuel p 0 s.head s))

-- what the loop gives: the timers that are due were fired, in the list's order, and the others are left
abbrev pub Fired : (ℕ → Bool) → List ℕ → List ℕ → Option (List ℕ × Timers) → Type 0
Fired due fired left r = (u : Timers) × (r ≡ some (fired, u)) × Holds u left

module _ (call : ℕ → ℕ → Timers → Timers) (tick : ℕ)
    (calm : (f d : ℕ) (t : Timers) → call f d t ≡ t) (expires : ℕ → ℕ) where
  abbrev due_at : ℕ → Bool
  due_at x = expires x == tick

  run_loop-pass :
      (fuel cur : ℕ) (s : Timers)
      → cur ≢ 0
      → ((s.node cur).expires == tick) ≡ false
      → run_loop call (suc fuel) tick cur s ≡ run_loop call fuel tick ((s.node cur).next) s
  unfolding run_loop
  run_loop-pass fuel cur s ne z =
      let z' : (cur == 0) ≡ false = ground (arith, ne) in rw (z', z, run_loop) refl

  run_loop-fire :
      (fuel cur : ℕ) (s t u : Timers) (fired : List ℕ)
      → cur ≢ 0
      → ((s.node cur).expires == tick) ≡ true
      → unlink_timer (suc fuel) cur s ≡ some t
      → run_loop call fuel tick t.head t ≡ some (fired, u)
      → run_loop call (suc fuel) tick cur s ≡ some (cur ∷ fired, u)
  unfolding run_loop
  run_loop-fire fuel cur s t u fired ne y e r =
      let z' : (cur == 0) ≡ false = ground (arith, ne) in
      rw (z', y, e, run_loop, calm ((t.node cur).function) ((t.node cur).data_arg) t, r) refl

  run_loop-end : (fuel : ℕ) (s : Timers) → run_loop call (suc fuel) tick 0 s ≡ some ([], s)
  unfolding run_loop
  run_loop-end fuel s = refl

  -- the loop at `cur`, behind the timers `pre` that are not due
  run_loop-Fired :
      (fuel n cur : ℕ) (s : Timers) (pre xs : List ℕ)
      → ((q : ℕ) → (s.node q).expires ≡ expires q)
      → NotDue due_at pre
      → Holds s (pre ++ xs)
      → Chain s.node cur xs
      → length (pre ++ xs) ≤ n
      → need due_at n xs ≤ fuel
      → Fired due_at (select due_at xs) (pre ++ keep due_at xs) (run_loop call fuel tick cur s)
  run_loop-Fired zero n cur s pre xs same f all c short enough =
      absurd (omega (arith, need_pos due_at n xs, enough))
  run_loop-Fired (suc fuel) n zero s pre [] same f all end short enough =
      (s, run_loop-end fuel s, all)
  run_loop-Fired (suc fuel) n (suc cur) s pre [] same f all c short enough = elim c [ ]
  run_loop-Fired (suc fuel) n cur s pre (x ∷ xs) same f all (link ne fresh c) short enough =
      let (removed, m, ne', rest) = Chain-after s.node s.head x pre xs all in
      let exp : ((s.node x).expires == tick) ≡ due_at x = ap (λ k. k == tick) (same x) in
      elim (Bool-cases (due_at x)) [
        | inl y ↦
            let (t, e, held, nx, ns) =
              unlink_timer-Unlinked (suc fuel) x s (pre ++ (x ∷ xs))
                (omega (arith, short, enough, need-due due_at n x xs y)) all in
            let (u, r, left) =
              run_loop-Fired fuel n t.head t [] (pre ++ xs)
                (λ q. unlink_timer-expires (suc fuel) x s t e q ∙ same q) none_yet
                (subst (Holds t) removed held) (subst (Holds t) removed held)
                (omega (arith, short, length-append pre xs, length-append pre (x ∷ xs)))
                (omega (
                  arith,
                  short,
                  enough,
                  need-due due_at n x xs y,
                  need-append due_at n pre xs f,
                  length-append pre (x ∷ xs),
                )) in
            rw (y, if◌then◌else◌)
              (
                u,
                run_loop-fire fuel x s t u (select due_at xs) ne (exp ∙ y) e
                    (r ∙ ap (λ l. some (l, u)) (select-append due_at pre xs f)),
                subst (Holds u) (keep-append due_at pre xs f) left,
              )
        | inr z ↦
            let glue : (pre ++ (x ∷ [])) ++ xs ≡ pre ++ (x ∷ xs) = append_assoc pre (x ∷ []) xs in
            let (u, r, left) =
              run_loop-Fired fuel n ((s.node x).next) s (pre ++ (x ∷ [])) xs same
                (NotDue-snoc due_at pre x f z) (subst (Holds s) (sym glue) all) c
                (subst (λ l. length l ≤ n) (sym glue) short)
                (omega (arith, enough, need-later due_at n x xs z)) in
            rw (z, if◌then◌else◌)
              (
                u,
                run_loop-pass fuel x s ne (exp ∙ z) ∙ r,
                subst (Holds u) (append_assoc pre (x ∷ []) (keep due_at xs)) left,
              )
      ]

-- When the list is `xs`, the functions called leave the timers, and the fuel is at least the square of
-- the list's length + 1, `run_timer_softirq` ends. It has fired exactly the timers whose `expires` is
-- the tick, each once and in the list's order, and the list is then the other timers in their order.
pub run_timer_softirq-Fired :
    (call : ℕ → ℕ → Timers → Timers) (tick : ℕ)
    → ((f d : ℕ) (t : Timers) → call f d t ≡ t)
    → (fuel : ℕ) (s : Timers) (xs : List ℕ) → Holds s xs
    → (length xs + 1) * (length xs + 1) ≤ fuel
    → (u : Timers) × (run_timer_softirq call fuel tick s
        ≡ some (select (λ x. (s.node x).expires == tick) xs, u))
      × Holds u (keep (λ x. (s.node x).expires == tick) xs)
unfolding run_timer_softirq
run_timer_softirq-Fired call tick calm fuel s xs c enough =
    run_loop-Fired call tick calm (λ q. (s.node q).expires) fuel (length xs) s.head s [] xs
      (λ q. refl) none_yet c c (omega arith)
      (omega (arith, enough, need_bound (λ x. (s.node x).expires == tick) (length xs) xs))
