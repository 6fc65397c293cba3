-- ===== src/Timer/Unlink.antt =====
-- What the functions of kernel/timer.c that unlink a timer do to the list.
use tout_os.Base.{
  ℕ, zero, suc, ◌+◌, ◌<◌, ◌≡◌, ◌≢◌, refl, ap, ◌∙◌, sym, subst, inl, inr, true, false, true≢false,
  Option, some, List, [], ◌∷◌, length, ◌==◌, if◌then◌else◌, arith, Bool-cases,
}
use tout_os.Timer.{
  TimerNode, Timers, set_next, link_timer, add_timer, cut_timer, del_loop, unlink_timer, del_timer,
}
use tout_os.Timer.Chain.{
  Chain, end, link, mem, remove, before, mem-other, mem-later, mem-first, mem-apart, set_next_other,
  set_next_self, Chain-frame, link_timer-Chain, del_loop-found,
}

-- the store after the cut behind `prev`
abbrev cut_node : (ℕ → TimerNode) → ℕ → ℕ → ℕ → TimerNode
cut_node node prev p = set_next (set_next node prev ((node p).next)) p 0

cut_node-other :
    (node : ℕ → TimerNode) (prev p q : ℕ)
    → q ≢ p
    → q ≢ prev
    → (cut_node node prev p q).next ≡ (node q).next
cut_node-other node prev p q ne ne' =
    set_next_other (set_next node prev ((node p).next)) p 0 q ne
    ∙ set_next_other node prev ((node p).next) q ne'

cut_node-prev :
    (node : ℕ → TimerNode) (prev p : ℕ)
    → prev ≢ p
    → (cut_node node prev p prev).next ≡ (node p).next
cut_node-prev node prev p ne =
    set_next_other (set_next node prev ((node p).next)) p 0 prev ne
    ∙ set_next_self node prev ((node p).next)

mem-before : (p x : ℕ) (xs : List ℕ) → mem p xs ≡ true → mem (before p x xs) (x ∷ xs) ≡ true
mem-before p x [] m = absurd (true≢false (sym m))
mem-before p x (y ∷ ys) m = elim (Bool-cases (y == p)) [
  | inl here ↦
      subst (λ b. mem (if b then x else before p y ys) (x ∷ y ∷ ys) ≡ true) (sym here)
        (mem-first x (y ∷ ys))
  | inr there ↦
      let far : p ≢ y = ground (arith, there) in
      subst (λ b. mem (if b then x else before p y ys) (x ∷ y ∷ ys) ≡ true) (sym there)
        (mem-later (before p y ys) x (y ∷ ys) (mem-before p y ys (mem-other p y ys m far)))
]

mem-remove : (q p : ℕ) (xs : List ℕ) → mem q xs ≡ false → mem q (remove p xs) ≡ false
mem-remove q p [] f = refl
mem-remove q p (x ∷ xs) f = elim (Bool-cases (q == x)) [
  | inl y ↦ absurd (true≢false (subst (λ b. (if b then true else mem q xs) ≡ false) y f))
  | inr z ↦
      let rest : mem q xs ≡ false = subst (λ b. (if b then true else mem q xs) ≡ false) z f in
      elim (Bool-cases (x == p)) [
        | inl here ↦ rw (here, if◌then◌else◌) rest
        | inr there ↦ rw (there, z, if◌then◌else◌) (mem-remove q p xs rest)
      ]
]

pub Chain-parts :
    (node : ℕ → TimerNode) (h y : ℕ) (ys : List ℕ)
    → Chain node h (y ∷ ys)
    → (h ≡ y) × (y ≢ 0) × (mem y ys ≡ false) × Chain node ((node y).next) ys
Chain-parts node h y ys (link ne f c) = (refl, ne, f, c)

Chain-build :
    (node : ℕ → TimerNode) (x : ℕ) (xs : List ℕ) (n : ℕ)
    → x ≢ 0
    → mem x xs ≡ false
    → (node x).next ≡ n
    → Chain node n xs
    → Chain node x (x ∷ xs)
Chain-build node x xs n ne f e c = link ne f (subst (λ k. Chain node k xs) (sym e) c)

pub mem-tail : (q x : ℕ) (xs : List ℕ) → mem q (x ∷ xs) ≡ false → mem q xs ≡ false
mem-tail q x xs f = elim (Bool-cases (mem q xs)) [
  | inl y ↦ absurd (true≢false (sym (mem-later q x xs y) ∙ f))
  | inr z ↦ z
]

-- Behind its first timer the list loses `p`.
cut-Chain :
    (node : ℕ → TimerNode) (p h x : ℕ) (xs : List ℕ)
    → mem p xs ≡ true
    → Chain node h (x ∷ xs)
    → Chain (cut_node node (before p x xs) p) x (x ∷ remove p xs)
cut-Chain node p h x [] m c = absurd (true≢false (sym m))
cut-Chain node p h x (y ∷ ys) m c =
    let (e, ne, f, tail) = Chain-parts node h x (y ∷ ys) c in
    let (e', ne', f', tail') = Chain-parts node ((node x).next) y ys tail in
    let apart : x ≢ p = λ same. mem-apart p x (y ∷ ys) m f (sym same) in
    elim (Bool-cases (y == p)) [
      | inl here ↦
          let at : p ≡ y = ground (arith, here) in
          subst
            (λ b.
              Chain (cut_node node (if b then x else before p y ys) p) x
                (x ∷ (if b then ys else y ∷ remove p ys)))
            (sym here)
            (Chain-build (cut_node node x p) x ys ((node y).next) ne (mem-tail x y ys f)
              (cut_node-prev node x p apart ∙ ap (λ k. (node k).next) at)
              (Chain-frame node (cut_node node x p) ((node y).next) ys
                (λ q in_ys.
                  cut_node-other node x p q
                    (subst (λ k. q ≢ k) (sym at) (mem-apart q y ys in_ys f'))
                    (mem-apart q x ys in_ys (mem-tail x y ys f)))
                tail'))
      | inr there ↦
          let far : p ≢ y = ground (arith, there) in
          let m' = mem-other p y ys m far in
          let b = before p y ys in
          let apart' : x ≢ b = λ same. mem-apart b x (y ∷ ys) (mem-before p y ys m') f (sym same) in
          subst
            (λ b.
              Chain (cut_node node (if b then x else before p y ys) p) x
                (x ∷ (if b then ys else y ∷ remove p ys)))
            (sym there)
            (Chain-build (cut_node node b p) x (y ∷ remove p ys) y ne
              (subst (λ b. mem x (if b then ys else y ∷ remove p ys) ≡ false) there
                (mem-remove x p (y ∷ ys) f))
              (cut_node-other node b p x apart apart' ∙ e')
              (cut-Chain node p ((node x).next) y ys m' tail))
    ]

before-nonzero :
    (node : ℕ → TimerNode) (p h x : ℕ) (xs : List ℕ)
    → mem p xs ≡ true
    → Chain node h (x ∷ xs)
    → before p x xs ≢ 0
before-nonzero node p h x [] m c = absurd (true≢false (sym m))
before-nonzero node p h x (y ∷ ys) m c =
    let (e, ne, f, tail) = Chain-parts node h x (y ∷ ys) c in
    elim (Bool-cases (y == p)) [
      | inl here ↦ subst (λ b. (if b then x else before p y ys) ≢ 0) (sym here) ne
      | inr there ↦
          let far : p ≢ y = ground (arith, there) in
          subst (λ b. (if b then x else before p y ys) ≢ 0) (sym there)
            (before-nonzero node p ((node x).next) y ys (mem-other p y ys m far) tail)
    ]

-- the list that a state holds
abbrev pub Holds : Timers → List ℕ → Type 0
Holds s xs = Chain s.node s.head xs

cut_timer-first :
    (p : ℕ) (s : Timers)
    → s.head ≡ p
    → cut_timer 0 p s ≡ record { node = set_next s.node p 0; head = (s.node p).next }
cut_timer-first p s e = let y : (s.head == p) ≡ true = ground (arith, e) in rw (y, if◌then◌else◌)

cut_timer-later :
    (prev p : ℕ) (s : Timers)
    → prev ≢ 0
    → s.head ≢ p
    → cut_timer prev p s ≡ record { node = cut_node s.node prev p; head = s.head }
cut_timer-later prev p s ne ne' =
    let z : (s.head == p) ≡ false = ground (arith, ne') in
    let z' : (prev == 0) ≡ false = ground (arith, ne) in rw (z, z', if◌then◌else◌)

cut_timer-Holds :
    (p : ℕ) (s : Timers) (xs : List ℕ)
    → mem p xs ≡ true
    → Holds s xs
    → Holds (cut_timer (before p 0 xs) p s) (remove p xs)
cut_timer-Holds p s [] m c = absurd (true≢false (sym m))
cut_timer-Holds p s (x ∷ xs) m c =
    let (e, ne, f, tail) = Chain-parts s.node s.head x xs c in
    elim (Bool-cases (x == p)) [
      | inl here ↦
          let at : p ≡ x = ground (arith, here) in
          subst
            (λ b.
              Holds (cut_timer (if b then 0 else before p x xs) p s)
                (if b then xs else x ∷ remove p xs))
            (sym here)
            (subst (λ t. Holds t xs) (sym (cut_timer-first p s (e ∙ sym at)))
              (Chain-frame s.node (set_next s.node p 0) ((s.node p).next) xs
                (λ q in_xs.
                  set_next_other s.node p 0 q
                    (subst (λ k. q ≢ k) (sym at) (mem-apart q x xs in_xs f)))
                (subst (λ k. Chain s.node ((s.node k).next) xs) (sym at) tail)))
      | inr there ↦
          let far : p ≢ x = ground (arith, there) in
          let m' = mem-other p x xs m far in
          subst
            (λ b.
              Holds (cut_timer (if b then 0 else before p x xs) p s)
                (if b then xs else x ∷ remove p xs))
            (sym there)
            (subst (λ t. Holds t (x ∷ remove p xs))
              (sym (
                cut_timer-later (before p x xs) p s (before-nonzero s.node p s.head x xs m' c)
                  (λ same. far (sym same ∙ e))))
              (subst (λ k. Chain (cut_node s.node (before p x xs) p) k (x ∷ remove p xs)) (sym e)
                (cut-Chain s.node p s.head x xs m' c)))
    ]

del_loop-absent :
    (fuel p prev cur : ℕ) (s : Timers) (xs : List ℕ)
    → length xs < fuel
    → mem p xs ≡ false
    → Chain s.node cur xs
    → del_loop fuel p prev cur s ≡ some s
unfolding del_loop
del_loop-absent zero p prev cur s xs lt m c = absurd (omega (arith, lt))
del_loop-absent (suc fuel) p prev zero s [] lt m end = refl
del_loop-absent (suc fuel) p prev (suc cur) s [] lt m c = elim c [ ]
del_loop-absent (suc fuel) p prev cur s (x ∷ xs) lt m (link ne f c) =
    let z : (x == 0) ≡ false = ground (arith, ne) in
    elim (Bool-cases (x == p)) [
      | inl y ↦
          let e : x ≡ p = ground (arith, y) in
          absurd (true≢false (sym (mem-first x xs) ∙ subst (λ k. mem k (x ∷ xs) ≡ false) (sym e) m))
      | inr other ↦
          rw (z, other, del_loop)
            (del_loop-absent fuel p x ((s.node x).next) s xs (omega (arith, lt)) (mem-tail p x xs m)
              c)
    ]

-- what a call of `del_timer` on `p` gives for the list `xs`
abbrev pub Unlinked : ℕ → Timers → List ℕ → Option Timers → Type 0
Unlinked p s xs r =
    (t : Timers) × (r ≡ some t)
    × Holds t (remove p xs)
    × (mem p xs ≡ true → (t.node p).next ≡ 0)
    × (mem p xs ≡ false → t ≡ s)

remove-absent : (p : ℕ) (xs : List ℕ) → mem p xs ≡ false → remove p xs ≡ xs
remove-absent p [] f = refl
remove-absent p (x ∷ xs) f = elim (Bool-cases (x == p)) [
  | inl y ↦
      let e : x ≡ p = ground (arith, y) in
      absurd (true≢false (sym (mem-first x xs) ∙ subst (λ k. mem k (x ∷ xs) ≡ false) (sym e) f))
  | inr z ↦ rw (z, if◌then◌else◌) (ap (λ ys. x ∷ ys) (remove-absent p xs (mem-tail p x xs f)))
]

pub unlink_timer-Unlinked :
    (fuel p : ℕ) (s : Timers) (xs : List ℕ)
    → length xs < fuel
    → Holds s xs
    → Unlinked p s xs (unlink_timer fuel p s)
unfolding unlink_timer
unlink_timer-Unlinked fuel p s xs lt c = elim (Bool-cases (mem p xs)) [
  | inl m ↦
      let prev = before p 0 xs in
      (
        cut_timer prev p s,
        del_loop-found fuel p 0 s.head s xs lt m c,
        cut_timer-Holds p s xs m c,
        (λ y.
            set_next_self (if prev == 0 then s.node else set_next s.node prev ((s.node p).next)) p
              0),
        (λ z. absurd (true≢false (sym m ∙ z))),
      )
  | inr m ↦ (
    s,
    del_loop-absent fuel p 0 s.head s xs lt m c,
    subst (Holds s) (sym (remove-absent p xs m)) c,
    (λ y. absurd (true≢false (sym y ∙ m))),
    (λ z. refl),
  )
]

-- When the list is `xs` and the fuel is above its length, `del_timer` of an address that is not NULL
-- ends. The list is then `xs` without the address, its `next` is NULL when it was in the list, and the
-- state is the same when it was not.
pub del_timer-Unlinked :
    (fuel p : ℕ) (s : Timers) (xs : List ℕ)
    → length xs < fuel
    → p ≢ 0
    → Holds s xs
    → Unlinked p s xs (del_timer fuel p s)
unfolding del_timer
del_timer-Unlinked fuel p s xs lt ne c =
    let z : (p == 0) ≡ false = ground (arith, ne) in
    rw (z, if◌then◌else◌) (unlink_timer-Unlinked fuel p s xs lt c)

-- When the list is `xs`, `add_timer` of an address that is neither NULL nor in it puts the address in
-- front. With the fuel above the length of `xs`, a `del_timer` of it then ends with the list `xs`.
pub del_timer-add_timer :
    (fuel p : ℕ) (s : Timers) (xs : List ℕ)
    → length xs + 1 < fuel
    → p ≢ 0
    → mem p xs ≡ false
    → Holds s xs
    → Holds (add_timer p s) (p ∷ xs)
      × ((t : Timers) × (del_timer fuel p (add_timer p s) ≡ some t) × Holds t xs)
unfolding add_timer
del_timer-add_timer fuel p s xs lt ne f c =
    let z : (p == 0) ≡ false = ground (arith, ne) in
    let added : add_timer p s ≡ link_timer p s = rw (z, add_timer, if◌then◌else◌) refl in
    let held = subst (λ t. Holds t (p ∷ xs)) (sym added) (link_timer-Chain p s xs ne f c) in
    let (t, e, rest, u, v) =
      del_timer-Unlinked fuel p (add_timer p s) (p ∷ xs) (omega (arith, lt)) ne held in
    let same : (p == p) ≡ true = ground arith in
    (held, (t, e, subst (λ b. Holds t (if b then xs else p ∷ remove p xs)) same rest))
