-- ===== src/Timer/Chain.antt =====
-- The list of timers of kernel/timer.c as a list of addresses, and what linking and unlinking do to it.
use tout_os.Base.{
  ℕ, zero, suc, ◌<◌, ◌≡◌, ◌≢◌, ap, ◌∙◌, sym, subst, inl, inr, Bool, true, false, true≢false, some,
  List, [], ◌∷◌, length, ◌==◌, if◌then◌else◌, arith, Bool-cases,
}
use tout_os.Timer.{TimerNode, Timers, set_next, link_timer, cut_timer, del_loop}

abbrev pub mem : ℕ → List ℕ → Bool
mem q [] = false
mem q (x ∷ xs) = if q == x then true else mem q xs

abbrev pub remove : ℕ → List ℕ → List ℕ
remove p [] = []
remove p (x ∷ xs) = if x == p then xs else x ∷ remove p xs

-- `xs` are the timers from `h` on, with no timer twice
pub data Chain (node : ℕ → TimerNode) : ℕ → List ℕ → Type 0 where
  end : Chain node 0 []
  link :
      {x : ℕ} {xs : List ℕ}
      → x ≢ 0
      → mem x xs ≡ false
      → Chain node (node x).next xs
      → Chain node x (x ∷ xs)

-- the timer before `p` in `xs`, `prev` for the first
abbrev pub before : ℕ → ℕ → List ℕ → ℕ
before p prev [] = prev
before p prev (x ∷ xs) = if x == p then prev else before p x xs

pub mem-other : (q x : ℕ) (xs : List ℕ) → mem q (x ∷ xs) ≡ true → q ≢ x → mem q xs ≡ true
mem-other q x xs m ne =
    let z : (q == x) ≡ false = ground (arith, ne) in
    subst (λ b. (if b then true else mem q xs) ≡ true) z m

pub mem-later : (q x : ℕ) (xs : List ℕ) → mem q xs ≡ true → mem q (x ∷ xs) ≡ true
mem-later q x xs m = elim (Bool-cases (q == x)) [
  | inl y ↦ rw (y, if◌then◌else◌)
  | inr z ↦ rw (z, if◌then◌else◌) m
]

pub mem-first : (x : ℕ) (xs : List ℕ) → mem x (x ∷ xs) ≡ true
mem-first x xs = let y : (x == x) ≡ true = ground arith in rw (y, if◌then◌else◌)

-- a member is not a timer that is none
pub mem-apart : (q x : ℕ) (xs : List ℕ) → mem q xs ≡ true → mem x xs ≡ false → q ≢ x
mem-apart q x xs m f e = true≢false (sym m ∙ subst (λ y. mem y xs ≡ false) (sym e) f)

pub set_next_other :
    (node : ℕ → TimerNode) (p n q : ℕ) → q ≢ p → (set_next node p n q).next ≡ (node q).next
set_next_other node p n q ne =
    let z : (q == p) ≡ false = ground (arith, ne) in rw (z, if◌then◌else◌)

pub set_next_self : (node : ℕ → TimerNode) (p n : ℕ) → (set_next node p n p).next ≡ n
set_next_self node p n = let y : (p == p) ≡ true = ground arith in rw (y, if◌then◌else◌)

-- A change of other timers' links does not change the list.
pub Chain-frame :
    (node node' : ℕ → TimerNode) (h : ℕ) (xs : List ℕ)
    → ((q : ℕ) → mem q xs ≡ true → (node' q).next ≡ (node q).next)
    → Chain node h xs
    → Chain node' h xs
Chain-frame node node' zero [] same end = end
Chain-frame node node' (suc h) [] same c = elim c [ ]
Chain-frame node node' h (x ∷ xs) same (link p f c) = link p f (
    subst (λ n. Chain node' n xs) (sym (same x (mem-first x xs)))
      (Chain-frame node node' ((node x).next) xs (λ q m. same q (mem-later q x xs m)) c))

pub link_timer-Chain :
    (p : ℕ) (s : Timers) (xs : List ℕ)
    → p ≢ 0
    → mem p xs ≡ false
    → Chain s.node s.head xs
    → Chain (link_timer p s).node (link_timer p s).head (p ∷ xs)
unfolding link_timer
link_timer-Chain p s xs ne f c = link ne f (
    subst (λ n. Chain (set_next s.node p s.head) n xs) (sym (set_next_self s.node p s.head))
      (Chain-frame s.node (set_next s.node p s.head) s.head xs
        (λ q m. set_next_other s.node p s.head q (mem-apart q p xs m f)) c))

-- The loop finds the timer and the one before it.
pub del_loop-found :
    (fuel p prev cur : ℕ) (s : Timers) (xs : List ℕ)
    → length xs < fuel
    → mem p xs ≡ true
    → Chain s.node cur xs
    → del_loop fuel p prev cur s ≡ some (cut_timer (before p prev xs) p s)
unfolding del_loop
del_loop-found zero p prev cur s xs lt m c = absurd (omega (arith, lt))
del_loop-found (suc fuel) p prev cur s [] lt m c = absurd (true≢false (sym m))
del_loop-found (suc fuel) p prev cur s (x ∷ xs) lt m (link ne f c) =
    let z : (x == 0) ≡ false = ground (arith, ne) in
    elim (Bool-cases (x == p)) [
      | inl y ↦
          let e : x ≡ p = ground (arith, y) in
          rw (z, y, del_loop) (ap (λ q. some (cut_timer prev q s)) e)
      | inr other ↦
          let far : p ≢ x = ground (arith, other) in
          rw (z, other, del_loop)
            (del_loop-found fuel p x ((s.node x).next) s xs (omega (arith, lt))
              (mem-other p x xs m far) c)
    ]
