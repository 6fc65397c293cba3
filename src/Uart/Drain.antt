-- ===== src/Uart/Drain.antt =====
-- The transmit interrupts of kernel/uart.c empty the kernel log.
use tout_os.Base.{
  ℕ, zero, suc, ◌+◌, ◌-◌, ◌*◌, ◌≡◌, ◌≤◌, ◌<◌, refl, ap, ◌∙◌, sym, inl, inr, ◌⊎◌, true, false, none,
  List, [], ◌∷◌, ◌++◌, length, length-drop, take, drop, take-append-drop, ltb, min, if◌then◌else◌,
  arith, Bool-cases,
}
use tout_os.CircularBuffer.{returns, ConcurrentCbuf}
use tout_os.CircularBuffer.Refine.{IsValid, contents}
use tout_os.Uart.{Uart, receive, transmit, handle_uart_irq}
use tout_os.Uart.Flow.{Event, interrupt, step, run, read_locked-queue}

-- `n` interrupts of the transmitter
abbrev pub transmits : ℕ → List Event
transmits zero = []
transmits (suc n) = interrupt (λ r. []) none true ∷ transmits n

abbrev no_bytes : List ℕ
no_bytes = []

-- the bytes that wait in the log
abbrev pub waiting : Uart → List ℕ
waiting u = contents u.kernel_log.cbuf

empty-list : (q : List ℕ) → length q ≡ 0 → q ≡ []
empty-list [] e = refl
empty-list (c ∷ q) e = absurd (omega (arith, e))

take-empty : (n : ℕ) → take n no_bytes ≡ []
take-empty zero = refl
take-empty (suc n) = refl

drop-empty : (n : ℕ) → drop n no_bytes ≡ []
drop-empty zero = refl
drop-empty (suc n) = refl

take-nothing : (n : ℕ) (q : List ℕ) → length q ≡ 0 → take n q ≡ []
take-nothing n q e = ap (λ (l : List ℕ). take n l) (empty-list q e) ∙ take-empty n

-- One interrupt sends up to `len` bytes, or the transmitter goes idle.
step-transmit :
    (len : ℕ) (u : Uart)
    → 0 < len
    → IsValid u.kernel_log.cbuf
    → (u' : Uart) × (step len (interrupt (λ r. []) none true) u
        ≡ returns (take len (waiting u), u'))
      × (waiting u' ≡ drop len (waiting u))
      × IsValid u'.kernel_log.cbuf
      × ((0 < length (waiting u)) ⊎ (u'.uart_busy ≡ false))
unfolding step handle_uart_irq receive transmit
step-transmit len u some_len v =
    let q = waiting u in
    let (cbuf, e, left, f) = read_locked-queue u.kernel_log len v in
    let log : ConcurrentCbuf = record u.kernel_log { cbuf = cbuf } in
    elim (Bool-cases (ltb 0 (min len (length q)))) [
      | inl y ↦ (
        record u { kernel_log = log },
        rw (e, y, if◌then◌else◌) refl,
        left,
        f.valid,
        inl (ground (arith, y)),
      )
      | inr n ↦
          let nothing : length q ≡ 0 = ground (arith, n, some_len) in
          let idle : Uart = record u { kernel_log = log; uart_busy = false } in
          (
            idle,
            rw (e, n, if◌then◌else◌)
                (ap (λ (l : List ℕ). returns (l, idle)) (sym (take-nothing len q nothing))),
            left,
            f.valid,
            inr refl,
          )
    ]

not-empty : (q : List ℕ) → q ≡ [] → 0 < length q → ⊥
not-empty q e lt = let size = ap (λ (l : List ℕ). length l) e in omega (arith, size, lt)

-- what is left takes one interrupt less
enough-left : (len n a b : ℕ) → a + len ≤ suc n * len → 0 < a → b ≡ a - len → b + len ≤ n * len
enough-left len zero a b enough some_wait left = absurd (omega (arith, enough, some_wait))
enough-left len (suc n) a b enough some_wait left =
    let one : suc (suc n) * len ≡ len + (len + n * len) = omega arith in
    omega (arith, enough, left, one)

-- Without a byte in the log an idle transmitter stays idle.
run-idle :
    (len n : ℕ) (u : Uart)
    → 0 < len
    → IsValid u.kernel_log.cbuf
    → waiting u ≡ []
    → u.uart_busy ≡ false
    → (u' : Uart) × (run len (transmits n) u ≡ returns ([], u'))
      × (waiting u' ≡ [])
      × (u'.uart_busy ≡ false)
unfolding run
run-idle len zero u some_len v nothing idle = (u, refl, nothing, idle)
run-idle len (suc n) u some_len v nothing idle =
    let (u1, e, left, v1, which) = step-transmit len u some_len v in
    let nothing1 : waiting u1 ≡ [] =
      left ∙ ap (λ (l : List ℕ). drop len l) nothing ∙ drop-empty len in
    let nothing_sent : take len (waiting u) ≡ [] =
      ap (λ (l : List ℕ). take len l) nothing ∙ take-empty len in
    let idle1 : u1.uart_busy ≡ false = elim which [
      | inl some_wait ↦ absurd (not-empty (waiting u) nothing some_wait)
      | inr same ↦ same
    ] in
    let (u2, e2, nothing2, idle2) = run-idle len n u1 some_len v1 nothing1 idle1 in
    (u2, rw (e, e2, nothing_sent) refl, nothing2, idle2)

-- Enough interrupts of the transmitter send all that is in a valid log, in its order, and then the
-- transmitter is idle: as many as `len` bytes each take, and one more.
pub run-drains :
    (len n : ℕ) (u : Uart)
    → 0 < len
    → IsValid u.kernel_log.cbuf
    → length (waiting u) + len ≤ n * len
    → (u' : Uart) × (run len (transmits n) u ≡ returns (waiting u, u'))
      × (waiting u' ≡ [])
      × (u'.uart_busy ≡ false)
unfolding run
run-drains len zero u some_len v enough = absurd (omega (arith, some_len, enough))
run-drains len (suc n) u some_len v enough =
    let q = waiting u in
    let (u1, e, left, v1, which) = step-transmit len u some_len v in
    elim (Bool-cases (ltb 0 (length q))) [
      | inl y ↦
          let size : length (waiting u1) ≡ length q - len = ap length left ∙ length-drop len q in
          let (u2, e2, nothing2, idle2) =
            run-drains len n u1 some_len v1 (
              enough-left len n (length q) (length (waiting u1)) enough (ground (arith, y)) size) in
          (
            u2,
            rw (e, e2)
                (ap (λ (l : List ℕ). returns (l, u2))
                  (ap (λ (l : List ℕ). take len q ++ l) left ∙ take-append-drop len q)),
            nothing2,
            idle2,
          )
      | inr none_wait ↦
          let nothing = empty-list q (ground (arith, none_wait)) in
          let nothing1 : waiting u1 ≡ [] =
            left ∙ ap (λ (l : List ℕ). drop len l) nothing ∙ drop-empty len in
          let nothing_sent : take len q ≡ [] =
            ap (λ (l : List ℕ). take len l) nothing ∙ take-empty len in
          let idle1 : u1.uart_busy ≡ false = elim which [
            | inl some_wait ↦ absurd (not-empty q nothing some_wait)
            | inr same ↦ same
          ] in
          let (u2, e2, nothing2, idle2) = run-idle len n u1 some_len v1 nothing1 idle1 in
          (
            u2,
            rw (e, e2, nothing_sent) (ap (λ (l : List ℕ). returns (l, u2)) (sym nothing)),
            nothing2,
            idle2,
          )
    ]
