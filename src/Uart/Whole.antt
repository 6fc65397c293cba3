-- ===== src/Uart/Whole.antt =====
-- No character of a message is lost between printk and the serial line, kernel/uart.c.
use tout_os.Base.{
  ℕ, zero, suc, ◌≡◌, refl, ◌∙◌, subst, inl, inr, Bool, true, false, Option, none, some, List, [],
  ◌∷◌, ◌++◌, length, take, ltb, ◌==◌, min, if◌then◌else◌, append-nil, arith, Bool-cases, ◌%◌,
}
use tout_os.CircularBuffer.{Outcome, returns, ConcurrentCbuf}
use tout_os.CircularBuffer.Refine.{IsValid, contents}
use tout_os.LineDiscipline.{Report, handle_magic_keys, to_line_discipline}
use tout_os.Uart.{
  Uart, start_uart_tx, write_messages, messages_of, receive, transmit, handle_uart_irq,
}
use tout_os.Uart.Flow.{
  Event, message, start, interrupt, step, run, said, all_said, Flowed, Flowed-then, Flowed-stay,
  read_locked-queue, write_locked-Flowed,
}

-- nothing is read when no character is there
nothing_read : (n : ℕ) (q : List ℕ) → min n (length q) ≡ 0 → take n q ≡ []
nothing_read zero q e = refl
nothing_read (suc n) [] e = refl
nothing_read (suc n) (c ∷ q) e = absurd (omega (arith, e))

-- The characters that are written, the state, and that the log flowed into them.
abbrev pub Sends : Uart → List (List ℕ) → Bool → Outcome (List ℕ × Uart) → Type 0
Sends u ms next r =
    (sent : List ℕ) × (u' : Uart) × (r ≡ returns (sent, u'))
    × (u'.is_in_magic ≡ next)
    × Flowed u.kernel_log ms sent u'.kernel_log

start_uart_tx-Sends :
    (u : Uart) → IsValid u.kernel_log.cbuf → Sends u [] u.is_in_magic (start_uart_tx u)
unfolding start_uart_tx
start_uart_tx-Sends u v =
    let q = contents u.kernel_log.cbuf in
    elim (Bool-cases u.uart_busy) [
      | inl y ↦ ([], u, rw (y, if◌then◌else◌) refl, refl, Flowed-stay u.kernel_log v)
      | inr z ↦
          let (cbuf, e, left, f) = read_locked-queue u.kernel_log 1 v in
          let log : ConcurrentCbuf = record u.kernel_log { cbuf = cbuf } in
          elim (Bool-cases (min 1 (length q) == 1)) [
            | inl y ↦ (
              take 1 q,
              record u { kernel_log = log; uart_busy = true },
              rw (z, e, y, if◌then◌else◌) refl,
              refl,
              f,
            )
            | inr n ↦
                let nothing : take 1 q ≡ [] = nothing_read 1 q (ground (arith, n)) in
                (
                  [],
                  record u { kernel_log = log },
                  rw (z, e, n, if◌then◌else◌) refl,
                  refl,
                  subst (λ (s : List ℕ). Flowed u.kernel_log [] s log) nothing f,
                )
          ]
    ]

write_messages-Flowed :
    (ms : List (List ℕ)) (log : ConcurrentCbuf)
    → IsValid log.cbuf
    → (log' : ConcurrentCbuf) × (write_messages ms log ≡ returns log') × Flowed log ms [] log'
unfolding write_messages
write_messages-Flowed [] log v = (log, refl, Flowed-stay log v)
write_messages-Flowed (m ∷ ms) log v =
    let (ret, log1, e, f) = write_locked-Flowed log m v in
    let (log2, e', g) = write_messages-Flowed ms log1 f.valid in (log2, rw (e) e', Flowed-then f g)

receive-Flowed :
    (texts : Report → List (List ℕ)) (key : Option ℕ) (tx : Bool) (u : Uart)
    → IsValid u.kernel_log.cbuf
    → (effects : List _) × (u' : Uart) × (receive texts key u ≡ returns (effects, u'))
      × (u'.is_in_magic ≡ (said (interrupt texts key tx) u.is_in_magic).1)
      × Flowed u.kernel_log (said (interrupt texts key tx) u.is_in_magic).0 [] u'.kernel_log
unfolding receive
receive-Flowed texts none tx u v = ([], u, refl, refl, Flowed-stay u.kernel_log v)
receive-Flowed texts (some dr) tx u v =
    let c = dr % 256 in
    let (log', e, f) =
      write_messages-Flowed (messages_of texts (handle_magic_keys c u.is_in_magic).1) u.kernel_log
        v in
    (
      (to_line_discipline c u.line).1,
      record u {
        is_in_magic = (handle_magic_keys c u.is_in_magic).0;
        line = (to_line_discipline c u.line).0;
        kernel_log = log';
      },
      rw (e) refl,
      refl,
      f,
    )

pub transmit-Sends :
    (len : ℕ) (tx : Bool) (u : Uart)
    → IsValid u.kernel_log.cbuf
    → Sends u [] u.is_in_magic (transmit len tx u)
unfolding transmit
transmit-Sends len false u v = ([], u, refl, refl, Flowed-stay u.kernel_log v)
transmit-Sends len true u v =
    let q = contents u.kernel_log.cbuf in
    let (cbuf, e, left, f) = read_locked-queue u.kernel_log len v in
    let log : ConcurrentCbuf = record u.kernel_log { cbuf = cbuf } in
    elim (Bool-cases (ltb 0 (min len (length q)))) [
      | inl y ↦ (take len q, record u { kernel_log = log }, rw (e, y, if◌then◌else◌) refl, refl, f)
      | inr n ↦
          let nothing : take len q ≡ [] = nothing_read len q (ground (arith, n)) in
          (
            [],
            record u { kernel_log = log; uart_busy = false },
            rw (e, n, if◌then◌else◌) refl,
            refl,
            subst (λ (s : List ℕ). Flowed u.kernel_log [] s log) nothing f,
          )
    ]

step-Sends :
    (len : ℕ) (e : Event) (u : Uart)
    → IsValid u.kernel_log.cbuf
    → Sends u (said e u.is_in_magic).0 (said e u.is_in_magic).1 (step len e u)
unfolding step handle_uart_irq
step-Sends len (message m) u v =
    let (ret, log, e, f) = write_locked-Flowed u.kernel_log m v in
    ([], record u { kernel_log = log }, rw (e) refl, refl, f)
step-Sends len start u v = start_uart_tx-Sends u v
step-Sends len (interrupt texts key tx) u v =
    let (effects, u1, e, magic, f) = receive-Flowed texts key tx u v in
    let (sent, u2, e', magic', g) = transmit-Sends len tx u1 f.valid in
    let ms = (said (interrupt texts key tx) u.is_in_magic).0 in
    (
      sent,
      u2,
      rw (e, e') refl,
      magic' ∙ magic,
      subst (λ (l : List (List ℕ)). Flowed u.kernel_log l sent u2.kernel_log) (append-nil ms)
          (Flowed-then f g),
    )

-- However printk, start_uart_tx and the interrupts of the serial line follow each other on a valid log, they
-- return. What was in the log and the messages that were accepted, each as a whole and in their order, are
-- what was sent and what is in the log then; a message is lost only as a whole, with `write_overflow` set.
pub run-Flowed :
    (len : ℕ) (es : List Event) (u : Uart)
    → IsValid u.kernel_log.cbuf
    → (sent : List ℕ) × (u' : Uart) × (run len es u ≡ returns (sent, u'))
      × Flowed u.kernel_log (all_said es u.is_in_magic) sent u'.kernel_log
unfolding run
run-Flowed len [] u v = ([], u, refl, Flowed-stay u.kernel_log v)
run-Flowed len (e ∷ es) u v =
    let (sent, u1, ran, magic, f) = step-Sends len e u v in
    let (sent', u2, ran', g) = run-Flowed len es u1 f.valid in
    let here = (said e u.is_in_magic).0 in
    (
      sent ++ sent',
      u2,
      rw (ran, ran') refl,
      subst
          (λ (b : Bool). Flowed u.kernel_log (here ++ all_said es b) (sent ++ sent') u2.kernel_log)
          magic (Flowed-then f g),
    )
