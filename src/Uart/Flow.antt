-- ===== src/Uart/Flow.antt =====
-- The way of a message through the kernel log to the serial line: kernel/uart.c over lib/circular_buffer.c.
use tout_os.Base.{
  ℕ, ◌-◌, ◌≡◌, refl, ap, ◌∙◌, sym, subst, inl, inr, Bool, true, Option, none, some, List, [], ◌∷◌,
  ◌++◌, length, take, drop, take-append-drop, ltb, min, if◌then◌else◌, ℤ, pos, negsuc, append-nil,
  append_assoc, Bool-cases, ◌%◌,
}
use tout_os.CircularBuffer.{
  Outcome, returns, ◌>>=◌, ConcurrentCbuf, read_locked, write_locked, CircularBuffer,
}
use tout_os.CircularBuffer.Refine.{IsValid, contents, write_refines, read_refines}
use tout_os.LineDiscipline.{Report, handle_magic_keys}
use tout_os.Uart.{Uart, start_uart_tx, messages_of, handle_uart_irq}

-- what happens to the serial line: a message is printed, the transmitter is started, or an interrupt comes
pub data Event : Type 0 where
  message : List ℕ → Event
  start : Event
  interrupt : (Report → List (List ℕ)) → Option ℕ → Bool → Event

module _ (len : ℕ) where
  -- the characters of the log that are written to the device, and the state
  unfoldable pub step : Event → Uart → Outcome (List ℕ × Uart)
  step (message m) u = do
    (ret, log) ← write_locked u.kernel_log m
    returns ([], record u { kernel_log = log })
  step start u = start_uart_tx u
  step (interrupt texts key tx) u = do
    (effects, sent, u') ← handle_uart_irq texts len key tx u
    returns (sent, u')

  unfoldable pub run : List Event → Uart → Outcome (List ℕ × Uart)
  run [] u = returns ([], u)
  run (e ∷ es) u = do (sent, u1) ← step e u; (sent', u2) ← run es u1; returns (sent ++ sent', u2)

-- the messages that an event prints, and `is_in_magic` behind it
abbrev pub said : Event → Bool → List (List ℕ) × Bool
said (message m) is_in_magic = (m ∷ [], is_in_magic)
said start is_in_magic = ([], is_in_magic)
said (interrupt texts none tx) is_in_magic = ([], is_in_magic)
said (interrupt texts (some dr) tx) is_in_magic =
    let (next, reports) = handle_magic_keys (dr % 256) is_in_magic in
    (messages_of texts reports, next)

abbrev pub all_said : List Event → Bool → List (List ℕ)
all_said [] is_in_magic = []
all_said (e ∷ es) is_in_magic = let (ms, next) = said e is_in_magic in ms ++ all_said es next

-- Of the messages some are kept, whole and in their order; when one is lost the flag is set.
pub data Accepted : List (List ℕ) → Bool → List ℕ → Bool → Type 0 where
  no_more : {lost : Bool} → Accepted [] lost [] lost
  taken_whole :
      {m : List ℕ} {ms : List (List ℕ)} {lost lost' : Bool} {bytes : List ℕ}
      → Accepted ms lost bytes lost'
      → Accepted (m ∷ ms) lost (m ++ bytes) lost'
  lost_whole :
      {m : List ℕ} {ms : List (List ℕ)} {lost lost' : Bool} {bytes : List ℕ}
      → Accepted ms true bytes lost'
      → Accepted (m ∷ ms) lost bytes lost'

Accepted-append :
    {ms ns : List (List ℕ)} {a b c : Bool} {bs cs : List ℕ}
    → Accepted ms a bs b
    → Accepted ns b cs c
    → Accepted (ms ++ ns) a (bs ++ cs) c
Accepted-append no_more q = q
Accepted-append {ns = ns} {a} {b} {c} {bs} {cs} (taken_whole {m} {ms} {bytes = bytes} p) q =
    subst (λ (l : List ℕ). Accepted (m ∷ (ms ++ ns)) a l c) (sym (append_assoc m bytes cs))
      (taken_whole (Accepted-append p q))
Accepted-append (lost_whole p) q = lost_whole (Accepted-append p q)

-- From `log` to `log'` the bytes `sent` went out, and what is in the log came from the messages.
pub record Flowed (log : ConcurrentCbuf) (ms : List (List ℕ)) (sent : List ℕ)
    (log' : ConcurrentCbuf) : Type 0 where
  pub valid : IsValid log'.cbuf
  pub bytes : List ℕ
  pub accepted : Accepted ms log.write_overflow bytes log'.write_overflow
  pub order : contents log.cbuf ++ bytes ≡ sent ++ contents log'.cbuf

pub Flowed-then :
    {log log' log'' : ConcurrentCbuf} {ms ns : List (List ℕ)} {s t : List ℕ}
    → Flowed log ms s log'
    → Flowed log' ns t log''
    → Flowed log (ms ++ ns) (s ++ t) log''
Flowed-then {log} {log'} {log''} {ms} {ns} {s} {t} f g = record {
  valid = g.valid;
  bytes = f.bytes ++ g.bytes;
  accepted = Accepted-append f.accepted g.accepted;
  order =
      sym (append_assoc (contents log.cbuf) f.bytes g.bytes)
      ∙ ap (λ (l : List ℕ). l ++ g.bytes) f.order
      ∙ append_assoc s (contents log'.cbuf) g.bytes
      ∙ ap (λ (l : List ℕ). s ++ l) g.order
      ∙ sym (append_assoc s t (contents log''.cbuf));
}

pub Flowed-stay : (log : ConcurrentCbuf) → IsValid log.cbuf → Flowed log [] [] log
Flowed-stay log v = record { valid = v; bytes = []; accepted = no_more; order = append-nil _ }

-- reading, as the log sees it
pub read_locked-queue :
    (log : ConcurrentCbuf) (n : ℕ)
    → IsValid log.cbuf
    → (cbuf : CircularBuffer) × (read_locked log n
        ≡ returns (
          pos (min n (length (contents log.cbuf))),
          take n (contents log.cbuf),
          record log { cbuf = cbuf },
        ))
      × (contents cbuf ≡ drop n (contents log.cbuf))
      × Flowed log [] (take n (contents log.cbuf)) (record log { cbuf = cbuf })
unfolding read_locked
read_locked-queue log n v =
    let (cbuf, e, left, valid, same) = read_refines log.cbuf n v in
    (
      cbuf,
      rw (e) refl,
      left,
      record {
        valid = valid;
        bytes = [];
        accepted = no_more;
        order =
            append-nil _
            ∙ sym (take-append-drop n (contents log.cbuf))
            ∙ ap (λ (l : List ℕ). take n (contents log.cbuf) ++ l) (sym left);
      },
    )

pub write_locked-Flowed :
    (log : ConcurrentCbuf) (m : List ℕ)
    → IsValid log.cbuf
    → (ret : ℤ) × (log' : ConcurrentCbuf) × (write_locked log m ≡ returns (ret, log'))
      × Flowed log (m ∷ []) [] log'
unfolding write_locked
write_locked-Flowed log m v =
    let q = contents log.cbuf in
    let room = log.cbuf.size - 1 - length q in
    let (cbuf, e, left, valid, same) = write_refines log.cbuf m v in
    elim (Bool-cases (ltb room (length m))) [
      | inl full ↦ (
        negsuc 0,
        record { cbuf = cbuf; write_overflow = true },
        rw (e, full, if◌then◌else◌) refl,
        record {
          valid = valid;
          bytes = [];
          accepted = lost_whole no_more;
          order = append-nil _ ∙ sym (left ∙ rw (full, if◌then◌else◌) refl);
        },
      )
      | inr fits ↦ (
        pos 0,
        record log { cbuf = cbuf },
        rw (e, fits, if◌then◌else◌) refl,
        record {
          valid = valid;
          bytes = m ++ [];
          accepted = taken_whole no_more;
          order =
              ap (λ (l : List ℕ). q ++ l) (append-nil m)
              ∙ sym (left ∙ rw (fits, if◌then◌else◌) refl);
        },
      )
    ]
