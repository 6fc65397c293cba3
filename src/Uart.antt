-- ===== src/Uart.antt =====
-- The serial line of kernel/uart.c: the characters of the kernel log go out through it, and the keys come in.
-- The data register is a list of the characters written to it, the masked interrupt status and a character
-- received are arguments.
pub mod Flow
pub mod Whole
pub mod Drain
mod Tests
use tout_os.Base.{
  ℕ, ◌*◌, ◌/◌, ◌%◌, Bool, true, false, ◌&&◌, Option, none, some, List, [], ◌∷◌, ◌++◌, ltb, ◌==◌,
  if◌then◌else◌, ℤ, pos, negsuc,
}
use tout_os.CircularBuffer.{Outcome, returns, ◌>>=◌, ConcurrentCbuf, read_locked, write_locked}
use tout_os.LineDiscipline.{LineBuffer, Effect, Report, to_line_discipline, handle_magic_keys}

-- uart_busy, the kernel log, the line buffer and is_in_magic
pub record Uart : Type 0 where
  pub uart_busy : Bool
  pub kernel_log : ConcurrentCbuf
  pub line : LineBuffer
  pub is_in_magic : Bool

-- `init_uart`: uart_fifo_size and uart_tx_fifo_one_write_len
abbrev pub uart_fifo_size : ℕ → ℕ
uart_fifo_size uart_periph_id2 = if ltb (uart_periph_id2 % 256 / 16) 3 then 16 else 32

abbrev pub uart_tx_fifo_one_write_len : ℕ → ℕ
uart_tx_fifo_one_write_len uart_periph_id2 = uart_fifo_size uart_periph_id2 * 7 / 8

abbrev pub is_one : ℤ → Bool
is_one (pos n) = n == 1
is_one (negsuc n) = false

abbrev pub is_positive : ℤ → Bool
is_positive (pos n) = ltb 0 n
is_positive (negsuc n) = false

-- the characters written to the device, and the state
unfoldable pub start_uart_tx : Uart → Outcome (List ℕ × Uart)
start_uart_tx u = if u.uart_busy then returns ([], u) else do
  (ret, cs, log) ← read_locked u.kernel_log 1
  returns (
      if is_one ret
      then (cs, record u { kernel_log = log; uart_busy = true })
      else ([], record u { kernel_log = log }))

-- the messages that are printed, one printk each
unfoldable pub write_messages : List (List ℕ) → ConcurrentCbuf → Outcome ConcurrentCbuf
write_messages [] log = returns log
write_messages (m ∷ ms) log = do (ret, log') ← write_locked log m; write_messages ms log'

-- the messages of the reports; `texts` is what each report prints at that time
abbrev pub messages_of : (Report → List (List ℕ)) → List Report → List (List ℕ)
messages_of texts [] = []
messages_of texts (r ∷ rs) = texts r ++ messages_of texts rs

-- The receive interrupt, with the value of the data register; `none` when it is not pending.
unfoldable pub receive : (Report → List (List ℕ)) → Option ℕ → Uart → Outcome (List Effect × Uart)
receive texts none u = returns ([], u)
receive texts (some dr) u =
    let c = dr % 256 in
    let (is_in_magic, reports) = handle_magic_keys c u.is_in_magic in
    let (line, effects) = to_line_discipline c u.line in
    do
      log ← write_messages (messages_of texts reports) u.kernel_log
      returns (effects, record u { is_in_magic = is_in_magic; line = line; kernel_log = log })

-- The transmit interrupt: `read_buf` is written to the device, or the transmitter goes idle.
unfoldable pub transmit : ℕ → Bool → Uart → Outcome (List ℕ × Uart)
transmit len false u = returns ([], u)
transmit len true u = do
  (ret, cs, log) ← read_locked u.kernel_log len
  returns (
      if is_positive ret
      then (cs, record u { kernel_log = log })
      else ([], record u { kernel_log = log; uart_busy = false }))

-- What the key leads to, then the characters of the log that are written.
unfoldable pub handle_uart_irq :
    (Report → List (List ℕ)) → ℕ → Option ℕ → Bool → Uart → Outcome (List Effect × List ℕ × Uart)
handle_uart_irq texts len key tx u = do
  (effects, u1) ← receive texts key u
  (sent, u2) ← transmit len tx u1
  returns (effects, sent, u2)
