-- ===== src/Uart/Tests.antt =====
-- A message on its way to the serial line.
use tout_os.Base.{ℕ, ◌≡◌, refl, true, false, none, some, List, [], ◌∷◌, arith}
use tout_os.CircularBuffer.{store_len, returns}
use tout_os.CircularBuffer.Refine.{IsValid}
use tout_os.Uart.{Uart, uart_tx_fifo_one_write_len}
use tout_os.Uart.Flow.{Event, message, start, interrupt, run, all_said, Flowed}
use tout_os.Uart.Whole.{run-Flowed}
use tout_os.Uart.Drain.{transmits, waiting, run-drains}

-- "ab" waits in a log of five bytes
abbrev two_wait : Uart
two_wait = record {
  uart_busy = true;
  kernel_log = record {
    cbuf = record { buffer = 98 ∷ 0 ∷ 0 ∷ 0 ∷ 97 ∷ []; size = 5; rp = 4; wp = 1 };
    write_overflow = false;
  };
  line = record { uart_in_buf = []; uib_index = 0 };
  is_in_magic = true;
}

two_wait-IsValid : IsValid two_wait.kernel_log.cbuf
two_wait-IsValid = record {
  storage = omega arith;
  small = omega arith;
  rp_in = omega arith;
  wp_in = omega arith;
}

-- The key g in a magic sequence reports, and the second message has no room.
abbrev events : List Event
events =
    interrupt (λ r. (103 ∷ []) ∷ []) (some 103) false
    ∷ message (120 ∷ 121 ∷ [])
    ∷ interrupt (λ r. []) none true
    ∷ start
    ∷ []

run-Flowed_example :
    (sent : List ℕ) × (u' : Uart) × (run 14 events two_wait ≡ returns (sent, u'))
    × Flowed two_wait.kernel_log (all_said events true) sent u'.kernel_log
run-Flowed_example = run-Flowed 14 events two_wait two_wait-IsValid

run-drains_example :
    (u' : Uart) × (run 14 (transmits 2) two_wait ≡ returns (waiting two_wait, u'))
    × (waiting u' ≡ [])
    × (u'.uart_busy ≡ false)
unfolding store_len
run-drains_example = run-drains 14 2 two_wait (omega arith) two_wait-IsValid (omega arith)

-- the two sizes of the fifo
small_fifo : uart_tx_fifo_one_write_len 0x20 ≡ 14
small_fifo = refl

large_fifo : uart_tx_fifo_one_write_len 0x34 ≡ 28
large_fifo = refl
