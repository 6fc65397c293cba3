-- ===== src/LineDiscipline.antt =====
-- The input side of kernel/uart.c: the line buffer behind a key, and the magic keys. `uib_lock` is held
-- while the buffer changes. What goes to the device and the wake-up are effects, in their order.
pub mod Edit
mod Tests
use tout_os.Base.{
  ℕ, ◌+◌, ◌-◌, Bool, true, false, ◌&&◌, ◌||◌, List, [], ◌∷◌, ◌++◌, ltb, ◌==◌, if◌then◌else◌, set,
  length, take,
}

-- UART_IN_BUF_LEN
abbrev pub uart_in_buf_len : ℕ
uart_in_buf_len = 256

-- uart_in_buf and uib_index
pub record LineBuffer : Type 0 where
  pub uart_in_buf : List ℕ
  pub uib_index : ℕ

pub data Effect : Type 0 where
  write_char : ℕ → Effect
  wake_readers : Effect

abbrev pub is_erase : ℕ → Bool
is_erase c = (c == 8) || (c == 0x7F)

-- '\r' is read as '\n'.
abbrev pub line_char : ℕ → ℕ
line_char c = if c == 13 then 10 else c

unfoldable pub to_line_discipline : ℕ → LineBuffer → LineBuffer × List Effect
to_line_discipline c s =
    if is_erase c
    then (if ltb 0 s.uib_index
        then (
          record s { uib_index = s.uib_index - 1 },
          write_char 8 ∷ write_char 32 ∷ write_char 8 ∷ [],
        )
        else (s, []))
    else (let d = line_char c in
        let s' =
          if ltb s.uib_index (uart_in_buf_len - 1)
          then record { uart_in_buf = set s.uart_in_buf s.uib_index d; uib_index = s.uib_index + 1 }
          else s in
        (s', (if d == 10 then wake_readers ∷ [] else []) ++ (write_char d ∷ [])))

-- what a magic key prints
pub data Report : Type 0 where
  counters : Report
  tasks : Report

-- `handle_magic_keys` with the static variable `is_in_magic`
unfoldable pub handle_magic_keys : ℕ → Bool → Bool × List Report
handle_magic_keys c is_in_magic = (
  c == 0x19,
  if is_in_magic
      then (if c == 103 then counters ∷ [] else []) ++ (if c == 112 then tasks ∷ [] else [])
      else [],
)
