-- ===== src/LineDiscipline/Edit.antt =====
-- The line buffer of kernel/uart.c as a line that is edited at its end.
use tout_os.Base.{
  ℕ, zero, suc, ◌+◌, ◌-◌, ◌≡◌, ◌<◌, ◌≤◌, refl, ap, ◌∙◌, sym, inl, inr, List, [], ◌∷◌, ◌++◌, ltb,
  if◌then◌else◌, set, length, take, take-set, length-set, length-take, arith, Bool-cases,
}
use tout_os.LineDiscipline.{LineBuffer, is_erase, line_char, to_line_discipline, uart_in_buf_len}

-- the line that the buffer holds
abbrev pub line : LineBuffer → List ℕ
line s = take s.uib_index s.uart_in_buf

-- The index stays inside the array, and one byte is kept free.
abbrev pub IsLine : LineBuffer → Type 0
IsLine s = (length s.uart_in_buf ≡ uart_in_buf_len) × (s.uib_index < uart_in_buf_len)

-- a key on a line of at most 255 bytes
abbrev pub edit : ℕ → List ℕ → List ℕ
edit c xs =
    if is_erase c
    then take (length xs - 1) xs
    else if ltb (length xs) (uart_in_buf_len - 1)
    then xs ++ (line_char c ∷ [])
    else xs

take-take : (xs : List ℕ) (k n : ℕ) → k ≤ n → take k (take n xs) ≡ take k xs
take-take xs zero n le = refl
take-take xs (suc k) zero le = absurd (omega arith)
take-take [] (suc k) (suc n) le = refl
take-take (x ∷ xs) (suc k) (suc n) le = ap (λ ys. x ∷ ys) (take-take xs k n (omega arith))

pub length-line : (s : LineBuffer) → IsLine s → length (line s) ≡ s.uib_index
length-line s (full, lt) = length-take s.uib_index s.uart_in_buf ∙ omega (arith, full, lt)

-- Every key keeps the index inside the array and edits the line: erase takes its last byte away if it
-- has one, any other key is put at the end, with '\n' for '\r', unless the line has 255 bytes.
pub to_line_discipline-edit :
    (c : ℕ) (s : LineBuffer)
    → IsLine s
    → IsLine ((to_line_discipline c s).0) × (line ((to_line_discipline c s).0) ≡ edit c (line s))
unfolding to_line_discipline
to_line_discipline-edit c s (full, lt) =
    let size = length-line s (full, lt) in
    let one_more : s.uib_index + 1 ≡ suc s.uib_index = omega arith in
    elim (Bool-cases (is_erase c)) [
      | inl y ↦ elim (Bool-cases (ltb 0 s.uib_index)) [
        | inl some_left ↦
            rw (y, some_left, size, if◌then◌else◌)
              (
                (full, omega (arith, lt)),
                sym (take-take s.uart_in_buf (s.uib_index - 1) s.uib_index (omega arith)),
              )
        | inr none_left ↦
            let e : s.uib_index ≡ 0 = ground (arith, none_left) in
            rw (y, none_left, size, if◌then◌else◌)
              (
                (full, lt),
                sym (
                    take-take s.uart_in_buf (s.uib_index - 1) s.uib_index (omega arith)
                    ∙ ap (λ k. take k s.uart_in_buf) (omega (arith, e))),
              )
      ]
      | inr z ↦ elim (Bool-cases (ltb s.uib_index (uart_in_buf_len - 1))) [
        | inl fits ↦
            rw (z, fits, size, fits, if◌then◌else◌)
              (
                (length-set s.uart_in_buf s.uib_index (line_char c) ∙ full, ground (arith, fits)),
                ap (λ k. take k (set s.uart_in_buf s.uib_index (line_char c))) one_more
                    ∙ take-set s.uart_in_buf s.uib_index (line_char c) (omega (arith, full, lt)),
              )
        | inr no_room ↦ rw (z, no_room, size, no_room, if◌then◌else◌) ((full, lt), refl)
      ]
    ]
