-- ===== src/SystemCalls/Io.antt =====
-- sys_read and sys_write of kernel/isr.c. The standard input is the line buffer of LineDiscipline; a reader
-- that finds no line sleeps, so that a read is looked at when it goes on with a line. The bytes of `buf`
-- are values; what is written goes to the device in its order.
use tout_os.Base.{
  ℕ, suc, ◌++◌, append-nil, ◌+◌, ◌-◌, ◌%◌, ◌^◌, ◌≤◌, ◌<◌, ◌≡◌, ◌≢◌, refl, ap, ◌∙◌, sym, Bool, true,
  false, ◌&&◌, Option, none, some, List, [], ◌∷◌, ltb, ◌==◌, if◌then◌else◌, ℤ, pos, minus_one,
  length, take, get_elem?, arith, to_int,
}
use tout_os.LineDiscipline.{LineBuffer, uart_in_buf_len, to_line_discipline, is_erase, line_char}
use tout_os.LineDiscipline.Edit.{line, IsLine, edit, length-line, to_line_discipline-edit}

-- What a read gives: the reader sleeps, or it has a result, the bytes that are copied, and the buffer after it.
pub data Reading : Type 0 where
  sleeps : Reading
  gives : ℤ → List ℕ → LineBuffer → Reading

-- the byte is '\n'
abbrev pub is_newline : Option ℕ → Bool
is_newline none = false
is_newline (some c) = c == 10

-- uib_index > 0 && uart_in_buf[uib_index-1] == '\n'
abbrev pub has_line : LineBuffer → Bool
has_line s = ltb 0 s.uib_index && is_newline (get_elem? s.uart_in_buf (s.uib_index - 1))

unfoldable pub read_stdin : ℕ → LineBuffer → Reading
read_stdin count s =
    if has_line s
    then (if ltb count s.uib_index
        then gives minus_one [] s
        else gives (pos s.uib_index) (take s.uib_index s.uart_in_buf) (record s { uib_index = 0 }))
    else sleeps

-- `fd` is the low half of x0.
abbrev pub fd_of : ℕ → ℕ
fd_of x0 = x0 % 2 ^ 32

unfoldable pub sys_read : ℕ → ℕ → LineBuffer → Reading
sys_read x0 count s = if fd_of x0 == 0 then read_stdin count s else gives minus_one [] s

-- the result, and the bytes that go to the device; `count` is below 2 ^ 31, as the index is an int
unfoldable pub write_stdout : List ℕ → ℕ → ℕ × List ℕ
write_stdout buf count = (count, take count buf)

unfoldable pub sys_write : ℕ → List ℕ → ℕ → ℤ × List ℕ
sys_write x0 buf count =
    let (ret, bytes) = write_stdout buf count in
    if fd_of x0 == 1 then (to_int ret, bytes) else (minus_one, [])

-- the line buffer after some keys
abbrev pub typed : List ℕ → LineBuffer → LineBuffer
typed [] s = s
typed (c ∷ cs) s = typed cs (to_line_discipline c s).0

-- a key that stands for itself
abbrev pub IsPlain : ℕ → Type 0
IsPlain c = (is_erase c ≡ false) × (c ≢ 13)

pub data AllPlain : List ℕ → Type 0 where
  no_keys : AllPlain []
  one_more : {c : ℕ} {cs : List ℕ} → IsPlain c → AllPlain cs → AllPlain (c ∷ cs)

line_char-plain : (c : ℕ) → c ≢ 13 → line_char c ≡ c
line_char-plain c ne = let z : (c == 13) ≡ false = ground (arith, ne) in rw (z, if◌then◌else◌) refl

pub edit-plain :
    (c : ℕ) (xs : List ℕ)
    → is_erase c ≡ false
    → length xs < 255
    → edit c xs ≡ xs ++ (line_char c ∷ [])
edit-plain c xs z lt =
    let room : ltb (length xs) (uart_in_buf_len - 1) ≡ true = ground (arith, lt) in
    rw (z, room, if◌then◌else◌) refl

pub length-snoc : (xs : List ℕ) (c : ℕ) → length (xs ++ (c ∷ [])) ≡ length xs + 1
length-snoc [] c = refl
length-snoc (x ∷ xs) c = omega (arith, length-snoc xs c)

snoc-append : (xs ys : List ℕ) (c : ℕ) → (xs ++ (c ∷ [])) ++ ys ≡ xs ++ (c ∷ ys)
snoc-append [] ys c = refl
snoc-append (x ∷ xs) ys c = ap (λ (l : List ℕ). x ∷ l) (snoc-append xs ys c)

typed-line :
    (ks : List ℕ) (s : LineBuffer)
    → IsLine s
    → AllPlain ks
    → length (line s) + length ks ≤ 255
    → IsLine (typed ks s) × (line (typed ks s) ≡ line s ++ ks)
typed-line [] s v no_keys room = (v, sym (append-nil (line s)))
typed-line (c ∷ cs) s v (one_more (z, ne) more) room =
    let (v', step) = to_line_discipline-edit c s v in
    let lt : length (line s) < 255 = omega (arith, room) in
    let longer : line (to_line_discipline c s).0 ≡ line s ++ (c ∷ []) =
      step
      ∙ edit-plain c (line s) z lt
      ∙ ap (λ (d : ℕ). line s ++ (d ∷ [])) (line_char-plain c ne) in
    let size : length (line (to_line_discipline c s).0) ≡ length (line s) + 1 =
      ap (λ (l : List ℕ). length l) longer ∙ length-snoc (line s) c in
    let (v'', rest) =
      typed-line cs (to_line_discipline c s).0 v' more (omega (arith, size, room)) in
    (v'', rest ∙ ap (λ (l : List ℕ). l ++ cs) longer ∙ snoc-append (line s) cs c)

take-last :
    (buf xs : List ℕ) (c : ℕ)
    → take (suc (length xs)) buf ≡ xs ++ (c ∷ [])
    → get_elem? buf (length xs) ≡ some c
take-last [] [] c e = cc
take-last [] (x ∷ xs) c e = cc
take-last (b ∷ bs) [] c e = cc
take-last (b ∷ bs) (x ∷ xs) c e =
    let rest : take (suc (length xs)) bs ≡ xs ++ (c ∷ []) = cc in take-last bs xs c rest

-- A read of a buffer with the line `xs` and its '\n'.
pub read_stdin-line :
    (s : LineBuffer) (xs : List ℕ) (count : ℕ)
    → IsLine s
    → line s ≡ xs ++ (10 ∷ [])
    → length xs < count
    → read_stdin count s
      ≡ gives (pos (length xs + 1)) (xs ++ (10 ∷ [])) (record s { uib_index = 0 })
unfolding read_stdin
read_stdin-line s xs count v e lt =
    let index : s.uib_index ≡ length xs + 1 =
      sym (length-line s v) ∙ ap (λ (l : List ℕ). length l) e ∙ length-snoc xs 10 in
    let index' : s.uib_index ≡ suc (length xs) = omega (arith, index) in
    let some_byte : ltb 0 s.uib_index ≡ true = ground (arith, index) in
    let at : s.uib_index - 1 ≡ length xs = omega (arith, index) in
    let newline : get_elem? s.uart_in_buf (s.uib_index - 1) ≡ some 10 =
      ap (get_elem? s.uart_in_buf) at
      ∙ take-last s.uart_in_buf xs 10 (ap (λ (k : ℕ). take k s.uart_in_buf) (sym index') ∙ e) in
    let found : has_line s ≡ true = rw (some_byte, newline) refl in
    let enough : ltb count s.uib_index ≡ false = ground (arith, lt, index) in
    rw (found, enough, e, index, if◌then◌else◌) refl

-- A line that is typed is read: after keys that stand for themselves, at most 254 of them, and the enter
-- key, typed into an empty line buffer, `sys_read` of fd 0 with a count above their number gives the keys
-- with '\n' behind them, returns their number + 1, and leaves the line empty.
pub sys_read-typed :
    (ks : List ℕ) (s : LineBuffer) (x0 count : ℕ)
    → IsLine s
    → line s ≡ []
    → AllPlain ks
    → length ks ≤ 254
    → x0 % 2 ^ 32 ≡ 0
    → length ks < count
    → sys_read x0 count (to_line_discipline 13 (typed ks s)).0
      ≡ gives
          (pos (length ks + 1))
          (ks ++ (10 ∷ []))
          (record (to_line_discipline 13 (typed ks s)).0 { uib_index = 0 })
unfolding sys_read
sys_read-typed ks s x0 count v empty plain few stdin lt =
    let none_yet : length (line s) ≡ 0 = ap (λ (l : List ℕ). length l) empty in
    let (v', keys) = typed-line ks s v plain (omega (arith, none_yet, few)) in
    let whole : line (typed ks s) ≡ ks = keys ∙ ap (λ (l : List ℕ). l ++ ks) empty in
    let size : length (line (typed ks s)) ≡ length ks = ap (λ (l : List ℕ). length l) whole in
    let (v'', last) = to_line_discipline-edit 13 (typed ks s) v' in
    let ended : line (to_line_discipline 13 (typed ks s)).0 ≡ ks ++ (10 ∷ []) =
      last
      ∙ edit-plain 13 (line (typed ks s)) refl (omega (arith, size, few))
      ∙ ap (λ (l : List ℕ). l ++ (10 ∷ [])) whole in
    let y : (fd_of x0 == 0) ≡ true = ground (arith, stdin) in
    rw (y, if◌then◌else◌)
      (read_stdin-line (to_line_discipline 13 (typed ks s)).0 ks count v'' ended lt)
