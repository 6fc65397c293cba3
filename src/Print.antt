-- ===== src/Print.antt =====
-- The formatted output of include/print.h, which printk, printf and print_early share. `print_char` of
-- each of them puts out one character and returns 1, so that what a function prints is a list of
-- characters and `count` is the number that the code adds up. A width of -1 is `negsuc 0`.
pub mod Digits
pub mod Count
pub mod Format
mod Tests
use tout_os.Base.{
  ℕ, zero, suc, ◌+◌, ◌-◌, ◌*◌, ◌/◌, ◌%◌, ◌^◌, Bool, true, false, ◌&&◌, Option, none, some, List, [],
  ◌∷◌, ◌++◌, ltb, leb, ◌==◌, if◌then◌else◌, length, ℤ, pos, negsuc, minus_one, reverse,
}

pub record Printed : Type 0 where
  pub count : ℕ
  pub chars : List ℕ

abbrev pub nothing : Printed
nothing = record { count = 0; chars = [] }

-- num_printed += …
infixr 20 ◌⊕◌
abbrev pub ◌⊕◌ : Printed → Printed → Printed
p ⊕ q = record { count = p.count + q.count; chars = p.chars ++ q.chars }

abbrev pub print_char : ℕ → Printed
print_char c = record { count = 1; chars = c ∷ [] }

-- the loop that prints a buffer
unfoldable pub print_chars : List ℕ → Printed
print_chars [] = nothing
print_chars (c ∷ cs) = print_char c ⊕ print_chars cs

unfoldable pub print_string : Option (List ℕ) → Printed
print_string none = nothing
print_string (some s) = print_chars s

-- digits[rem], of "0123456789ABCDEF"
abbrev pub digit_char : ℕ → ℕ
digit_char r = if ltb r 10 then 48 + r else 55 + r

-- The do-while loop that fills `buf`, the last digit first.
unfoldable pub digit_loop : ℕ → ℕ → ℕ → List ℕ
digit_loop zero d base = []
digit_loop (suc fuel) d base =
    digit_char (d % base)
    ∷ (elim (d / base == 0) [ true ↦ [] | false ↦ digit_loop fuel (d / base) base ])

abbrev pub num_pad : ℤ → ℕ → ℕ
num_pad (pos width) num_digit = width - num_digit
num_pad (negsuc n) num_digit = 0

-- the loop that prints `pad`
unfoldable pub print_pad : ℕ → ℕ → Printed
print_pad zero pad = nothing
print_pad (suc k) pad = print_char pad ⊕ print_pad k pad

-- The digits and the padding; `size` is the length of `buf`.
unfoldable pub print_number : ℕ → ℕ → ℕ → ℤ → ℕ → Printed
print_number size d base width pad =
    let buf = digit_loop size d base in
    print_pad (num_pad width (length buf)) pad ⊕ print_chars (reverse buf)

unfoldable pub print_uint64_t : ℕ → ℕ → ℤ → ℕ → Printed
print_uint64_t d base width pad = print_number 64 d base width pad

unfoldable pub print_unsigned_int : ℕ → ℕ → ℤ → ℕ → Printed
print_unsigned_int d base width pad = print_number 32 d base width pad

-- NUM_HEX_FOR_PTR is 16.
unfoldable pub print_ptr : ℕ → Printed
print_ptr p = print_uint64_t p 16 (pos 16) 48

-- The negated int is converted to unsigned, so that INT_MIN gives 2 ^ 31.
unfoldable pub print_int : ℤ → ℕ → ℤ → ℕ → Printed
print_int (pos d) base width pad = print_unsigned_int d base width pad
print_int (negsuc n) base width pad = print_char 45 ⊕ print_unsigned_int (n + 1) base width pad

-- Here it is converted to uint64_t, which takes INT_MIN to 2 ^ 64 - 2 ^ 31. The pad of -1 is not used.
unfoldable pub print_int32_t : ℤ → Printed
print_int32_t (pos d) = print_uint64_t d 10 minus_one 0
print_int32_t (negsuc n) =
    print_char 45
    ⊕ print_uint64_t (if n + 1 == 2 ^ 31 then 2 ^ 64 - 2 ^ 31 else n + 1) 10 minus_one 0

unfoldable pub print_hex : ℤ → Printed
print_hex (pos d) = print_uint64_t d 16 minus_one 0
print_hex (negsuc n) = print_char 45 ⊕ print_uint64_t (n + 1) 16 minus_one 0

-- the arguments after the format
pub data Arg : Type 0 where
  int_arg : ℤ → Arg
  string_arg : Option (List ℕ) → Arg
  pointer_arg : ℕ → Arg
  char_arg : ℕ → Arg

-- conversion of an int to unsigned int
abbrev pub to_unsigned : ℤ → ℕ
to_unsigned (pos n) = n % 2 ^ 32
to_unsigned (negsuc n) = (2 ^ 32 - (n + 1) % 2 ^ 32) % 2 ^ 32

-- The switch on the conversion character. `none` is the failed assertion of an unknown character, or
-- an argument that is not of the type that `va_arg` reads.
unfoldable pub convert : ℕ → ℕ → ℤ → Arg → Option Printed
convert c pad width (string_arg s) = if c == 115 then some (print_string s) else none
convert c pad width (pointer_arg p) = if c == 112 then some (print_ptr p) else none
convert c pad width (char_arg a) = if c == 99 then some (print_char a) else none
convert c pad width (int_arg d) =
    if c == 100
    then some (print_int d 10 width pad)
    else if c == 117
    then some (print_unsigned_int (to_unsigned d) 10 width pad)
    else if c == 120
    then some (print_unsigned_int (to_unsigned d) 16 width pad)
    else if c == 111
    then some (print_unsigned_int (to_unsigned d) 8 width pad)
    else none

-- Where the loop of PRINT stands: at a character of the text, behind a '%', behind the pad, or behind
-- the width.
pub data Mode : Type 0 where
  text : Mode
  percent : Mode
  padded : ℕ → Mode
  wide : ℕ → ℤ → Mode

-- what a character is: it is printed, ends the directive, or leads on
pub data Move : Type 0 where
  literal : Move
  conversion : ℕ → ℤ → Move
  go : Mode → Move

abbrev pub is_width : ℕ → Bool
is_width c = leb 49 c && leb c 57

abbrev pub after_pad : ℕ → ℕ → Move
after_pad c pad = if is_width c then go (wide pad (pos (c - 48))) else conversion pad minus_one

unfoldable pub move : Mode → ℕ → Move
move text c = if c == 37 then go percent else literal
move percent c = if c == 48 then go (padded 48) else after_pad c 32
move (padded pad) c = after_pad c pad
move (wide pad width) c = conversion pad width

-- `p`, when there is something, and then `q`
abbrev pub and_then : Option Printed → Option Printed → Option Printed
and_then (some p) (some q) = some (p ⊕ q)
and_then (some p) none = none
and_then none q = none

-- PRINT from a format that is left, with the arguments that are left. A format that ends in a
-- directive ends the loop.
unfoldable pub print_format : Mode → List ℕ → List Arg → Option Printed
print_format m [] args = some nothing
print_format m (c ∷ fmt) args = elim (move m c) [
  | literal ↦ and_then (some (print_char c)) (print_format text fmt args)
  | go m' ↦ print_format m' fmt args
  | conversion pad width ↦ elim args [
    | [] ↦ none
    | arg ∷ rest ↦ and_then (convert c pad width arg) (print_format text fmt rest)
  ]
]
