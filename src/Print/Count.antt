-- ===== src/Print/Count.antt =====
-- The count that the functions of include/print.h return.
use tout_os.Base.{
  ℕ, ◌+◌, ◌≡◌, refl, subst, inl, inr, ◌⊎◌, Bool, true, false, Option, none, some, List, [], ◌∷◌,
  ◌==◌, if◌then◌else◌, length, length-append, ℤ, pos, negsuc, arith, reverse,
}
use tout_os.Print.{
  Printed, nothing, ◌⊕◌, print_char, print_chars, print_string, print_pad, print_number, num_pad,
  digit_loop, print_unsigned_int, print_uint64_t, print_ptr, print_int, Arg, int_arg, string_arg,
  pointer_arg, char_arg, convert, to_unsigned, Mode, text, Move, literal, conversion, go, move,
  and_then, print_format,
}
use tout_os.Print.Digits.{print_pad-count, print_chars-count}

abbrev pub IsCounted : Printed → Type 0
IsCounted p = p.count ≡ length p.chars

pub ⊕-IsCounted : (p q : Printed) → IsCounted p → IsCounted q → IsCounted (p ⊕ q)
⊕-IsCounted p q h k = omega (arith, h, k, length-append p.chars q.chars)

pub print_number-IsCounted :
    (size d base : ℕ) (width : ℤ) (pad : ℕ) → IsCounted (print_number size d base width pad)
unfolding print_number
print_number-IsCounted size d base width pad =
    let buf = digit_loop size d base in
    ⊕-IsCounted (print_pad (num_pad width (length buf)) pad) (print_chars (reverse buf))
      (print_pad-count (num_pad width (length buf)) pad) (print_chars-count (reverse buf))

print_int-IsCounted :
    (d : ℤ) (base : ℕ) (width : ℤ) (pad : ℕ) → IsCounted (print_int d base width pad)
unfolding print_int print_unsigned_int
print_int-IsCounted (pos d) base width pad = print_number-IsCounted 32 d base width pad
print_int-IsCounted (negsuc n) base width pad =
    ⊕-IsCounted (print_char 45) (print_number 32 (n + 1) base width pad) refl
      (print_number-IsCounted 32 (n + 1) base width pad)

-- what is printed, when something is, is counted
pub data Counted : Option Printed → Type 0 where
  stopped : Counted none
  counted : {p : Printed} → IsCounted p → Counted (some p)

if-Counted :
    (b : Bool) (r s : Option Printed) → Counted r → Counted s → Counted (if b then r else s)
if-Counted true r s h k = h
if-Counted false r s h k = k

convert-Counted : (c pad : ℕ) (width : ℤ) (a : Arg) → Counted (convert c pad width a)
unfolding convert print_string print_ptr print_uint64_t print_unsigned_int
convert-Counted c pad width (string_arg none) =
    if-Counted (c == 115) (some nothing) none (counted {p = nothing} refl) stopped
convert-Counted c pad width (string_arg (some s)) =
    if-Counted (c == 115) (some (print_chars s)) none (counted (print_chars-count s)) stopped
convert-Counted c pad width (pointer_arg p) =
    if-Counted (c == 112) (some (print_number 64 p 16 (pos 16) 48)) none
      (counted (print_number-IsCounted 64 p 16 (pos 16) 48)) stopped
convert-Counted c pad width (char_arg a) =
    if-Counted (c == 99) (some (print_char a)) none (counted {p = print_char a} refl) stopped
convert-Counted c pad width (int_arg d) =
    let u = to_unsigned d in
    let hex_or_octal = λ (base : ℕ). some (print_number 32 u base width pad) in
    let octal = if c == 111 then hex_or_octal 8 else none in
    let hex = if c == 120 then hex_or_octal 16 else octal in
    let unsigned = if c == 117 then hex_or_octal 10 else hex in
    if-Counted (c == 100) (some (print_int d 10 width pad)) unsigned
      (counted (print_int-IsCounted d 10 width pad))
      (if-Counted (c == 117) (hex_or_octal 10) hex
        (counted (print_number-IsCounted 32 u 10 width pad))
        (if-Counted (c == 120) (hex_or_octal 16) octal
          (counted (print_number-IsCounted 32 u 16 width pad))
          (if-Counted (c == 111) (hex_or_octal 8) none
            (counted (print_number-IsCounted 32 u 8 width pad)) stopped)))

and_then-Counted : (r s : Option Printed) → Counted r → Counted s → Counted (and_then r s)
and_then-Counted none s h k = stopped
and_then-Counted (some p) none h k = stopped
and_then-Counted (some p) (some q) (counted h) (counted k) = counted (⊕-IsCounted p q h k)

Move-cases :
    (r : Move)
    → (r ≡ literal)
      ⊎ (((m : Mode) × (r ≡ go m)) ⊎ ((pad : ℕ) × (width : ℤ) × (r ≡ conversion pad width)))
Move-cases literal = inl refl
Move-cases (go m) = inr (inl (m, refl))
Move-cases (conversion pad width) = inr (inr (pad, width, refl))

conversion-Counted :
    (c pad : ℕ) (width : ℤ) (fmt : List ℕ) (args : List Arg)
    → ((rest : List Arg) → Counted (print_format text fmt rest))
    → Counted (elim args as (λ z. Option Printed) [
      | [] ↦ none
      | arg ∷ rest ↦ and_then (convert c pad width arg) (print_format text fmt rest)
    ])
conversion-Counted c pad width fmt [] f = stopped
conversion-Counted c pad width fmt (arg ∷ rest) f =
    and_then-Counted (convert c pad width arg) (print_format text fmt rest)
      (convert-Counted c pad width arg) (f rest)

print_format-Counted :
    (m : Mode) (fmt : List ℕ) (args : List Arg) → Counted (print_format m fmt args)
unfolding print_format
print_format-Counted m [] args = counted {p = nothing} refl
print_format-Counted m (c ∷ fmt) args = elim (Move-cases (move m c)) [
  | inl e ↦
      rw (e, print_format)
        (and_then-Counted (some (print_char c)) (print_format text fmt args)
          (counted {p = print_char c} refl) (print_format-Counted text fmt args))
  | inr (inl (m', e)) ↦ rw (e, print_format) (print_format-Counted m' fmt args)
  | inr (inr (pad, width, e)) ↦
      rw (e, print_format) (conversion-Counted c pad width fmt args (print_format-Counted text fmt))
]

Counted-IsCounted : (p : Printed) → Counted (some p) → IsCounted p
Counted-IsCounted p (counted h) = h

-- The count that the PRINT loop adds up is the number of characters that it has put out, for every format
-- and all arguments with which it ends.
pub print_format-count :
    (fmt : List ℕ) (args : List Arg) (p : Printed)
    → print_format text fmt args ≡ some p
    → p.count ≡ length p.chars
print_format-count fmt args p e =
    Counted-IsCounted p (subst Counted e (print_format-Counted text fmt args))
