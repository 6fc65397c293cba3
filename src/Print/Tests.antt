-- ===== src/Print/Tests.antt =====
-- Runs of the formatted output of include/print.h, and its theorems at concrete inputs.
use tout_os.Base.{ℕ, ◌≡◌, refl, true, some, List, [], ◌∷◌, ◌++◌, pos, negsuc, arith}
use tout_os.Print.{
  Printed, int_arg, print_number, digit_loop, print_pad, print_chars, print_int, print_unsigned_int,
  convert, text, move, and_then, print_format,
}
use tout_os.Print.Digits.{IsNumeral, print_number-IsNumeral}
use tout_os.Print.Format.{Directive, spell, pad_of, width_of, print_format-spell}

-- "n=%05d"
abbrev counter_format : List ℕ
counter_format = 110 ∷ 61 ∷ 37 ∷ 48 ∷ 53 ∷ 100 ∷ []

-- "n=00042"
abbrev counter_output : Printed
counter_output = record { count = 7; chars = 110 ∷ 61 ∷ 48 ∷ 48 ∷ 48 ∷ 52 ∷ 50 ∷ [] }

prints_counter : print_format text counter_format (int_arg (pos 42) ∷ []) ≡ some counter_output
unfolding print_format move convert print_int print_unsigned_int print_number digit_loop print_pad
    print_chars
prints_counter = refl

-- The sign stands in front of the padding.
sign_first :
    print_int (negsuc 2) 10 (pos 4) 32 ≡ record { count = 5; chars = 45 ∷ 32 ∷ 32 ∷ 32 ∷ 51 ∷ [] }
unfolding print_int print_unsigned_int print_number digit_loop print_pad print_chars
sign_first = refl

print_number-IsNumeral_example : IsNumeral 64 255 16 (pos 4) 48 (print_number 64 255 16 (pos 4) 48)
print_number-IsNumeral_example =
    print_number-IsNumeral 64 255 16 (pos 4) 48 (omega arith) (omega arith) (omega arith)
      (omega arith)

abbrev five_digits : Directive
five_digits = record { zero_pad = true; width = some 5; letter = 100 }

print_format-spell_example :
    print_format text ((110 ∷ 61 ∷ []) ++ spell five_digits (10 ∷ [])) (int_arg (pos 42) ∷ [])
    ≡ and_then (some (print_chars (110 ∷ 61 ∷ []))) (
        and_then
          (convert 100 (pad_of five_digits) (width_of five_digits.width) (int_arg (pos 42)))
          (print_format text (10 ∷ []) []))
print_format-spell_example =
    print_format-spell (110 ∷ 61 ∷ []) five_digits (10 ∷ []) (int_arg (pos 42)) [] (omega arith)
      (omega arith)
