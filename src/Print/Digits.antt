-- ===== src/Print/Digits.antt =====
-- The numbers that include/print.h prints, read back.
use native.Mathlib.Nat.{div-add-mod, mod-lt}
use mathlib.Core.List.{reverse-cons}
use tout_os.Base.{
  ℕ, zero, suc, ◌+◌, ◌-◌, ◌*◌, ◌/◌, ◌%◌, ◌^◌, ◌≤◌, ◌<◌, ◌≡◌, ◌≢◌, refl, ap, ◌∙◌, sym, subst, ◌⊎◌,
  inl, inr, true, false, List, [], ◌∷◌, ◌++◌, ltb, ◌==◌, if◌then◌else◌, length, length-append,
  replicate, reverse, ℤ, pos, negsuc, arith, Bool-cases,
}
use tout_os.Print.{Printed, digit_char, digit_loop, num_pad, print_chars, print_pad, print_number}

abbrev pub digit_value : ℕ → ℕ
digit_value c = if ltb c 65 then c - 48 else c - 55

-- a number from its digits, the first one first
abbrev pub read : ℕ → ℕ → List ℕ → ℕ
read base acc [] = acc
read base acc (c ∷ cs) = read base (acc * base + digit_value c) cs

abbrev pub first_char : List ℕ → ℕ
first_char [] = 0
first_char (c ∷ cs) = c

-- What is printed is a numeral of `d`, with no 0 in front, behind the padding that the width asks for;
-- its digits fit into `size` characters, and the count is that of the characters.
pub record IsNumeral (size d base : ℕ) (width : ℤ) (pad : ℕ) (p : Printed) : Type 0 where
  pub digits : List ℕ
  pub filled : ℕ
  pub chars_of : p.chars ≡ replicate filled pad ++ digits
  pub wide : (w : ℕ) → width ≡ pos w → length digits ≤ w → filled + length digits ≡ w
  pub tight : (w : ℕ) → width ≡ pos w → w ≤ length digits → filled ≡ 0
  pub unpadded : (n : ℕ) → width ≡ negsuc n → filled ≡ 0
  pub value_of : read base 0 digits ≡ d
  pub plain : (d ≡ 0) ⊎ (first_char digits ≢ 48)
  pub not_empty : 0 < length digits
  pub fits : length digits ≤ size
  pub count_of : p.count ≡ length p.chars

digit_value-digit_char : (r : ℕ) → r < 16 → digit_value (digit_char r) ≡ r
digit_value-digit_char r h = ground arith

-- a number from the buffer, the last digit first
abbrev number : ℕ → List ℕ → ℕ
number base [] = 0
number base (c ∷ cs) = digit_value c + base * number base cs

read-snoc :
    (base acc : ℕ) (xs : List ℕ) (c : ℕ)
    → read base acc (xs ++ (c ∷ [])) ≡ read base acc xs * base + digit_value c
read-snoc base acc [] c = refl
read-snoc base acc (x ∷ xs) c = read-snoc base (acc * base + digit_value x) xs c

read-reverse : (base : ℕ) (xs : List ℕ) → read base 0 (reverse xs) ≡ number base xs
read-reverse base [] = refl
read-reverse base (x ∷ xs) =
    ap (read base 0) (reverse-cons x xs)
    ∙ read-snoc base 0 (reverse xs) x
    ∙ ap (λ (v : ℕ). v * base + digit_value x) (read-reverse base xs)
    ∙ grind arith

mul_mono : (a b n : ℕ) → a ≤ b → a * n ≤ b * n
mul_mono a b n h = grind arith

quotient-lt : (d base k : ℕ) → 2 ≤ base → d < 2 ^ suc k → d / base < 2 ^ k
quotient-lt d base k two lt = omega (arith, lt, div-add-mod d base, mul_mono 2 base (d / base) two)

digit_loop-last :
    (fuel d base : ℕ)
    → (d / base == 0) ≡ true
    → digit_loop (suc fuel) d base ≡ digit_char (d % base) ∷ []
unfolding digit_loop
digit_loop-last fuel d base y = rw (y, digit_loop) refl

digit_loop-more :
    (fuel d base : ℕ)
    → (d / base == 0) ≡ false
    → digit_loop (suc fuel) d base ≡ digit_char (d % base) ∷ digit_loop fuel (d / base) base
unfolding digit_loop
digit_loop-more fuel d base z = rw (z, digit_loop) refl

digit_of : (d base : ℕ) → 2 ≤ base → base ≤ 16 → digit_value (digit_char (d % base)) ≡ d % base
digit_of d base two sixteen =
    let low : d % base < base = mod-lt d (omega (arith, two)) in
    digit_value-digit_char (d % base) (omega (arith, low, sixteen))

digit_loop-number :
    (fuel d base : ℕ)
    → 2 ≤ base
    → base ≤ 16
    → d < 2 ^ fuel
    → number base (digit_loop fuel d base) ≡ d
unfolding digit_loop
digit_loop-number zero d base two sixteen lt = omega (arith, lt)
digit_loop-number (suc fuel) d base two sixteen lt = elim (Bool-cases (d / base == 0)) [
  | inl y ↦
      let e : d / base ≡ 0 = ground (arith, y) in
      ap (number base) (digit_loop-last fuel d base y)
      ∙ omega (arith, digit_of d base two sixteen, div-add-mod d base, ap (λ (q : ℕ). base * q) e)
  | inr z ↦
      let ih =
        digit_loop-number fuel (d / base) base two sixteen (quotient-lt d base fuel two lt) in
      ap (number base) (digit_loop-more fuel d base z)
      ∙ omega (arith, digit_of d base two sixteen, div-add-mod d base, ap (λ (q : ℕ). base * q) ih)
]

digit_loop-length : (fuel d base : ℕ) → length (digit_loop fuel d base) ≤ fuel
unfolding digit_loop
digit_loop-length zero d base = omega arith
digit_loop-length (suc fuel) d base = elim (Bool-cases (d / base == 0)) [
  | inl y ↦ rw (y, digit_loop) (omega arith)
  | inr z ↦ rw (z, digit_loop) (omega (arith, digit_loop-length fuel (d / base) base))
]

digit_loop-not_empty : (fuel d base : ℕ) → 0 < length (digit_loop (suc fuel) d base)
unfolding digit_loop
digit_loop-not_empty fuel d base = omega arith

length-reverse : (xs : List ℕ) → length (reverse xs) ≡ length xs
length-reverse [] = refl
length-reverse (x ∷ xs) =
    ap length (reverse-cons x xs)
    ∙ length-append (reverse xs) (x ∷ [])
    ∙ omega (arith, length-reverse xs)

first_char-append : (xs ys : List ℕ) → 0 < length xs → first_char (xs ++ ys) ≡ first_char xs
first_char-append [] ys p = absurd (omega arith)
first_char-append (x ∷ xs) ys p = refl

digit_char_other : (r : ℕ) → 0 < r → digit_char r ≢ 48
digit_char_other r p = ground arith

digit_loop-pos : (fuel d base : ℕ) → 0 < d → d < 2 ^ fuel → 0 < length (digit_loop fuel d base)
digit_loop-pos zero d base p lt = absurd (omega (arith, p, lt))
digit_loop-pos (suc fuel) d base p lt = digit_loop-not_empty fuel d base

-- The last digit of a number that is not 0 is not '0', when the digits are all there.
digit_loop-plain :
    (fuel d base : ℕ)
    → 2 ≤ base
    → base ≤ 16
    → 0 < d
    → d < 2 ^ fuel
    → first_char (reverse (digit_loop fuel d base)) ≢ 48
digit_loop-plain zero d base two sixteen p lt = absurd (omega (arith, p, lt))
digit_loop-plain (suc fuel) d base two sixteen p lt = elim (Bool-cases (d / base == 0)) [
  | inl y ↦
      let e : d / base ≡ 0 = ground (arith, y) in
      let low : d % base < base = mod-lt d (omega (arith, two)) in
      let all : d % base ≡ d = omega (arith, div-add-mod d base, ap (λ (q : ℕ). base * q) e) in
      let other : digit_char (d % base) ≢ 48 =
        digit_char_other (d % base) (omega (arith, all, p)) in
      subst (λ xs. first_char (reverse xs) ≢ 48) (sym (digit_loop-last fuel d base y)) other
  | inr z ↦
      let ih =
        digit_loop-plain fuel (d / base) base two sixteen (ground (arith, z))
          (quotient-lt d base fuel two lt) in
      let rest = digit_loop fuel (d / base) base in
      let some_digits : 0 < length (reverse rest) = omega (
        arith,
        length-reverse rest,
        digit_loop-pos fuel (d / base) base (ground (arith, z)) (quotient-lt d base fuel two lt),
      ) in
      subst (λ c. c ≢ 48)
        (sym (
          ap (λ xs. first_char (reverse xs)) (digit_loop-more fuel d base z)
          ∙ ap first_char (reverse-cons (digit_char (d % base)) rest)
          ∙ first_char-append (reverse rest) (digit_char (d % base) ∷ []) some_digits))
        ih
]

-- what the two loops print
pub print_pad-chars : (k pad : ℕ) → (print_pad k pad).chars ≡ replicate k pad
unfolding print_pad
print_pad-chars zero pad = refl
print_pad-chars (suc k) pad = ap (λ cs. pad ∷ cs) (print_pad-chars k pad)

pub print_chars-chars : (cs : List ℕ) → (print_chars cs).chars ≡ cs
unfolding print_chars
print_chars-chars [] = refl
print_chars-chars (c ∷ cs) = ap (λ xs. c ∷ xs) (print_chars-chars cs)

pub print_pad-count : (k pad : ℕ) → (print_pad k pad).count ≡ length (print_pad k pad).chars
unfolding print_pad
print_pad-count zero pad = refl
print_pad-count (suc k) pad = omega (arith, print_pad-count k pad)

pub print_chars-count : (cs : List ℕ) → (print_chars cs).count ≡ length (print_chars cs).chars
unfolding print_chars
print_chars-count [] = refl
print_chars-count (c ∷ cs) = omega (arith, print_chars-count cs)

num_pad-wide : (width : ℤ) (n w : ℕ) → width ≡ pos w → n ≤ w → num_pad width n + n ≡ w
num_pad-wide width n w e le =
    let at : num_pad width n ≡ w - n = ap (λ x. num_pad x n) e in omega (arith, at, le)

num_pad-tight : (width : ℤ) (n w : ℕ) → width ≡ pos w → w ≤ n → num_pad width n ≡ 0
num_pad-tight width n w e le =
    let at : num_pad width n ≡ w - n = ap (λ x. num_pad x n) e in omega (arith, at, le)

-- For a base from 2 to 16 and a number below 2 ^ size, at least 1, `print_number` prints a numeral.
pub print_number-IsNumeral :
    (size d base : ℕ) (width : ℤ) (pad : ℕ)
    → 0 < size
    → 2 ≤ base
    → base ≤ 16
    → d < 2 ^ size
    → IsNumeral size d base width pad (print_number size d base width pad)
unfolding print_number
print_number-IsNumeral zero d base width pad p two sixteen lt = absurd (omega (arith, p))
print_number-IsNumeral (suc k) d base width pad p two sixteen lt =
    let buf = digit_loop (suc k) d base in
    let left = print_pad (num_pad width (length buf)) pad in
    let right = print_chars (reverse buf) in
    record {
      digits = reverse buf;
      filled = num_pad width (length (reverse buf));
      wide = λ w e le. num_pad-wide width (length (reverse buf)) w e le;
      tight = λ w e le. num_pad-tight width (length (reverse buf)) w e le;
      unpadded = λ n e. ap (λ x. num_pad x (length (reverse buf))) e;
      chars_of =
          ap (λ xs. xs ++ right.chars) (print_pad-chars (num_pad width (length buf)) pad)
          ∙ ap (λ xs. replicate (num_pad width (length buf)) pad ++ xs)
              (print_chars-chars (reverse buf))
          ∙ ap (λ n. replicate (num_pad width n) pad ++ reverse buf) (sym (length-reverse buf));
      value_of = read-reverse base buf ∙ digit_loop-number (suc k) d base two sixteen lt;
      plain = elim (Bool-cases (d == 0)) [
        | inl y ↦ inl (ground (arith, y))
        | inr z ↦ inr (digit_loop-plain (suc k) d base two sixteen (ground (arith, z)) lt)
      ];
      not_empty = omega (arith, length-reverse buf, digit_loop-not_empty k d base);
      fits = omega (arith, length-reverse buf, digit_loop-length (suc k) d base);
      count_of = omega (
        arith,
        print_pad-count (num_pad width (length buf)) pad,
        print_chars-count (reverse buf),
        length-append left.chars right.chars,
      );
    }
