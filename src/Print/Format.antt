-- ===== src/Print/Format.antt =====
-- How the PRINT loop of include/print.h reads a format.
use tout_os.Base.{
  ℕ, ◌+◌, ◌-◌, ◌≤◌, ◌≡◌, ◌≢◌, refl, ap, ◌∙◌, Bool, true, false, Option, none, some, List, [], ◌∷◌,
  ◌++◌, ◌==◌, if◌then◌else◌, ℤ, pos, arith, minus_one,
}
use tout_os.Print.{
  Printed, nothing, print_char, print_chars, Arg, convert, Mode, text, percent, padded, wide,
  literal, conversion, go, move, is_width, and_then, print_format,
}

-- a directive: whether it starts with 0, its width from 1 to 9, if it has one, and its character
pub record Directive : Type 0 where
  pub zero_pad : Bool
  pub width : Option ℕ
  pub letter : ℕ

abbrev pub spell_width : Option ℕ → List ℕ → List ℕ
spell_width none rest = rest
spell_width (some w) rest = (48 + w) ∷ rest

-- how it is written, in front of `rest`
abbrev pub spell : Directive → List ℕ → List ℕ
spell d rest =
    37
    ∷ (if d.zero_pad
        then 48 ∷ spell_width d.width (d.letter ∷ rest)
        else spell_width d.width (d.letter ∷ rest))

abbrev pub pad_of : Directive → ℕ
pad_of d = if d.zero_pad then 48 else 32

abbrev pub width_of : Option ℕ → ℤ
width_of none = minus_one
width_of (some w) = pos w

abbrev pub IsWidth : Option ℕ → Type 0
IsWidth none = 0 ≤ 0
IsWidth (some w) = (1 ≤ w) × (w ≤ 9)

-- The character is no digit, and the width is one.
abbrev pub IsSpelled : Directive → Type 0
IsSpelled d = (58 ≤ d.letter) × IsWidth d.width

-- what a directive and the rest print
abbrev directive_then : ℕ → ℤ → ℕ → Arg → List ℕ → List Arg → Option Printed
directive_then pad width c arg rest args =
    and_then (convert c pad width arg) (print_format text rest args)

move-conversion :
    (m : Mode) (c pad : ℕ) (width : ℤ) (arg : Arg) (rest : List ℕ) (args : List Arg)
    → move m c ≡ conversion pad width
    → print_format m (c ∷ rest) (arg ∷ args) ≡ directive_then pad width c arg rest args
unfolding print_format
move-conversion m c pad width arg rest args e = rw (e, print_format) refl

move-go :
    (m n : Mode) (c : ℕ) (rest : List ℕ) (args : List Arg)
    → move m c ≡ go n
    → print_format m (c ∷ rest) args ≡ print_format n rest args
unfolding print_format
move-go m n c rest args e = rw (e, print_format) refl

move-literal :
    (m : Mode) (c : ℕ) (rest : List ℕ) (args : List Arg)
    → move m c ≡ literal
    → print_format m (c ∷ rest) args ≡ and_then (some (print_char c)) (print_format text rest args)
unfolding print_format
move-literal m c rest args e = rw (e, print_format) refl

letter-move :
    (c pad : ℕ)
    → 58 ≤ c
    → (move (padded pad) c ≡ conversion pad minus_one) × (move percent c ≡ conversion 32 minus_one)
unfolding move
letter-move c pad h =
    let z : is_width c ≡ false = ground (arith, h) in
    let z' : (c == 48) ≡ false = ground (arith, h) in
    (rw (z, if◌then◌else◌) refl, rw (z', z, if◌then◌else◌) refl)

width-move :
    (w pad : ℕ)
    → 1 ≤ w
    → w ≤ 9
    → (move (padded pad) (48 + w) ≡ go (wide pad (pos w)))
      × (move percent (48 + w) ≡ go (wide 32 (pos w)))
unfolding move
width-move w pad lo hi =
    let y : is_width (48 + w) ≡ true = ground (arith, lo, hi) in
    let z' : (48 + w == 48) ≡ false = ground (arith, lo) in
    let e : 48 + w - 48 ≡ w = omega arith in
    (
      rw (y, if◌then◌else◌) (ap (λ k. go (wide pad (pos k))) e),
      rw (z', y, if◌then◌else◌) (ap (λ k. go (wide 32 (pos k))) e),
    )

-- behind the '%' or the pad
width_then :
    (m : Mode) (pad c : ℕ) (w : Option ℕ) (arg : Arg) (rest : List ℕ) (args : List Arg)
    → 58 ≤ c
    → IsWidth w
    → ((k : ℕ) → 58 ≤ k → move m k ≡ conversion pad minus_one)
    → ((k : ℕ) → 1 ≤ k → k ≤ 9 → move m (48 + k) ≡ go (wide pad (pos k)))
    → print_format m (spell_width w (c ∷ rest)) (arg ∷ args)
      ≡ directive_then pad (width_of w) c arg rest args
unfolding move
width_then m pad c none arg rest args h k letter digit =
    move-conversion m c pad minus_one arg rest args (letter c h)
width_then m pad c (some w) arg rest args h (lo, hi) letter digit =
    move-go m (wide pad (pos w)) (48 + w) (c ∷ rest) (arg ∷ args) (digit w lo hi)
    ∙ move-conversion (wide pad (pos w)) c pad (pos w) arg rest args refl

spell_then :
    (z : Bool) (w : Option ℕ) (c : ℕ) (arg : Arg) (rest : List ℕ) (args : List Arg)
    → 58 ≤ c
    → IsWidth w
    → print_format text (spell (record { zero_pad = z; width = w; letter = c }) rest) (arg ∷ args)
      ≡ directive_then (if z then 48 else 32) (width_of w) c arg rest args
unfolding move
spell_then true w c arg rest args h k =
    move-go text percent 37 (48 ∷ spell_width w (c ∷ rest)) (arg ∷ args) refl
    ∙ move-go percent (padded 48) 48 (spell_width w (c ∷ rest)) (arg ∷ args) refl
    ∙ width_then (padded 48) 48 c w arg rest args h k (λ j g. (letter-move j 48 g).0)
        (λ j lo hi. (width-move j 48 lo hi).0)
spell_then false w c arg rest args h k =
    move-go text percent 37 (spell_width w (c ∷ rest)) (arg ∷ args) refl
    ∙ width_then percent 32 c w arg rest args h k (λ j g. (letter-move j 32 g).1)
        (λ j lo hi. (width-move j 32 lo hi).1)

-- no character of the text is '%'
abbrev pub IsText : List ℕ → Type 0
IsText [] = 0 ≤ 0
IsText (c ∷ cs) = (c ≢ 37) × IsText cs

and_then_assoc :
    (p : ℕ) (q r : Option Printed)
    → and_then (some (print_char p)) (and_then q r) ≡ and_then (and_then (some (print_char p)) q) r
and_then_assoc p none r = refl
and_then_assoc p (some q) none = refl
and_then_assoc p (some q) (some r) =
    let e : 1 + (q.count + r.count) ≡ 1 + q.count + r.count = omega arith in
    ap (λ (n : ℕ). some (record { count = n; chars = p ∷ (q.chars ++ r.chars) })) e

and_then-nothing : (r : Option Printed) → r ≡ and_then (some nothing) r
and_then-nothing none = refl
and_then-nothing (some q) =
    let e : q.count ≡ 0 + q.count = omega arith in
    ap (λ (n : ℕ). some (record { count = n; chars = q.chars })) e

text-move : (c : ℕ) → c ≢ 37 → move text c ≡ literal
unfolding move
text-move c ne = let z : (c == 37) ≡ false = ground (arith, ne) in rw (z, if◌then◌else◌) refl

text_then :
    (cs fmt : List ℕ) (args : List Arg)
    → IsText cs
    → print_format text (cs ++ fmt) args
      ≡ and_then (some (print_chars cs)) (print_format text fmt args)
unfolding print_chars
text_then [] fmt args h = and_then-nothing (print_format text fmt args)
text_then (c ∷ cs) fmt args (ne, h) =
    move-literal text c (cs ++ fmt) args (text-move c ne)
    ∙ ap (and_then (some (print_char c))) (text_then cs fmt args h)
    ∙ and_then_assoc c (some (print_chars cs)) (print_format text fmt args)

-- The loop prints the text in front of the first directive as it stands, the argument as the directive
-- says, and then the rest with the other arguments, for every way to write a directive.
pub print_format-spell :
    (cs : List ℕ) (d : Directive) (rest : List ℕ) (arg : Arg) (args : List Arg)
    → IsText cs
    → IsSpelled d
    → print_format text (cs ++ spell d rest) (arg ∷ args)
      ≡ and_then (some (print_chars cs)) (
          and_then
            (convert d.letter (pad_of d) (width_of d.width) arg)
            (print_format text rest args))
print_format-spell cs d rest arg args h (letter, width) =
    text_then cs (spell d rest) (arg ∷ args) h
    ∙ ap (and_then (some (print_chars cs)))
        (spell_then d.zero_pad d.width d.letter arg rest args letter width)
