-- ===== src/Base/Bits.antt =====
-- Laws of `bit_or` at variables, with a mask of low digits written as a rest.
use Prim.Native.Nat.{
  ℕ, zero, suc, ◌+◌, ◌*◌, ◌/◌, ◌%◌, ◌^◌, ◌≤◌, ◌<◌, max, bit_or, digits, bit_or-bitwise,
}
use mathlib.Core.Path.{◌≡◌, refl, ap, ◌∙◌, sym}
use native.Mathlib.Omega.{arith}
use native.Mathlib.Nat.{
  div-div-eq-div-mul, div-add-mod, mod-lt, mul-add-mod_self_left, mod-eq_of_lt,
}

abbrev or_digits : ℕ → ℕ → ℕ → ℕ
or_digits n a b = digits (λ b. b) max n a b

or_digits_fuel : (n m a b : ℕ) → a ≤ n → a ≤ m → or_digits n a b ≡ or_digits m a b
or_digits_fuel zero zero a b p q = refl
or_digits_fuel zero (suc m) zero b p q = refl
or_digits_fuel zero (suc m) (suc a) b p q = absurd (omega arith)
or_digits_fuel (suc n) zero zero b p q = refl
or_digits_fuel (suc n) zero (suc a) b p q = absurd (omega arith)
or_digits_fuel (suc n) (suc m) zero b p q = refl
or_digits_fuel (suc n) (suc m) (suc a) b p q =
    omega (arith, or_digits_fuel n m (suc a / 2) (b / 2) (omega arith) (omega arith))

pub zero-bit_or : (b : ℕ) → bit_or 0 b ≡ b
zero-bit_or b = bit_or-bitwise 0 b

pub bit_or_step : (a b : ℕ) → bit_or a b ≡ bit_or (a / 2) (b / 2) * 2 + max (a % 2) (b % 2)
bit_or_step zero b = omega (arith, zero-bit_or b, zero-bit_or (b / 2))
bit_or_step (suc a) b = omega (
  arith,
  bit_or-bitwise (suc a) b,
  bit_or-bitwise (suc a / 2) (b / 2),
  or_digits_fuel a (suc a / 2) (suc a / 2) (b / 2) (omega arith) (omega arith),
)

pub bit_or-half : (a b : ℕ) → bit_or a b / 2 ≡ bit_or (a / 2) (b / 2)
bit_or-half a b = omega (arith, bit_or_step a b)

pow_suc : (k : ℕ) → 2 ^ suc k ≡ 2 * 2 ^ k
pow_suc k = omega arith

div-pow_suc : (k a : ℕ) → a / 2 ^ suc k ≡ a / 2 / 2 ^ k
div-pow_suc k a = ap (λ (m : ℕ). a / m) (pow_suc k) ∙ sym (div-div-eq-div-mul a 2 (2 ^ k))

-- `bit_or` of the numbers without their lowest digits
pub bit_or-div : (k a b : ℕ) → bit_or a b / 2 ^ k ≡ bit_or (a / 2 ^ k) (b / 2 ^ k)
bit_or-div zero a b =
    let one_a : a ≡ a / 1 = omega arith in
    let one_b : b ≡ b / 1 = omega arith in
    let one : bit_or a b / 1 ≡ bit_or a b = omega arith in
    one ∙ ap (λ (x : ℕ). bit_or x b) one_a ∙ ap (λ (y : ℕ). bit_or (a / 1) y) one_b
bit_or-div (suc k) a b =
    div-pow_suc k (bit_or a b)
    ∙ ap (λ (m : ℕ). m / 2 ^ k) (bit_or-half a b)
    ∙ bit_or-div k (a / 2) (b / 2)
    ∙ ap (λ (x : ℕ). bit_or x (b / 2 / 2 ^ k)) (sym (div-pow_suc k a))
    ∙ ap (λ (y : ℕ). bit_or (a / 2 ^ suc k) y) (sym (div-pow_suc k b))

or-le_fuel : (n a b : ℕ) → b ≤ n → b ≤ bit_or a b
or-le_fuel zero a b h = omega (arith, h)
or-le_fuel (suc n) a b h =
    omega (arith, bit_or_step a b, or-le_fuel n (a / 2) (b / 2) (omega (arith, h)))

pub le-bit_or : (a b : ℕ) → b ≤ bit_or a b
le-bit_or a b = or-le_fuel b a b (omega arith)

pow_pos : (k : ℕ) → 0 < 2 ^ k
pow_pos zero = omega arith
pow_pos (suc k) = omega (arith, pow_pos k)

double-mod : (x r m : ℕ) → 0 < m → r < 2 → (x * 2 + r) % (2 * m) ≡ (x % m) * 2 + r
double-mod x r m p lt =
    let low : x % m < m = mod-lt x p in
    let small : (x % m) * 2 + r < 2 * m = omega (arith, low, lt) in
    let split : x * 2 + r ≡ 2 * m * (x / m) + ((x % m) * 2 + r) = omega (arith, div-add-mod x m) in
    ap (λ (n : ℕ). n % (2 * m)) split
    ∙ mul-add-mod_self_left (2 * m) (x / m) ((x % m) * 2 + r)
    ∙ mod-eq_of_lt small

mod-double : (x m : ℕ) → 0 < m → x % (2 * m) ≡ ((x / 2) % m) * 2 + x % 2
mod-double x m p =
    let split : x ≡ (x / 2) * 2 + x % 2 = omega arith in
    ap (λ (n : ℕ). n % (2 * m)) split ∙ double-mod (x / 2) (x % 2) m p (omega arith)

mod-pow_suc : (k x : ℕ) → x % 2 ^ suc k ≡ ((x / 2) % 2 ^ k) * 2 + x % 2
mod-pow_suc k x = ap (λ (m : ℕ). x % m) (pow_suc k) ∙ mod-double x (2 ^ k) (pow_pos k)

-- Digits that are 0 on the right leave those on the left.
pub bit_or-mod : (k a b : ℕ) → b % 2 ^ k ≡ 0 → bit_or a b % 2 ^ k ≡ a % 2 ^ k
bit_or-mod zero a b h = omega arith
bit_or-mod (suc k) a b h =
    let half : b / 2 % 2 ^ k ≡ 0 = omega (arith, h, mod-pow_suc k b) in
    let even : b % 2 ≡ 0 = omega (arith, h, mod-pow_suc k b) in
    omega (
      arith,
      mod-pow_suc k (bit_or a b),
      mod-pow_suc k a,
      bit_or-mod k (a / 2) (b / 2) half,
      ap (λ (x : ℕ). x % 2 ^ k) (bit_or-half a b),
      bit_or_step a b,
      even,
    )
