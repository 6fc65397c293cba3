-- ===== src/Clock/Order.antt =====
-- The time that get_timestamp of kernel/misc.c gives, the end of a delay, and the order that get_order of
-- include/stddef.h gives.
use tout_os.Base.{
  ℕ, zero, suc, ◌+◌, ◌*◌, ◌/◌, ◌^◌, ◌≤◌, ◌<◌, ◌≡◌, refl, subst, sym, ◌⊎◌, inl, inr, true, false,
  leb, ◌==◌, arith, Bool-cases, mul64,
}
use tout_os.Clock.{get_timestamp, order_loop, get_order, cntfrq_el0_value}
use tout_os.Pages.{page_size}

-- `get_timestamp` gives the counter in whole microseconds, rounded down, the microseconds below 1000000.
pub get_timestamp-usec :
    (count : ℕ)
    → (((get_timestamp count).sec * 1000000 + (get_timestamp count).usec)
        ≡ count * 1000000 / cntfrq_el0_value)
      × ((get_timestamp count).usec < 1000000)
unfolding get_timestamp
get_timestamp-usec count = (omega arith, omega arith)

order_loop-stop :
    (k i size : ℕ) → leb size (mul64 (2 ^ i) page_size) ≡ true → order_loop (suc k) i size ≡ i
unfolding order_loop
order_loop-stop k i size y = rw (y, order_loop) refl

order_loop-more :
    (k i size : ℕ)
    → leb size (mul64 (2 ^ i) page_size) ≡ false
    → order_loop (suc k) i size ≡ order_loop k (i + 1) size
unfolding order_loop
order_loop-more k i size z = rw (z, order_loop) refl

order_loop-Least :
    (k i size j : ℕ) → i ≤ j → j < order_loop k i size → mul64 (2 ^ j) page_size < size
unfolding order_loop
order_loop-Least zero i size j lo hi = absurd (omega (arith, lo, hi))
order_loop-Least (suc k) i size j lo hi = elim (Bool-cases (leb size (mul64 (2 ^ i) page_size))) [
  | inl y ↦ absurd (omega (arith, lo, hi, order_loop-stop k i size y))
  | inr z ↦ elim (Bool-cases (j == i)) [
    | inl same ↦
        let e : j ≡ i = ground (arith, same) in
        let more : mul64 (2 ^ i) page_size < size = ground (arith, z) in
        subst (λ x. mul64 (2 ^ x) page_size < size) (sym e) more
    | inr other ↦
        let above : i + 1 ≤ j = ground (arith, other, lo) in
        order_loop-Least k (i + 1) size j above (omega (arith, hi, order_loop-more k i size z))
  ]
]

order_loop-enough :
    (k i size : ℕ)
    → (order_loop k i size ≡ i + k) ⊎ (size ≤ mul64 (2 ^ order_loop k i size) page_size)
unfolding order_loop
order_loop-enough zero i size = inl (omega arith)
order_loop-enough (suc k) i size = elim (Bool-cases (leb size (mul64 (2 ^ i) page_size))) [
  | inl y ↦ rw (y, order_loop) (inr (ground (arith, y)))
  | inr z ↦
      rw (z, order_loop)
        (elim (order_loop-enough k (i + 1) size) [ inl e ↦ inl (omega (arith, e)) | inr h ↦ inr h ])
]

-- Every order below the one that `get_order` gives is too small for the size, by the arithmetic of the
-- code, which wraps, and the order itself is enough, unless it is 64.
pub get_order-Least :
    (size j : ℕ)
    → ((get_order size ≡ 64) ⊎ (size ≤ mul64 (2 ^ get_order size) page_size))
      × ((get_order size ≤ j) ⊎ (mul64 (2 ^ j) page_size < size))
unfolding get_order
get_order-Least size j = (
  order_loop-enough 64 0 size,
  elim (Bool-cases (leb (order_loop 64 0 size) j)) [
    | inl y ↦ inl (ground (arith, y))
    | inr z ↦
        let below : j < order_loop 64 0 size = ground (arith, z) in
        inr (order_loop-Least 64 0 size j (omega arith) below)
  ],
)
