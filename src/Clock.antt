-- ===== src/Clock.antt =====
-- Times and sizes: get_timestamp and the delays of kernel/misc.c, the tick of kernel/hw_timer.c, and
-- get_order of include/stddef.h. The counter CNTPCT_EL0 is an argument.
pub mod Order
mod Tests
use tout_os.Base.{
  ℕ, zero, suc, ◌+◌, ◌-◌, ◌*◌, ◌/◌, ◌%◌, ◌^◌, Bool, true, false, Option, none, some, List, [], ◌∷◌,
  ltb, leb, ◌==◌, if◌then◌else◌, add64, mul64, add32,
}
use tout_os.Pages.{page_size}

abbrev pub cntfrq_el0_value : ℕ
cntfrq_el0_value = 62500000

-- struct timestamp
pub record Timestamp : Type 0 where
  pub sec : ℕ
  pub usec : ℕ

unfoldable pub get_timestamp : ℕ → Timestamp
get_timestamp timer_count = record {
  sec = timer_count / cntfrq_el0_value;
  usec = mul64 (mul64 (timer_count % cntfrq_el0_value) 1000) 1000 / cntfrq_el0_value;
}

-- The loop of `udelay`, with the values that the counter is read with from then on: the value that ends
-- it, `none` when the values run out first.
unfoldable pub delay_loop : ℕ → List ℕ → ℕ → Option ℕ
delay_loop timer_count [] timer_count_end =
    if ltb timer_count timer_count_end then none else some timer_count
delay_loop timer_count (r ∷ rest) timer_count_end = elim (ltb timer_count timer_count_end) [
  | true ↦ delay_loop r rest timer_count_end
  | false ↦ some timer_count
]

unfoldable pub udelay : ℕ → ℕ → List ℕ → Option ℕ
udelay delay timer_count reads =
    delay_loop timer_count reads (add64 timer_count (mul64 cntfrq_el0_value delay / (1000 * 1000)))

unfoldable pub mdelay : ℕ → ℕ → List ℕ → Option ℕ
mdelay delay = udelay (mul64 1000 delay)

-- the static variable `tick` after a timer interrupt on the core
unfoldable pub handle_timer_irq : ℕ → ℕ → ℕ
handle_timer_irq core_id tick = if core_id == 0 then add64 tick 1 else tick

-- The loop of `get_order` at `i`, with `k` rounds left.
unfoldable pub order_loop : ℕ → ℕ → ℕ → ℕ
order_loop zero i size = i
order_loop (suc k) i size = elim (leb size (mul64 (2 ^ i) page_size)) [
  | true ↦ i
  | false ↦ order_loop k (i + 1) size
]

unfoldable pub get_order : ℕ → ℕ
get_order size = order_loop 64 0 size
