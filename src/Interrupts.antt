-- ===== src/Interrupts.antt =====
-- irq_handler of kernel/isr.c, and the classes of exceptions. The number that the interrupt controller
-- gives, whether user mode was interrupted, and the pid of the task are arguments; what the handlers do
-- is in the components that they belong to.
pub mod Account
mod Tests
use tout_os.Base.{
  ℕ, ◌+◌, ◌/◌, ◌%◌, ◌^◌, Bool, true, false, ◌&&◌, ◌||◌, not, Option, none, some, ltb, ◌==◌,
  if◌then◌else◌, add64,
}

abbrev pub max_num_interrupts : ℕ
max_num_interrupts = 64

abbrev pub irq_spurious : ℕ
irq_spurious = 1023

abbrev pub irq_timer : ℕ
irq_timer = 30

-- the entries of `isr_func` that are not NULL
pub data Handler : Type 0 where
  handle_timer_irq : Handler
  handle_uart_irq : Handler
  handle_rtc_irq : Handler

unfoldable pub isr_func : ℕ → Option Handler
isr_func irq =
    if irq == 30
    then some handle_timer_irq
    else if irq == 33
    then some handle_uart_irq
    else if irq == 34
    then some handle_rtc_irq
    else none

-- The counters of a core and the times of its task.
pub record Counters : Type 0 where
  pub irq_trigger_count : ℕ → ℕ
  pub stime : ℕ
  pub utime : ℕ

-- What one interrupt does: the handler called, whether its end is told to the controller, and whether
-- `schedule` and `do_softirq` are called.
pub record Handled : Type 0 where
  pub handler : Option Handler
  pub ended : Bool
  pub scheduled : Bool
  pub softirqs : Bool
  pub counters : Counters

unfoldable pub count_irq : ℕ → Counters → Counters
count_irq irq c = record c {
  irq_trigger_count =
      λ i. if i == irq then add64 (c.irq_trigger_count i) 1 else c.irq_trigger_count i;
}

unfoldable pub account : Bool → Counters → Counters
account in_user_mode c =
    if in_user_mode
    then record c { utime = add64 c.utime 1 }
    else record c { stime = add64 c.stime 1 }

-- the handler of a number in range
abbrev pub dispatch : ℕ → Option Handler
dispatch irq = if ltb irq max_num_interrupts then isr_func irq else none

abbrev pub count_if : Option Handler → ℕ → Counters → Counters
count_if none irq c = c
count_if (some h) irq c = count_irq irq c

abbrev pub counted : ℕ → Counters → Counters
counted irq c = count_if (dispatch irq) irq c

unfoldable pub irq_handler : ℕ → Bool → ℕ → Counters → Handled
irq_handler irq in_user_mode pid c =
    if irq == irq_spurious
    then record { handler = none; ended = false; scheduled = false; softirqs = false; counters = c }
    else record {
      handler = dispatch irq;
      ended = true;
      scheduled = (irq == irq_timer) && (in_user_mode || (pid == 0));
      softirqs = true;
      counters = if irq == irq_timer then account in_user_mode (counted irq c) else counted irq c;
    }

-- (esr >> 26) & 0x3F
unfoldable pub get_ec_from_esr : ℕ → ℕ
get_ec_from_esr esr = esr / 2 ^ 26 % 64

unfoldable pub is_kernel_inst_abort : ℕ → Bool
is_kernel_inst_abort esr = get_ec_from_esr esr == 0x21

unfoldable pub is_kernel_data_abort : ℕ → Bool
is_kernel_data_abort esr = get_ec_from_esr esr == 0x25

unfoldable pub is_svc : ℕ → Bool
is_svc esr = get_ec_from_esr esr == 0x15
