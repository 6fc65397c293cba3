-- ===== src/Interrupts/Tests.antt =====
-- The theorem on irq_handler of kernel/isr.c at a concrete input.
use tout_os.Base.{ℕ, ◌+◌, ◌≡◌, true, arith, ◌&&◌, ◌||◌, not, ◌==◌, if◌then◌else◌}
use tout_os.Interrupts.{Counters, irq_handler, irq_timer, irq_spurious}
use tout_os.Interrupts.Account.{irq_handler-time}

abbrev fresh : Counters
fresh = record { irq_trigger_count = λ i. 0; stime = 3; utime = 4 }

abbrev timer_number : ℕ
timer_number = 30

abbrev one_pid : ℕ
one_pid = 1

irq_handler-time_example :
    let h = irq_handler 30 true 1 fresh in
    (h.counters.stime ≡ fresh.stime + (if (timer_number == irq_timer) && not true then 1 else 0))
    × (h.counters.utime ≡ fresh.utime + (if (timer_number == irq_timer) && true then 1 else 0))
    × (h.scheduled ≡ ((timer_number == irq_timer) && (true || (one_pid == 0))))
    × (h.ended ≡ not (timer_number == irq_spurious))
irq_handler-time_example = irq_handler-time 30 true 1 fresh (omega arith) (omega arith)
