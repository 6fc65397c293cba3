-- ===== src/Timer/Tests.antt =====
-- Runs of kernel/timer.c, and its theorems at concrete inputs.
use tout_os.Base.{◌≡◌, refl, some, if◌then◌else◌, ◌==◌, arith, [], ◌∷◌}
use tout_os.Timer.{Timers, link_timer, run_timer_softirq}
use tout_os.Timer.Chain.{end, link_timer-Chain}
use tout_os.Timer.Unlink.{Holds}
use tout_os.Timer.Expire.{select, keep, run_timer_softirq-Fired}

abbrev no_timers : Timers
no_timers = record {
  node = λ p. record { next = 0; expires = if p == 20 then 9 else 5; function = p; data_arg = 0 };
  head = 0;
}

-- the timers at 10, 20 and 30
abbrev three : Timers
three = link_timer 10 (link_timer 20 (link_timer 30 no_timers))

three-Holds : Holds three (10 ∷ 20 ∷ 30 ∷ [])
three-Holds =
    link_timer-Chain 10 (link_timer 20 (link_timer 30 no_timers)) (20 ∷ 30 ∷ []) (omega arith) refl
      (link_timer-Chain 20 (link_timer 30 no_timers) (30 ∷ []) (omega arith) refl
        (link_timer-Chain 30 no_timers [] (omega arith) refl end))

run_timer_softirq-Fired_example :
    (u : Timers) × (run_timer_softirq (λ f d t. t) 16 5 three
      ≡ some (select (λ x. (three.node x).expires == 5) (10 ∷ 20 ∷ 30 ∷ []), u))
    × Holds u (keep (λ x. (three.node x).expires == 5) (10 ∷ 20 ∷ 30 ∷ []))
run_timer_softirq-Fired_example =
    run_timer_softirq-Fired (λ f d t. t) 5 (λ f d t. refl) 16 three (10 ∷ 20 ∷ 30 ∷ []) three-Holds
      (omega arith)
