-- ===== src/Sleep/Tests.antt =====
-- A task that sleeps for 25 ms and is resumed twice.
use tout_os.Base.{
  ℕ, ◌+◌, ◌-◌, ◌*◌, ◌^◌, ◌≤◌, ◌<◌, ◌≡◌, refl, Option, some, List, [], ◌∷◌, arith, minus_one,
}
use tout_os.Timer.Chain.{end}
use tout_os.Sched.{boot}
use tout_os.Sleep.{World, Resume, msleep, sys_nanosleep, woken, tick_ms}
use tout_os.Sleep.Timeout.{IsAway}
use tout_os.Sleep.Until.{
  until, AllKept, no_resume, and_resume, Slept, msleep-Slept, sys_nanosleep-Slept,
}

abbrev no_timers : World
no_timers = record {
  timers = record {
    node = λ q. record { next = 0; expires = 0; function = 0; data_arg = 0 };
    head = 0;
  };
  sched = boot;
}

no_timers-IsAway : IsAway 5 4096 no_timers.timers
no_timers-IsAway = record { list = []; short = omega arith; away = refl; holds = end }

-- early, with the other tasks leaving all as it is, and late
abbrev resumes : List Resume
resumes = record { tick = 101; others = λ w. w } ∷ record { tick = 104; others = λ w. w } ∷ []

resumes-AllKept : AllKept 5 4096 resumes
resumes-AllKept =
    and_resume (λ w xs short h. (xs, short, h)) (omega arith)
      (and_resume (λ w xs short h. (xs, short, h)) (omega arith) no_resume)

msleep-Slept_example :
    (end_tick : ℕ) × (25 ≤ (end_tick - 100) * tick_ms)
    × ((end_tick - 100) * tick_ms < 25 + tick_ms)
    × Slept 5 4096 (until end_tick 100 resumes) (msleep 5 4096 0 resumes 25 100 no_timers)
msleep-Slept_example =
    msleep-Slept 5 4096 0 resumes 25 100 no_timers (omega arith) (omega arith) resumes-AllKept
      no_timers-IsAway

sys_nanosleep-Slept_example :
    (end_tick : ℕ) × (r : Option (ℕ × World)) × (0 * 10 ^ 9 + 25000000 ≤ (end_tick - 100) * 10 ^ 7)
    × ((end_tick - 100) * 10 ^ 7 < 0 * 10 ^ 9 + 25000000 + 10 ^ 7)
    × (sys_nanosleep 5 4096 0 resumes 0 25000000 100 no_timers ≡ woken 5 4096 0 r)
    × Slept 5 4096 (until end_tick 100 resumes) r
sys_nanosleep-Slept_example =
    sys_nanosleep-Slept 5 4096 0 resumes 0 25000000 100 no_timers (omega arith) (omega arith)
      (omega arith) (omega arith) resumes-AllKept no_timers-IsAway

-- a request of no time fails
no_time : sys_nanosleep 5 4096 0 resumes 0 0 100 no_timers ≡ some (minus_one, 100, no_timers)
unfolding sys_nanosleep
no_time = refl
