-- ===== src/Mutex/Tests.antt =====
-- Runs of kernel/mutex.c, and its theorems at concrete inputs.
use tout_os.Base.{ℕ, true, false, none, ◌≡◌, refl, arith}
use tout_os.Mutex.{
  Mutex, acquired, asleep, mutex_lock_round, mutex_unlock, get_next_waiting, waiting_loop,
  init_mutex, set_bit,
}
use tout_os.Mutex.Exclusion.{
  Tasks, calls, enters, sleeps, begin, Reach, start, then_step, Reach-exclusion, put_phase, trying,
  sleeping, inside,
}
use tout_os.Mutex.Fair.{IsWaitable}
use tout_os.Mutex.Progress.{Goes, Reach-progress}

abbrev taken_mutex : Mutex
taken_mutex = record { locked = true; waiting = λ i. false }

abbrev one_trying : Tasks
one_trying = record { mutex = init_mutex; phase = put_phase begin.phase 3 trying }

abbrev one_inside : Tasks
one_inside = record { mutex = taken_mutex; phase = put_phase one_trying.phase 3 inside }

takes_it : mutex_lock_round 3 init_mutex ≡ acquired taken_mutex
unfolding mutex_lock_round init_mutex
takes_it = refl

one_inside-Reach : Reach IsWaitable one_inside
one_inside-Reach =
    then_step {s = one_trying}
      (then_step {s = begin} start (calls 3 (omega arith, omega arith) refl))
      (enters 3 refl takes_it)

abbrev holder : ℕ
holder = 3

Reach-exclusion_example : (holder ≡ holder) × (one_inside.mutex.locked ≡ true)
Reach-exclusion_example =
    Reach-exclusion IsWaitable one_inside holder holder one_inside-Reach refl refl

abbrev waited_mutex : Mutex
waited_mutex = record { locked = true; waiting = set_bit (λ i. false) 5 true }

abbrev other_trying : Tasks
other_trying = record { mutex = taken_mutex; phase = put_phase one_inside.phase 5 trying }

abbrev one_asleep : Tasks
one_asleep = record { mutex = waited_mutex; phase = put_phase other_trying.phase 5 sleeping }

sleeps_on_it : mutex_lock_round 5 taken_mutex ≡ asleep waited_mutex
unfolding mutex_lock_round
sleeps_on_it = refl

one_asleep-Reach : Reach IsWaitable one_asleep
one_asleep-Reach =
    then_step {s = other_trying}
      (then_step {s = one_inside} one_inside-Reach (calls 5 (omega arith, omega arith) refl))
      (sleeps 5 refl sleeps_on_it)

Reach-progress_example : Goes one_asleep
Reach-progress_example = Reach-progress one_asleep 5 one_asleep-Reach refl

-- The task with the pid 32, which the bitmap does not hold, is not woken.
lost_wakeup :
    (mutex_unlock (record { locked = true; waiting = set_bit (λ i. false) 32 true })).0 ≡ none
unfolding mutex_unlock get_next_waiting waiting_loop
lost_wakeup = refl
