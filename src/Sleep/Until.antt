-- ===== src/Sleep/Until.antt =====
-- How long msleep of kernel/sched.c and sys_nanosleep of kernel/isr.c sleep.
use tout_os.Base.{
  ℕ, ◌+◌, ◌-◌, ◌*◌, ◌/◌, ◌%◌, ◌^◌, ◌≤◌, ◌<◌, ◌≡◌, ◌≢◌, refl, ap, ◌∙◌, sym, subst, inl, inr, Bool,
  true, false, ◌&&◌, not, Option, none, some, List, [], ◌∷◌, ltb, leb, ◌==◌, if◌then◌else◌, ℤ, pos,
  to_int, to_int-pos, sub64, add32, arith, Bool-cases,
}
use tout_os.Sleep.{
  World, Resume, schedule_timeout, msleep_loop, msleep, nanosleep_loop, sys_nanosleep, go_to_sleep,
  not_negative, is_positive, woken, timespec_to_jiffies, tick_ms,
}
use tout_os.Sleep.Timeout.{IsAway, IsKept, schedule_timeout-IsAway, time_left}

-- The tick of the first time from `tick` on that is not before `end_tick`.
abbrev pub until : ℕ → ℕ → List Resume → Option ℕ
until end_tick tick [] = if leb end_tick tick then some tick else none
until end_tick tick (r ∷ rs) = if leb end_tick tick then some tick else until end_tick r.tick rs

pub data AllKept (fuel p : ℕ) : List Resume → Type 0 where
  no_resume : AllKept fuel p []
  and_resume :
      {r : Resume} {rs : List Resume}
      → IsKept fuel p r
      → r.tick < 2 ^ 31
      → AllKept fuel p rs
      → AllKept fuel p (r ∷ rs)

-- What a sleep gives: the tick at its end, with the timer gone, or it has not ended.
pub data Slept (fuel p : ℕ) : Option ℕ → Option (ℕ × World) → Type 0 where
  awake :
      {tick : ℕ} {w : World} → IsAway fuel p w.timers → Slept fuel p (some tick) (some (tick, w))
  asleep : Slept fuel p none none

module _ (fuel p proc end_tick : ℕ) (ne : p ≢ 0) (small : end_tick < 2 ^ 31) where
  -- one round, when the sleep is not over
  round :
      (tick : ℕ) (w : World) (r : Resume)
      → tick < end_tick
      → r.tick < 2 ^ 31
      → IsAway fuel p w.timers
      → IsKept fuel p r
      → (u : World) × (schedule_timeout fuel p proc (end_tick - tick) tick w r
          ≡ some (end_tick - r.tick, u))
        × IsAway fuel p u.timers
  round tick w r before lt away kept =
      let (u, e, away') =
        schedule_timeout-IsAway fuel p proc (end_tick - tick) tick w r ne away kept in
      let sum : end_tick - tick + tick ≡ end_tick = omega (arith, before) in
      let left : not_negative (to_int (sub64 ((end_tick - tick + tick) % 2 ^ 32) r.tick))
          ≡ end_tick - r.tick =
        ap (λ (x : ℕ). not_negative (to_int (sub64 (x % 2 ^ 32) r.tick))) sum
        ∙ time_left end_tick r.tick small lt in
      (u, e ∙ ap (λ (x : ℕ). some (x, u)) left, away')

  msleep_loop-Slept :
      (rs : List Resume) (tick : ℕ) (w : World)
      → AllKept fuel p rs
      → IsAway fuel p w.timers
      → Slept fuel p (until end_tick tick rs) (msleep_loop fuel p proc rs (end_tick - tick) tick w)
  unfolding msleep_loop
  msleep_loop-Slept [] tick w no_resume away = elim (Bool-cases (leb end_tick tick)) [
    | inl y ↦
        let z : (end_tick - tick == 0) ≡ true = ground (arith, y) in
        rw (y, z, if◌then◌else◌) (awake away)
    | inr n ↦
        let z : (end_tick - tick == 0) ≡ false = ground (arith, n) in
        rw (n, z, if◌then◌else◌) asleep
  ]
  msleep_loop-Slept (r ∷ rs) tick w (and_resume kept lt more) away =
      elim (Bool-cases (leb end_tick tick)) [
        | inl y ↦
            let z : (end_tick - tick == 0) ≡ true = ground (arith, y) in
            rw (y, msleep_loop, z, if◌then◌else◌) (awake away)
        | inr n ↦
            let z : (end_tick - tick == 0) ≡ false = ground (arith, n) in
            let (u, e, away') =
              round tick (go_to_sleep proc w) r (ground (arith, n)) lt away kept in
            rw (n, msleep_loop, z, e, if◌then◌else◌) (msleep_loop-Slept rs r.tick u more away')
      ]

  left_at :
      (tick : ℕ) → tick < 2 ^ 31 → not_negative (to_int (sub64 end_tick tick)) ≡ end_tick - tick
  left_at tick lt =
      let e : end_tick % 2 ^ 32 ≡ end_tick = omega (arith, small) in
      ap (λ (x : ℕ). not_negative (to_int (sub64 x tick))) (sym e)
      ∙ time_left end_tick tick small lt

  goes_on :
      (tick : ℕ)
      → tick < 2 ^ 31
      → (not (end_tick - tick == 0) && is_positive fuel p proc (to_int (sub64 end_tick tick)))
        ≡ ltb tick end_tick
  goes_on tick lt = elim (Bool-cases (ltb tick end_tick)) [
    | inl y ↦ ground (arith, y, lt, small)
    | inr n ↦ ground (arith, n, lt, small)
  ]

  -- the condition of the loop and the time that is left, as the code keeps them
  nanosleep_loop-Slept :
      (rs : List Resume) (done : Bool) (timeout : ℤ) (tick : ℕ) (w : World)
      → (not done && is_positive fuel p proc timeout) ≡ ltb tick end_tick
      → not_negative timeout ≡ end_tick - tick
      → AllKept fuel p rs
      → IsAway fuel p w.timers
      → Slept fuel p
          (until end_tick tick rs)
          (nanosleep_loop fuel p proc rs done timeout (pos end_tick) tick w)
  unfolding nanosleep_loop
  nanosleep_loop-Slept [] done timeout tick w goes left no_resume away =
      elim (Bool-cases (leb end_tick tick)) [
        | inl y ↦
            let z : ltb tick end_tick ≡ false = ground (arith, y) in
            rw (y, goes, z, if◌then◌else◌) (awake away)
        | inr n ↦
            let z : ltb tick end_tick ≡ true = ground (arith, n) in
            rw (n, goes, z, if◌then◌else◌) asleep
      ]
  nanosleep_loop-Slept (r ∷ rs) done timeout tick w goes left (and_resume kept lt more) away =
      elim (Bool-cases (leb end_tick tick)) [
        | inl y ↦
            let z : ltb tick end_tick ≡ false = ground (arith, y) in
            rw (y, nanosleep_loop, goes, z, if◌then◌else◌) (awake away)
        | inr n ↦
            let z : ltb tick end_tick ≡ true = ground (arith, n) in
            let (u, e, away') = round tick w r (ground (arith, n)) lt away kept in
            let t = to_int (sub64 end_tick r.tick) in
            let next : (not (end_tick - r.tick == 0) && is_positive fuel p proc t)
                ≡ ltb r.tick end_tick =
              goes_on r.tick lt in
            let left' : not_negative t ≡ end_tick - r.tick = left_at r.tick lt in
            rw (n, nanosleep_loop, goes, z, left, e, if◌then◌else◌)
              (nanosleep_loop-Slept rs (end_tick - r.tick == 0) t r.tick u next left' more away')
      ]

pub until-late :
    (end_tick tick e : ℕ) (rs : List Resume) → until end_tick tick rs ≡ some e → end_tick ≤ e
until-late end_tick tick e [] same = elim (Bool-cases (leb end_tick tick)) [
  | inl y ↦
      let at : some tick ≡ some e = sym (rw (y, if◌then◌else◌) refl) ∙ same in
      let e' : tick ≡ e = cc (at) in ground (arith, y, e')
  | inr n ↦ let bad : none ≡ some e = sym (rw (n, if◌then◌else◌) refl) ∙ same in absurd (cc (bad))
]
until-late end_tick tick e (r ∷ rs) same = elim (Bool-cases (leb end_tick tick)) [
  | inl y ↦
      let at : some tick ≡ some e = sym (rw (y, if◌then◌else◌) refl) ∙ same in
      let e' : tick ≡ e = cc (at) in ground (arith, y, e')
  | inr n ↦ until-late end_tick r.tick e rs (sym (rw (n, if◌then◌else◌) refl) ∙ same)
]

-- msleep, when the tick stays below 2 ^ 31 and the timers stay a list: it ends the first time that the task
-- runs again with at least the milliseconds asked for, in whole ticks, behind it, and its timer is
-- then out of the list; until then it does not end.
pub msleep-Slept :
    (fuel p proc : ℕ) (rs : List Resume) (msecs tick : ℕ) (w : World)
    → p ≢ 0
    → tick + msecs + tick_ms < 2 ^ 31
    → AllKept fuel p rs
    → IsAway fuel p w.timers
    → (end_tick : ℕ) × (msecs ≤ (end_tick - tick) * tick_ms)
      × ((end_tick - tick) * tick_ms < msecs + tick_ms)
      × Slept fuel p (until end_tick tick rs) (msleep fuel p proc rs msecs tick w)
unfolding msleep
msleep-Slept fuel p proc rs msecs tick w ne small kept away =
    let timeout = add32 msecs (tick_ms - 1) / tick_ms in
    let whole : add32 msecs (tick_ms - 1) ≡ msecs + 9 = omega (arith, small) in
    let same : timeout + tick - tick ≡ timeout = omega arith in
    (
      timeout + tick,
      omega (arith, whole),
      omega (arith, whole),
      subst
          (λ (t : ℕ).
            Slept fuel p (until (timeout + tick) tick rs) (msleep_loop fuel p proc rs t tick w))
          same
          (msleep_loop-Slept fuel p proc (timeout + tick) ne (omega (arith, whole, small)) rs tick w
            kept away),
    )

-- sys_nanosleep of a request that is not 0, when the tick stays below 2 ^ 31 and the timers stay a list: it
-- returns 0 the first time that the task runs again at least the time asked for, in whole ticks, after the
-- tick at its start, and its timer is then out of the list; until then it does not return.
pub sys_nanosleep-Slept :
    (fuel p proc : ℕ) (rs : List Resume) (tv_sec tv_nsec tick : ℕ) (w : World)
    → p ≢ 0
    → tv_nsec < 10 ^ 9
    → 0 < tv_sec + tv_nsec
    → tv_sec * 100 + 100 + tick < 2 ^ 31
    → AllKept fuel p rs
    → IsAway fuel p w.timers
    → (end_tick : ℕ) × (r : Option (ℕ × World)) × (tv_sec * 10 ^ 9 + tv_nsec
        ≤ (end_tick - tick) * 10 ^ 7)
      × ((end_tick - tick) * 10 ^ 7 < tv_sec * 10 ^ 9 + tv_nsec + 10 ^ 7)
      × (sys_nanosleep fuel p proc rs tv_sec tv_nsec tick w ≡ woken fuel p proc r)
      × Slept fuel p (until end_tick tick rs) r
unfolding sys_nanosleep
sys_nanosleep-Slept fuel p proc rs tv_sec tv_nsec tick w ne nsec some_time small kept away =
    let j = timespec_to_jiffies fuel p proc tv_sec tv_nsec in
    let lo : tv_sec * 10 ^ 9 + tv_nsec ≤ j * 10 ^ 7 = omega (arith, nsec, small) in
    let hi : j * 10 ^ 7 < tv_sec * 10 ^ 9 + tv_nsec + 10 ^ 7 = omega (arith, nsec, small) in
    let fits : j + tick < 2 ^ 31 = omega (arith, hi, nsec, small) in
    let some_ticks : 0 < j = omega (arith, lo, some_time) in
    let t : to_int j ≡ pos j = to_int-pos j (omega (arith, fits)) in
    let goes : ltb 0 j ≡ true = ground (arith, some_ticks) in
    let at : to_int (j + tick) ≡ pos (j + tick) = to_int-pos (j + tick) fits in
    let same : j + tick - tick ≡ j = omega arith in
    let before : ltb tick (j + tick) ≡ true = ground (arith, some_ticks) in
    (
      j + tick,
      nanosleep_loop fuel p proc rs false (pos j) (pos (j + tick)) tick (go_to_sleep proc w),
      omega (arith, lo),
      omega (arith, hi),
      rw (sys_nanosleep, t, goes, at, if◌then◌else◌) refl,
      nanosleep_loop-Slept fuel p proc (j + tick) ne fits rs false (pos j) tick (go_to_sleep proc w)
          (goes ∙ sym before) (sym same) kept away,
    )
