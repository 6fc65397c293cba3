-- ===== src/Sleep/Timeout.antt =====
-- One schedule_timeout of kernel/sched.c, on the list of timers.
use tout_os.Base.{
  ℕ, ◌+◌, ◌-◌, ◌%◌, ◌^◌, ◌≤◌, ◌<◌, ◌≡◌, ◌≢◌, refl, ap, sym, subst, inl, inr, true, false, some,
  List, [], ◌∷◌, length, ltb, ◌==◌, if◌then◌else◌, to_int, sub64, arith, Bool-cases,
}
use tout_os.Timer.{Timers, TimerNode, init_timer, add_timer, link_timer, put_node}
use tout_os.Timer.Chain.{Chain, link, mem, remove, mem-apart, Chain-frame, link_timer-Chain}
use tout_os.Timer.Unlink.{Holds, del_timer-Unlinked}
use tout_os.Sleep.{
  World, Resume, arm, set_timer, schedule_timeout, not_negative, process_timeout_function,
}

-- The timer at `p` is not in the list, and one more timer leaves the list short enough.
pub record IsAway (fuel p : ℕ) (s : Timers) : Type 0 where
  pub list : List ℕ
  pub short : length list + 1 < fuel
  pub away : mem p list ≡ false
  pub holds : Holds s list

-- Whatever happens until the task runs again, the timers are a list, short enough without the one at `p`.
abbrev pub IsKept : ℕ → ℕ → Resume → Type 0
IsKept fuel p r =
    (w : World) (xs : List ℕ)
    → length (remove p xs) + 1 < fuel
    → Holds w.timers xs
    → (ys : List ℕ) × (length (remove p ys) + 1 < fuel) × Holds (r.others w).timers ys

remove-away :
    (node : ℕ → TimerNode) (h p : ℕ) (xs : List ℕ) → Chain node h xs → mem p (remove p xs) ≡ false
remove-away node h p [] c = refl
remove-away node h p (x ∷ xs) (link ne once c) = elim (Bool-cases (x == p)) [
  | inl y ↦
      let e : x ≡ p = ground (arith, y) in
      rw (y, if◌then◌else◌) (subst (λ (k : ℕ). mem k xs ≡ false) e once)
  | inr z ↦
      let z' : (p == x) ≡ false = ground (arith, z) in
      rw (z, z', if◌then◌else◌) (remove-away node (node x).next p xs c)
]

remove-length : (p : ℕ) (xs : List ℕ) → length xs ≤ length (remove p xs) + 1
remove-length p [] = omega arith
remove-length p (x ∷ xs) = elim (Bool-cases (x == p)) [
  | inl y ↦ rw (y, if◌then◌else◌) (omega arith)
  | inr z ↦ let le = remove-length p xs in rw (z, if◌then◌else◌) (omega (arith, le))
]

remove-first : (p : ℕ) (xs : List ℕ) → remove p (p ∷ xs) ≡ xs
remove-first p xs = let y : (p == p) ≡ true = ground arith in rw (y, if◌then◌else◌) refl

-- a node that is not in the list may be written
put_node-Holds :
    (s : Timers) (p : ℕ) (t : TimerNode) (xs : List ℕ)
    → mem p xs ≡ false
    → Holds s xs
    → Holds (record s { node = put_node s.node p t }) xs
put_node-Holds s p t xs away h =
    Chain-frame s.node (put_node s.node p t) s.head xs
      (λ q m.
        let z : (q == p) ≡ false = let ne = mem-apart q p xs m away in ground (arith, ne) in
        rw (z, if◌then◌else◌) refl)
      h

-- the list with the timer in front
arm-Holds :
    (fuel p proc expires : ℕ) (w : World) (xs : List ℕ)
    → p ≢ 0
    → mem p xs ≡ false
    → Holds w.timers xs
    → Holds (arm fuel p proc expires w).timers (p ∷ xs)
unfolding init_timer add_timer
arm-Holds fuel p proc expires w xs ne away h =
    let z : (p == 0) ≡ false = ground (arith, ne) in
    let cleared : Timers = record w.timers {
      node =
          put_node w.timers.node p (record { next = 0; expires = 0; function = 0; data_arg = 0 });
    } in
    let armed : TimerNode = record (cleared.node p) {
      expires = expires;
      function = process_timeout_function;
      data_arg = proc;
    } in
    let set = set_timer p expires proc cleared in
    let same : (arm fuel p proc expires w).timers ≡ link_timer p set =
      rw (add_timer, init_timer, z, if◌then◌else◌) refl in
    subst (λ (t : Timers). Holds t (p ∷ xs)) (sym same)
      (link_timer-Chain p set xs ne away
        (put_node-Holds cleared p armed xs away (put_node-Holds w.timers p _ xs away h)))

-- `schedule_timeout` ends, leaves its timer out of the list, and returns what is left of the time.
pub schedule_timeout-IsAway :
    (fuel p proc timeout tick : ℕ) (w : World) (r : Resume)
    → p ≢ 0
    → IsAway fuel p w.timers
    → IsKept fuel p r
    → (u : World) × (schedule_timeout fuel p proc timeout tick w r
        ≡ some (not_negative (to_int (sub64 ((timeout + tick) % 2 ^ 32) r.tick)), u))
      × IsAway fuel p u.timers
unfolding schedule_timeout
schedule_timeout-IsAway fuel p proc timeout tick w r ne away kept =
    let w' = arm fuel p proc ((timeout + tick) % 2 ^ 32) w in
    let short = away.short in
    let first = ap (λ (l : List ℕ). length l) (remove-first p away.list) in
    let (ys, few, held) =
      kept w' (p ∷ away.list) (omega (arith, short, first))
        (arm-Holds fuel p proc ((timeout + tick) % 2 ^ 32) w away.list ne away.away away.holds) in
    let le = remove-length p ys in
    let (t, e, left, _, _) =
      del_timer-Unlinked fuel p (r.others w').timers ys (omega (arith, few, le)) ne held in
    (
      record (r.others w') { timers = t },
      rw (schedule_timeout, e) refl,
      record { list = remove p ys; short = few; away = remove-away _ _ p ys held; holds = left },
    )

-- Without a wrap the time that is left is the distance to the end.
pub time_left :
    (expires tick : ℕ)
    → expires < 2 ^ 31
    → tick < 2 ^ 31
    → not_negative (to_int (sub64 (expires % 2 ^ 32) tick)) ≡ expires - tick
time_left expires tick lt lt' = elim (Bool-cases (ltb expires tick)) [
  | inl y ↦ ground (arith, y, lt, lt')
  | inr z ↦ ground (arith, z, lt, lt')
]
