-- ===== src/Timer.antt =====
-- The list of timers, kernel/timer.c. The timers are in a store by address, 0 for NULL, and are linked
-- by `next` from `head`. The functions take `timerlist_lock` for the whole of their work.
pub mod Chain
pub mod Unlink
pub mod Expire
mod Tests
use tout_os.Base.{
  ℕ, zero, suc, ◌+◌, ◌-◌, ◌^◌, Bool, true, false, Option, none, some, List, [], ◌∷◌, ◌==◌,
  if◌then◌else◌,
}

-- struct timer; `function` is the number of the function that is called
pub record TimerNode : Type 0 where
  pub next : ℕ
  pub expires : ℕ
  pub function : ℕ
  pub data_arg : ℕ

-- the store of timers and the static variable `head`
pub record Timers : Type 0 where
  pub node : ℕ → TimerNode
  pub head : ℕ

abbrev pub put_node : (ℕ → TimerNode) → ℕ → TimerNode → ℕ → TimerNode
put_node node p t q = if q == p then t else node q

abbrev pub set_next : (ℕ → TimerNode) → ℕ → ℕ → ℕ → TimerNode
set_next node p n = put_node node p (record (node p) { next = n })

unfoldable pub init_timer : ℕ → Timers → Timers
init_timer p s = if p == 0 then s else record s {
  node = put_node s.node p (record { next = 0; expires = 0; function = 0; data_arg = 0 });
}

-- `_add_timer`
unfoldable pub link_timer : ℕ → Timers → Timers
link_timer p s = record { node = set_next s.node p s.head; head = p }

unfoldable pub add_timer : ℕ → Timers → Timers
add_timer p s = if p == 0 then s else link_timer p s

-- the three assignments in the loop of `_del_timer`, where `cur` was found after `prev`
abbrev pub cut_timer : ℕ → ℕ → Timers → Timers
cut_timer prev cur s =
    let n = (s.node cur).next in
    let node = if prev == 0 then s.node else set_next s.node prev n in
    let head = if s.head == cur then (node cur).next else s.head in
    record { node = set_next node cur 0; head = head }

-- The loop of `_del_timer`; `none` when the fuel is too little.
unfoldable pub del_loop : ℕ → ℕ → ℕ → ℕ → Timers → Option Timers
del_loop zero p prev cur s = none
del_loop (suc fuel) p prev cur s = elim (cur == 0) [
  | true ↦ some s
  | false ↦ elim (cur == p) [
    | true ↦ some (cut_timer prev cur s)
    | false ↦ del_loop fuel p cur ((s.node cur).next) s
  ]
]

-- `_del_timer`
unfoldable pub unlink_timer : ℕ → ℕ → Timers → Option Timers
unlink_timer fuel p s = del_loop fuel p 0 s.head s

unfoldable pub del_timer : ℕ → ℕ → Timers → Option Timers
del_timer fuel p s = if p == 0 then some s else unlink_timer fuel p s

-- `_mod_timer` and `mod_timer`
unfoldable pub mod_timer : ℕ → ℕ → ℕ → Timers → Option Timers
mod_timer fuel p expires s = elim (p == 0) [
  | true ↦ some s
  | false ↦ elim (unlink_timer fuel p s) [
    | none ↦ none
    | some t ↦ some (
        link_timer p
          (record t { node = put_node t.node p (record (t.node p) { expires = expires }) }))
  ]
]

-- What a timer's function does is a parameter: it may add, change and delete timers.
module _ (call : ℕ → ℕ → Timers → Timers) where
  -- the loop of `run_timer_softirq` at `cur`, with the addresses of the timers that were fired
  unfoldable pub run_loop : ℕ → ℕ → ℕ → Timers → Option (List ℕ × Timers)
  run_loop zero tick cur s = none
  run_loop (suc fuel) tick cur s = elim (cur == 0) [
    | true ↦ some ([], s)
    | false ↦ elim ((s.node cur).expires == tick) [
      | false ↦ run_loop fuel tick ((s.node cur).next) s
      | true ↦ elim (unlink_timer (suc fuel) cur s) [
        | none ↦ none
        | some t ↦
            let t' = call ((t.node cur).function) ((t.node cur).data_arg) t in
            elim (run_loop fuel tick t'.head t') [
              | none ↦ none
              | some (fired, u) ↦ some (cur ∷ fired, u)
            ]
      ]
    ]
  ]

  unfoldable pub run_timer_softirq : ℕ → ℕ → Timers → Option (List ℕ × Timers)
  run_timer_softirq fuel tick s = run_loop fuel tick s.head s
