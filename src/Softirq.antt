-- ===== src/Softirq.antt =====
-- kernel/softirq.c: the pending bits and the nesting count of each core, and the actions. A pending word
-- is a map from its bits; `softirq_vec` holds the number of the action, `none` for NULL.
pub mod Run
mod Tests
use tout_os.Base.{
  ℕ, zero, suc, ◌+◌, ◌-◌, Bool, true, false, Option, none, some, List, [], ◌∷◌, ◌++◌, ltb, ◌==◌,
  if◌then◌else◌, ℤ, pos, negsuc,
}

abbrev pub max_num_softirq : ℕ
max_num_softirq = 1

pub record Softirqs : Type 0 where
  pub softirq_vec : ℕ → Option ℕ
  pub nested_softirq_count : ℕ → ℕ
  pub pending : ℕ → ℕ → Bool

unfoldable pub open_softirq : ℤ → Option ℕ → Softirqs → Softirqs
open_softirq (negsuc n) action s = s
open_softirq (pos nr) none s = s
open_softirq (pos nr) (some a) s =
    if ltb nr max_num_softirq
    then record s { softirq_vec = λ i. if i == nr then some a else s.softirq_vec i }
    else s

-- `raise_softirq` and `raise_softirq_irqoff` on the core `cpu`
unfoldable pub raise_softirq : ℕ → ℕ → Softirqs → Softirqs
raise_softirq cpu nr s =
    if ltb nr max_num_softirq
    then record s {
      pending =
          λ c i. if c == cpu then (if i == nr then true else s.pending c i) else s.pending c i;
    }
    else s

-- What an action does is a parameter; interrupts are on while it runs, so that it may raise others.
module _ {S : Type 0} (call : ℕ → Softirqs × S → Softirqs × S) where
  -- The loop over the pending word `w` at bit `i`, with `k` bits left; `none` is a call of NULL.
  unfoldable pub action_loop : ℕ → ℕ → (ℕ → Bool) → Softirqs × S → Option (Softirqs × S)
  action_loop zero i w s = some s
  action_loop (suc k) i w s = elim (w i) [
    | false ↦ action_loop k (i + 1) w s
    | true ↦ elim (s.0.softirq_vec i) [ none ↦ none | some a ↦ action_loop k (i + 1) w (call a s) ]
  ]

  abbrev pub put_count : Softirqs → ℕ → ℕ → Softirqs
  put_count s cpu n = record s {
    nested_softirq_count = λ c. if c == cpu then n else s.nested_softirq_count c;
  }

  -- nothing pending on the core
  abbrev pub take_pending : Softirqs → ℕ → Softirqs
  take_pending s cpu = record s { pending = λ c i. if c == cpu then false else s.pending c i }

  unfoldable pub do_softirq : ℕ → Softirqs × S → Option (Softirqs × S)
  do_softirq cpu (s, x) = elim (s.nested_softirq_count cpu == 0) [
    | false ↦ some (s, x)
    | true ↦
        elim (action_loop max_num_softirq 0 (s.pending cpu)
          (take_pending (put_count s cpu (s.nested_softirq_count cpu + 1)) cpu, x)) [
            | none ↦ none
            | some (t, y) ↦ some (put_count t cpu (t.nested_softirq_count cpu - 1), y)
          ]
  ]
