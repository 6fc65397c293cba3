-- ===== src/Softirq/Tests.antt =====
-- A run of kernel/softirq.c, and its theorem at a concrete input.
use tout_os.Base.{ℕ, ◌+◌, refl, false, none, some, pos}
use tout_os.Softirq.{Softirqs, open_softirq, raise_softirq, do_softirq}
use tout_os.Softirq.Run.{do_softirq-SoftirqRun, SoftirqRun}

-- the timer's action is set and pending on core 0
abbrev raised : Softirqs
raised = raise_softirq 0 0 (
    open_softirq (pos 0) (some 7)
      (record { softirq_vec = λ i. none; nested_softirq_count = λ c. 0; pending = λ c i. false }))

-- counts the actions that were run
abbrev count_calls : ℕ → Softirqs × ℕ → Softirqs × ℕ
count_calls a (s, n) = (s, n + a)

do_softirq-SoftirqRun_example :
    SoftirqRun count_calls 0 raised 0 (do_softirq count_calls 0 (raised, 0))
do_softirq-SoftirqRun_example = do_softirq-SoftirqRun count_calls (λ a s c. refl) 0 raised 0
