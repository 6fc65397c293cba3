-- ===== src/WaitQueue/Tests.antt =====
-- A reader that waits beside another one, over plain lists.
use tout_os.Base.{ℕ, zero, suc, ◌+◌, ◌≡◌, refl, true, List, [], ◌∷◌, ◌++◌, length, arith, pos, some}
use tout_os.LineDiscipline.{to_line_discipline}
use tout_os.LineDiscipline.Edit.{line, IsLine}
use tout_os.Sched.{boot, set_task_state, running, sleeping}
use tout_os.SystemCalls.Io.{read_stdin, has_line}
use tout_os.Timer.Chain.{remove}
use tout_os.WaitQueue.{ListOps, ListLaws}
use tout_os.WaitQueue.Reader.{
  Console, off, back, begin_read, look_again, press, set_state, Step, begins, sets_asleep,
  schedules, key, Reach, here, then_step,
}
use tout_os.WaitQueue.Wake.{IsQueued, Reach-IsQueued, Reach-woken}

abbrev plain : ListOps (List ℕ)
plain = record {
  init_list_head = [];
  list_add = λ t l. t ∷ l;
  list_del = λ t l. remove t l;
  entries = λ l. l;
}

plain-ListLaws : ListLaws plain
plain-ListLaws = record { none_at_first = refl; adds = λ t l. refl; deletes = λ t l. refl }

abbrev zeros : ℕ → List ℕ
zeros zero = []
zeros (suc n) = 0 ∷ zeros n

-- "a" was typed, and task 5 waits
abbrev console : Console (List ℕ)
console = record {
  line = record { uart_in_buf = 97 ∷ zeros 255; uib_index = 1 };
  uib_wq_head = 5 ∷ [];
  sched = boot;
}

console-IsLine : IsLine console.line
console-IsLine = (refl, omega arith)

-- the state in which task 3 is in `schedule`
abbrev waits : Console (List ℕ)
waits = record console {
  uib_wq_head = 3 ∷ 5 ∷ [];
  sched = set_task_state (some 3) (pos sleeping) boot;
}

abbrev asleep_twice : Console (List ℕ)
asleep_twice = set_state 3 sleeping waits

reaches_off : Reach plain 3 64 console (off, asleep_twice)
unfolding begin_read read_stdin
reaches_off = then_step (then_step (then_step here begins) sets_asleep) schedules

Reach-IsQueued_example : IsQueued plain plain-ListLaws 3 64 (5 ∷ []) (off, asleep_twice)
Reach-IsQueued_example =
    Reach-IsQueued plain plain-ListLaws 3 64 (5 ∷ []) console refl console-IsLine
      (off, asleep_twice) reaches_off

Reach-woken_example :
    Step plain 3 64
      (off, press plain 3 64 13 asleep_twice)
      (look_again plain 3 64 (press plain 3 64 13 asleep_twice))
    × ((look_again plain 3 64 (press plain 3 64 13 asleep_twice)).0
        ≡ back (pos (length (line console.line) + 1)) (line console.line ++ (10 ∷ [])))
    × (plain.entries ((look_again plain 3 64 (press plain 3 64 13 asleep_twice)).1).uib_wq_head
        ≡ 5 ∷ [])
    × ((((look_again plain 3 64 (press plain 3 64 13 asleep_twice)).1).sched.tasks 3).state
        ≡ running)
Reach-woken_example =
    Reach-woken plain plain-ListLaws 3 64 (5 ∷ []) console refl console-IsLine asleep_twice
      reaches_off (omega arith) (omega arith)

-- An enter key between spin_unlock_irqrestore and set_task_state.
abbrev missed : Console (List ℕ)
missed = set_state 3 sleeping (press plain 3 64 13 waits)

reaches_missed : Reach plain 3 64 console (off, missed)
unfolding begin_read read_stdin
reaches_missed =
    then_step (then_step (then_step (then_step here begins) (key 13)) sets_asleep) schedules

-- the reader sleeps, and a line is ready
lost_wake : (has_line missed.line ≡ true) × ((missed.sched.tasks 3).state ≡ sleeping)
unfolding press to_line_discipline set_task_state
lost_wake = (refl, refl)
