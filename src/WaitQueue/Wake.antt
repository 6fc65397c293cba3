-- ===== src/WaitQueue/Wake.antt =====
-- The reader of the standard input in its queue, read_stdin of kernel/isr.c with kernel/wait.c.
use tout_os.Base.{
  ℕ, ◌+◌, ◌<◌, ◌≡◌, refl, ap, ◌∙◌, sym, subst, inl, inr, Bool, true, false, List, [], ◌∷◌, ◌++◌,
  some, length, ltb, ◌==◌, if◌then◌else◌, ℤ, pos, arith, Bool-cases,
}
use tout_os.LineDiscipline.{LineBuffer, to_line_discipline}
use tout_os.LineDiscipline.Edit.{line, IsLine, to_line_discipline-edit}
use tout_os.Sched.{Sched, Task, set_task_state, running}
use tout_os.Sched.Slots.{put_self, put_other}
use tout_os.SystemCalls.Io.{
  Reading, sleeps, gives, has_line, read_stdin, read_stdin-line, edit-plain,
}
use tout_os.Timer.Chain.{remove}
use tout_os.WaitQueue.{ListOps, ListLaws, wake_all, wake_up}
use tout_os.WaitQueue.Reader.{
  Console, Reader, outside, unlocked, set_asleep, off, back, begun, begin_read, looked, look_again,
  press, Step, begins, sets_asleep, schedules, resumes, key, Reach, here, then_step,
}

-- the places at which the reader has its entry in the queue
abbrev pub is_waiting : Reader → Bool
is_waiting outside = false
is_waiting unlocked = true
is_waiting set_asleep = true
is_waiting off = true
is_waiting (back ret bytes) = false

-- what a read leaves
data IsRead : Reading → Type 0 where
  no_line : IsRead sleeps
  some_line : {ret : ℤ} {bytes : List ℕ} {l : LineBuffer} → IsLine l → IsRead (gives ret bytes l)

read_stdin-IsRead : (count : ℕ) (s : LineBuffer) → IsLine s → IsRead (read_stdin count s)
unfolding read_stdin
read_stdin-IsRead count s v = elim (Bool-cases (has_line s)) [
  | inr n ↦ rw (n, if◌then◌else◌) no_line
  | inl y ↦ elim (Bool-cases (ltb count s.uib_index)) [
    | inl few ↦ rw (y, few, if◌then◌else◌) (some_line v)
    | inr enough ↦ rw (y, enough, if◌then◌else◌) (some_line (v.0, omega arith))
  ]
]

set_running_other :
    (u t : ℕ) (s : Sched)
    → (s.tasks t).state ≡ running
    → ((set_task_state (some u) (pos running) s).tasks t).state ≡ running
unfolding set_task_state
set_running_other u t s e = elim (Bool-cases (t == u)) [
  | inl y ↦
      ap (λ (x : Task). x.state)
        (put_self s.tasks u (record (s.tasks u) { state = running }) t (ground (arith, y)))
  | inr n ↦
      ap (λ (x : Task). x.state)
        (put_other s.tasks u (record (s.tasks u) { state = running }) t (ground (arith, n)))
      ∙ e
]

set_running_self :
    (t : ℕ) (s : Sched) → ((set_task_state (some t) (pos running) s).tasks t).state ≡ running
unfolding set_task_state
set_running_self t s =
    ap (λ (x : Task). x.state) (put_self s.tasks t (record (s.tasks t) { state = running }) t refl)

wake_all-running :
    (ts : List ℕ) (t : ℕ) (s : Sched)
    → (s.tasks t).state ≡ running
    → ((wake_all ts s).tasks t).state ≡ running
unfolding wake_all
wake_all-running [] t s e = e
wake_all-running (u ∷ ts) t s e =
    wake_all-running ts t (set_task_state (some u) (pos running) s) (set_running_other u t s e)

remove-first : (t : ℕ) (l : List ℕ) → remove t (t ∷ l) ≡ l
remove-first t l = let y : (t == t) ≡ true = ground arith in rw (y, if◌then◌else◌) refl

module _ {L : Type 0} (ops : ListOps L) (laws : ListLaws ops) (t count : ℕ) (others : List ℕ) where
  -- The entry of the reader is in the queue exactly while it waits.
  pub record IsQueued (x : Reader × Console L) : Type 0 where
    pub queue : ops.entries (x.1).uib_wq_head ≡ (if is_waiting x.0 then t ∷ others else others)
    pub buffer : IsLine (x.1).line

  begun-IsQueued :
      (c : Console L) (r : Reading)
      → IsRead r
      → IsQueued (outside, c)
      → IsQueued (begun ops t count c r)
  begun-IsQueued c sleeps no_line q = record {
    queue = laws.adds t c.uib_wq_head ∙ ap (λ (l : List ℕ). t ∷ l) q.queue;
    buffer = q.buffer;
  }
  begun-IsQueued c (gives ret bytes l) (some_line v) q = record { queue = q.queue; buffer = v }

  looked-IsQueued :
      (c : Console L) (r : Reading)
      → IsRead r
      → IsQueued (off, c)
      → IsQueued (looked ops t count c r)
  looked-IsQueued c sleeps no_line q = record { queue = q.queue; buffer = q.buffer }
  looked-IsQueued c (gives ret bytes l) (some_line v) q = record {
    queue =
        laws.deletes t c.uib_wq_head
        ∙ ap (λ (m : List ℕ). remove t m) q.queue
        ∙ remove-first t others;
    buffer = v;
  }

  Step-IsQueued : {x y : Reader × Console L} → Step ops t count x y → IsQueued x → IsQueued y
  unfolding begin_read look_again press
  Step-IsQueued (begins {c}) q =
      begun-IsQueued c (read_stdin count c.line) (read_stdin-IsRead count c.line q.buffer) q
  Step-IsQueued (sets_asleep {c}) q = record { queue = q.queue; buffer = q.buffer }
  Step-IsQueued (schedules {c}) q = record { queue = q.queue; buffer = q.buffer }
  Step-IsQueued (resumes {c} awake) q =
      looked-IsQueued c (read_stdin count c.line) (read_stdin-IsRead count c.line q.buffer) q
  Step-IsQueued (key {r} {c} k) q = record {
    queue = q.queue;
    buffer = (to_line_discipline-edit k c.line q.buffer).0;
  }

  -- However the steps of a reader and the keys follow each other from a valid line buffer and a queue without
  -- the reader, the queue holds the entry of the reader, in front of the others, exactly while the reader
  -- waits, so that no entry is left of a call that has returned; the line buffer stays valid.
  pub Reach-IsQueued :
      (c0 : Console L)
      → ops.entries c0.uib_wq_head ≡ others
      → IsLine c0.line
      → (x : Reader × Console L) → Reach ops t count c0 x
      → IsQueued x
  Reach-IsQueued c0 e v _ here = record { queue = e; buffer = v }
  Reach-IsQueued c0 e v _ (then_step {x} r s) = Step-IsQueued s (Reach-IsQueued c0 e v x r)

  press-running :
      (c : Console L) → IsQueued (off, c) → ((press ops t count 13 c).sched.tasks t).state ≡ running
  unfolding press to_line_discipline wake_up wake_all
  press-running c q =
      subst (λ (l : List ℕ). ((wake_all l c.sched).tasks t).state ≡ running) (sym q.queue)
        (wake_all-running others t (set_task_state (some t) (pos running) c.sched)
          (set_running_self t c.sched))

  press-line :
      (c : Console L)
      → IsLine c.line
      → length (line c.line) < 255
      → IsLine (press ops t count 13 c).line
        × (line (press ops t count 13 c).line ≡ line c.line ++ (10 ∷ []))
  unfolding press
  press-line c v lt =
      let (v', e) = to_line_discipline-edit 13 c.line v in
      (v', e ∙ edit-plain 13 (line c.line) refl lt)

  look_again-line :
      (c : Console L) (xs : List ℕ)
      → IsLine c.line
      → line c.line ≡ xs ++ (10 ∷ [])
      → length xs < count
      → look_again ops t count c ≡ (
        back (pos (length xs + 1)) (xs ++ (10 ∷ [])),
        record c {
          line = record c.line { uib_index = 0 };
          uib_wq_head = ops.list_del t c.uib_wq_head;
          sched = set_task_state (some t) (pos running) c.sched;
        },
      )
  unfolding look_again
  look_again-line c xs v e enough = rw (look_again, read_stdin-line c.line xs count v e enough) refl

  -- When a reader, in whatever way it came there, is in `schedule`, the enter key on a line of fewer than 255
  -- bytes, and fewer than it asked for, makes it run again, and it then returns the line with '\n' behind
  -- it, is running, and leaves the queue as it was before the read.
  pub Reach-woken :
      (c0 : Console L)
      → ops.entries c0.uib_wq_head ≡ others
      → IsLine c0.line
      → (c : Console L) → Reach ops t count c0 (off, c)
      → length (line c.line) < 255
      → length (line c.line) < count
      → Step ops t count
          (off, press ops t count 13 c)
          (look_again ops t count (press ops t count 13 c))
        × ((look_again ops t count (press ops t count 13 c)).0
            ≡ back (pos (length (line c.line) + 1)) (line c.line ++ (10 ∷ [])))
        × (ops.entries ((look_again ops t count (press ops t count 13 c)).1).uib_wq_head ≡ others)
        × ((((look_again ops t count (press ops t count 13 c)).1).sched.tasks t).state ≡ running)
  unfolding press
  Reach-woken c0 e v c r lt enough =
      let q = Reach-IsQueued c0 e v (off, c) r in
      let d = press ops t count 13 c in
      let (v', ended) = press-line c q.buffer lt in
      let looks = look_again-line d (line c.line) v' ended enough in
      let left : ops.entries (ops.list_del t c.uib_wq_head) ≡ others =
        laws.deletes t c.uib_wq_head
        ∙ ap (λ (m : List ℕ). remove t m) q.queue
        ∙ remove-first t others in
      (
        resumes (press-running c q),
        ap (λ (x : Reader × Console L). x.0) looks,
        ap (λ (x : Reader × Console L). ops.entries (x.1).uib_wq_head) looks ∙ left,
        ap (λ (x : Reader × Console L). ((x.1).sched.tasks t).state) looks
            ∙ set_running_self t d.sched,
      )
