-- ===== src/CircularBuffer/Concurrent.antt =====
-- The concurrent buffer of lib/circular_buffer.c under any sequence of calls.
use tout_os.Base.{ℕ, ◌-◌, ◌≡◌, refl, ap, Bool, true, List, [], ◌∷◌, if◌then◌else◌, ℤ, ◌∙◌}
use tout_os.CircularBuffer.{
  Outcome, returns, ◌>>=◌, ConcurrentCbuf, is_negative, read_locked, write_locked,
}
use tout_os.CircularBuffer.Refine.{
  IsValid, contents, queue_write, queue_read, write_refines, read_refines,
}

-- a client's call
pub data Op : Type 0 where
  put : List ℕ → Op
  get : ℕ → Op

-- what it sees: the return value and the bytes delivered
abbrev pub Reply : Type 0
Reply = ℤ × List ℕ

pub step : ConcurrentCbuf → Op → Outcome (Reply × ConcurrentCbuf)
step c (put cs) = do (ret, c') ← write_locked c cs; returns ((ret, []), c')
step c (get n) = do (ret, cs, c') ← read_locked c n; returns ((ret, cs), c')

pub run : ConcurrentCbuf → List Op → Outcome (List Reply × ConcurrentCbuf)
unfolding step
run c [] = returns ([], c)
run c (o ∷ ops) = do (r, c') ← step c o; (rs, c'') ← run c' ops; returns (r ∷ rs, c'')

-- The log that is promised: a bounded queue, and a flag that a write was lost.
abbrev pub Log : Type 0
Log = List ℕ × Bool

abbrev pub log_step : ℕ → Log → Op → Reply × Log
log_step cap (q, lost) (put cs) =
    let (ret, q') = queue_write cap q cs in
    ((ret, []), (q', if is_negative ret then true else lost))
log_step cap (q, lost) (get n) = let (ret, cs, q') = queue_read q n in ((ret, cs), (q', lost))

abbrev pub log_run : ℕ → Log → List Op → List Reply × Log
log_run cap l [] = ([], l)
log_run cap l (o ∷ ops) =
    let (r, l') = log_step cap l o in let (rs, l'') = log_run cap l' ops in (r ∷ rs, l'')

abbrev pub view : ConcurrentCbuf → Log
view c = (contents c.cbuf, c.write_overflow)

step_refines :
    (c : ConcurrentCbuf) (o : Op)
    → IsValid c.cbuf
    → (c' : ConcurrentCbuf) × (step c o ≡ returns ((log_step (c.cbuf.size - 1) (view c) o).0, c'))
      × (view c' ≡ (log_step (c.cbuf.size - 1) (view c) o).1)
      × IsValid c'.cbuf
      × (c'.cbuf.size ≡ c.cbuf.size)
unfolding step write_locked read_locked
step_refines c (put cs) v =
    let (p', returned, stored, valid, same) = write_refines c.cbuf cs v in
    (
      record c {
        cbuf = p';
        write_overflow =
            if is_negative (queue_write (c.cbuf.size - 1) (contents c.cbuf) cs).0
            then true
            else c.write_overflow;
      },
      rw returned,
      rw stored,
      valid,
      same,
    )
step_refines c (get n) v =
    let (p', returned, stored, valid, same) = read_refines c.cbuf n v in
    (record c { cbuf = p' }, rw returned, rw stored, valid, same)

-- No sequence of calls tells a valid buffer from the log: the return values and delivered bytes are
-- those of the bounded queue, and `write_overflow` is set exactly when the log lost a write.
pub run_refines :
    (ops : List Op) (c : ConcurrentCbuf)
    → IsValid c.cbuf
    → (c' : ConcurrentCbuf) × (run c ops ≡ returns ((log_run (c.cbuf.size - 1) (view c) ops).0, c'))
      × (view c' ≡ (log_run (c.cbuf.size - 1) (view c) ops).1)
      × IsValid c'.cbuf
unfolding run
run_refines [] c v = (c, refl, refl, v)
run_refines (o ∷ ops) c v =
    let (c1, returned, seen, valid, same) = step_refines c o v in
    let (c2, rest, final, valid2) = run_refines ops c1 valid in
    let (r, l) = log_step (c.cbuf.size - 1) (view c) o in
    let e : log_run (c1.cbuf.size - 1) (view c1) ops ≡ log_run (c.cbuf.size - 1) l ops =
      ap (λ k. log_run (k - 1) (view c1) ops) same
      ∙ ap (λ x. log_run (c.cbuf.size - 1) x ops) seen in
    (
      c2,
      rw (returned, rest) (ap (λ (x : List Reply × Log). returns (r ∷ x.0, c2)) e),
      final ∙ ap (λ (x : List Reply × Log). x.1) e,
      valid2,
    )
