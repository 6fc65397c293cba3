-- ===== src/CircularBuffer/Tests.antt =====
-- Runs of lib/circular_buffer.c at concrete buffers.
use tout_os.Base.{◌≡◌, refl, ◌++◌, true, false, none, some, List, [], ◌∷◌, pos, minus_one, arith}
use tout_os.CircularBuffer.{
  CircularBuffer, fault, returns, ConcurrentCbuf, init_circular_buffer, write_circular_buffer,
  read_circular_buffer, store_len, write_body, read_body, no_room, read_loop,
}
use tout_os.CircularBuffer.Refine.{IsValid, contents, init-IsValid}
use tout_os.CircularBuffer.Concurrent.{Op, put, get, run, view, log_run, run_refines}
use tout_os.CircularBuffer.Interleave.{
  Shared, no_write, no_read, copying, Reach, here, then_step, write_begin, write_byte, IsOrdered,
}
use tout_os.CircularBuffer.Interleave.Order.{Reach-fifo}

-- 7, 8 and then 9 round the end of a storage of four bytes
abbrev wrapped : CircularBuffer
wrapped = record { buffer = 9 ∷ 0 ∷ 7 ∷ 8 ∷ []; size = 4; rp = 2; wp = 1 }

abbrev log : ConcurrentCbuf
log = record { cbuf = wrapped; write_overflow = false }

wrapped-IsValid : IsValid wrapped
wrapped-IsValid = omega arith

contents-wrapped : contents wrapped ≡ 7 ∷ 8 ∷ 9 ∷ []
unfolding store_len
contents-wrapped = refl

null_write_faults : write_circular_buffer none (some (1 ∷ [])) ≡ fault
unfolding write_circular_buffer
null_write_faults = refl

read_runs :
    read_circular_buffer (some wrapped) true 2
    ≡ returns (pos 2, 7 ∷ 8 ∷ [], record wrapped { rp = 0 })
unfolding read_circular_buffer read_body store_len read_loop
read_runs = refl

write_refuses : write_circular_buffer (some wrapped) (some (5 ∷ [])) ≡ returns (minus_one, wrapped)
unfolding write_circular_buffer write_body no_room
write_refuses = refl

init-IsValid_example :
    (q : CircularBuffer) × (init_circular_buffer (some wrapped) (some (0 ∷ 0 ∷ 0 ∷ [])) 3 ≡ some q)
    × IsValid q
    × (contents q ≡ [])
init-IsValid_example = init-IsValid wrapped (0 ∷ 0 ∷ 0 ∷ []) (omega arith) (omega arith)

abbrev script : List Op
script = get 1 ∷ put (5 ∷ []) ∷ put (6 ∷ []) ∷ get 9 ∷ []

run_refines_example :
    (c : ConcurrentCbuf) × (run log script ≡ returns ((log_run 3 (view log) script).0, c))
    × (view c ≡ (log_run 3 (view log) script).1)
    × IsValid c.cbuf
run_refines_example = run_refines script log wrapped-IsValid

script_loses_one_write :
    log_run 3 (7 ∷ 8 ∷ 9 ∷ [], false) script
    ≡ ((pos 1, 7 ∷ []) ∷ (pos 0, []) ∷ (minus_one, []) ∷ (pos 3, 8 ∷ 9 ∷ 5 ∷ []) ∷ [], ([], true))
script_loses_one_write = refl

abbrev half_full : CircularBuffer
half_full = record { buffer = 9 ∷ 0 ∷ 7 ∷ 8 ∷ []; size = 4; rp = 2; wp = 0 }

abbrev quiet : Shared
quiet = record {
  cbuf = half_full;
  writer = no_write;
  reader = no_read;
  written = 1 ∷ 7 ∷ 8 ∷ [];
  delivered = 1 ∷ [];
}

quiet-IsOrdered : IsOrdered quiet
unfolding store_len
quiet-IsOrdered = record { valid = omega arith; fifo = refl; writing = tt; reading = tt }

-- a reader begins between the first store of a writer and its publication
abbrev busy : Shared
busy = record quiet {
  cbuf = record half_full { buffer = 5 ∷ 0 ∷ 7 ∷ 8 ∷ [] };
  writer = copying (5 ∷ []) [] 1;
}

quiet_to_busy : Reach quiet busy
unfolding no_room
quiet_to_busy =
    then_step (then_step here (write_begin (5 ∷ []) refl refl)) (write_byte [] [] 5 0 refl)

Reach-fifo_example : busy.written ≡ busy.delivered ++ contents busy.cbuf
Reach-fifo_example = Reach-fifo quiet-IsOrdered quiet_to_busy
