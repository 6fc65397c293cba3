-- ===== src/CircularBuffer/Interleave.antt =====
-- One writer and one reader of lib/circular_buffer.c at the same time, a byte access to a step. The
-- two locks of the concurrent buffer admit one call of each kind, and each call publishes its
-- pointer after its copy loop. Accesses are taken to happen in the order of the program.
pub mod Order
use tout_os.Base.{
  ℕ, zero, suc, ◌+◌, ◌-◌, ◌<◌, ◌≤◌, ◌≡◌, refl, ap, ◌∙◌, sym, Bool, true, false, List, [], ◌∷◌, ◌++◌,
  length, take, drop, min, get_or, set, arith, append_assoc, length-append, append-nil,
}
use tout_os.CircularBuffer.{CircularBuffer, next, no_room, store_len}
use tout_os.CircularBuffer.Refine.{IsValid, contents, length-contents}
use tout_os.CircularBuffer.Window.{window, advance}

-- A call of `write_circular_buffer` on its way: the bytes copied, those left, its local `wp`.
pub data Writer : Type 0 where
  no_write : Writer
  copying : List ℕ → List ℕ → ℕ → Writer

-- A call of `read_circular_buffer` on its way: the bytes taken, how many are left, its local `rp`.
pub data Reader : Type 0 where
  no_read : Reader
  taking : List ℕ → ℕ → ℕ → Reader

-- `written` and `delivered` record the bytes of the finished writes and reads.
pub record Shared : Type 0 where
  pub cbuf : CircularBuffer
  pub writer : Writer
  pub reader : Reader
  pub written : List ℕ
  pub delivered : List ℕ

pub data Step (s : Shared) : Shared → Type 0 where
  write_begin :
      (cs : List ℕ)
      → s.writer ≡ no_write
      → no_room s.cbuf (length cs) ≡ false
      → Step s (record s { writer = copying [] cs s.cbuf.wp })
  write_byte :
      (copied cs : List ℕ) (c wp : ℕ)
      → s.writer ≡ copying copied (c ∷ cs) wp
      → Step s (record s {
        cbuf = record s.cbuf { buffer = set s.cbuf.buffer wp c };
        writer = copying (copied ++ (c ∷ [])) cs (next s.cbuf.size wp);
      })
  write_end :
      (copied : List ℕ) (wp : ℕ)
      → s.writer ≡ copying copied [] wp
      → Step s (record s {
        cbuf = record s.cbuf { wp = wp };
        writer = no_write;
        written = s.written ++ copied;
      })
  read_begin :
      (n : ℕ)
      → s.reader ≡ no_read
      → Step s (record s { reader = taking [] (min n (store_len s.cbuf)) s.cbuf.rp })
  read_byte :
      (taken : List ℕ) (n rp : ℕ)
      → s.reader ≡ taking taken (suc n) rp
      → Step s (record s {
        reader = taking (taken ++ (get_or s.cbuf.buffer rp 0 ∷ [])) n (next s.cbuf.size rp);
      })
  read_end :
      (taken : List ℕ) (rp : ℕ)
      → s.reader ≡ taking taken 0 rp
      → Step s (record s {
        cbuf = record s.cbuf { rp = rp };
        reader = no_read;
        delivered = s.delivered ++ taken;
      })

pub data Reach (s : Shared) : Shared → Type 0 where
  here : Reach s s
  then_step : {t u : Shared} → Reach s t → Step t u → Reach s u

-- what holds of a write on its way
abbrev pub WriterOk : CircularBuffer → Writer → Type 0
WriterOk p no_write = Unit {0}
WriterOk p (copying copied cs wp) =
    (store_len p + length copied + length cs < p.size)
    × (wp ≡ advance p.size p.rp (store_len p + length copied))
    × (window p.size p.buffer p.rp (store_len p + length copied) ≡ contents p ++ copied)

-- what holds of a read on its way
abbrev pub ReaderOk : CircularBuffer → Reader → Type 0
ReaderOk p no_read = Unit {0}
ReaderOk p (taking taken n rp) =
    (length taken + n ≤ store_len p)
    × (rp ≡ advance p.size p.rp (length taken))
    × (taken ≡ window p.size p.buffer p.rp (length taken))

-- The bytes written are those delivered and those held, in this order.
pub record IsOrdered (s : Shared) : Type 0 where
  pub valid : IsValid s.cbuf
  pub fifo : s.written ≡ s.delivered ++ contents s.cbuf
  pub writing : WriterOk s.cbuf s.writer
  pub reading : ReaderOk s.cbuf s.reader
