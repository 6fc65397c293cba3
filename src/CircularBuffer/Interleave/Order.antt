-- ===== src/CircularBuffer/Interleave/Order.antt =====
-- No interleaving of a writer and a reader of lib/circular_buffer.c loses, repeats or reorders a
-- byte.
use tout_os.Base.{
  ℕ, suc, ◌+◌, ◌<◌, ◌≤◌, ◌≡◌, refl, ap, ◌∙◌, sym, List, [], ◌∷◌, ◌++◌, length, take, drop, min,
  get_or, set, arith, append_assoc, length-append, append-nil, drop-append, take-append-drop,
  length-set, false,
}
use native.Mathlib.Nat.{add-zero}
use tout_os.CircularBuffer.{CircularBuffer, next, no_room, store_len}
use tout_os.CircularBuffer.Refine.{
  IsValid, contents, length-contents, store_len-advance, store_len-consume, store_len-lt, consume,
  wp-eq, fits-lt, consume-IsValid,
}
use tout_os.CircularBuffer.Window.{
  window, advance, advance-lt, advance-zero, next-advance, window-set, window-suc, window-push,
  take-window, drop-window,
}
use tout_os.CircularBuffer.Interleave.{
  Writer, no_write, copying, Reader, no_read, taking, Shared, Step, write_begin, write_byte,
  write_end, read_begin, read_byte, read_end, Reach, here, then_step, WriterOk, ReaderOk, IsOrdered,
}

module _ (p : CircularBuffer) (v : IsValid p) where
  write_begin-WriterOk :
      (cs : List ℕ) → no_room p (length cs) ≡ false → WriterOk p (copying [] cs p.wp)
  write_begin-WriterOk cs room =
      (omega (arith, fits-lt p cs v room), rw add-zero (wp-eq p v), rw (add-zero, append-nil))

  -- the buffer after a store of the writer
  abbrev stored : ℕ → ℕ → CircularBuffer
  stored wp c = record p { buffer = set p.buffer wp c }

  stored-IsValid : (wp c : ℕ) → IsValid (stored wp c)
  stored-IsValid wp c =
      ground (arith, v.storage, v.small, v.rp_in, v.wp_in, length-set p.buffer wp c)

  stored-contents :
      (wp c m : ℕ)
      → wp ≡ advance p.size p.rp m
      → store_len p ≤ m
      → m < p.size
      → contents (stored wp c) ≡ contents p
  unfolding store_len
  stored-contents wp c m e h k =
      rw e (window-set p.size p.buffer c p.rp (store_len p) m v.rp_in h k)

  write_byte-WriterOk :
      (copied cs : List ℕ) (c wp : ℕ)
      → WriterOk p (copying copied (c ∷ cs) wp)
      → WriterOk (stored wp c) (copying (copied ++ (c ∷ [])) cs (next p.size wp))
  unfolding store_len
  write_byte-WriterOk copied cs c wp (fits, e, bytes) =
      let m = store_len p + length copied in
      let k : store_len p + length (copied ++ (c ∷ [])) ≡ suc m =
        omega (arith, length-append copied (c ∷ [])) in
      let m' : m + 1 ≡ suc m = omega arith in
      let h : m < p.size = omega (arith, fits) in
      let same = stored-contents wp c m e (omega arith) h in
      (
        omega (arith, fits, k),
        rw (k, e, next-advance p.size p.rp m v.rp_in h, m'),
        ap (window p.size (set p.buffer wp c) p.rp) k
            ∙ ap (λ i. window p.size (set p.buffer i c) p.rp (suc m)) e
            ∙ window-push p.size p.buffer c p.rp m v.rp_in v.storage h
            ∙ ap (λ l. l ++ (c ∷ [])) bytes
            ∙ append_assoc (contents p) copied (c ∷ [])
            ∙ ap (λ l. l ++ (copied ++ (c ∷ []))) (sym same),
      )

  write_byte-ReaderOk :
      (copied cs : List ℕ) (c wp : ℕ) (r : Reader)
      → WriterOk p (copying copied (c ∷ cs) wp)
      → ReaderOk p r
      → ReaderOk (stored wp c) r
  unfolding store_len
  write_byte-ReaderOk copied cs c wp no_read w ok = tt
  write_byte-ReaderOk copied cs c wp (taking taken n rp) (fits, e, bytes) (few, at, got) = (
    few,
    at,
    got
        ∙ sym (
            window-set p.size p.buffer c p.rp (length taken) (store_len p + length copied) v.rp_in
              (omega arith) (omega arith))
        ∙ ap (λ i. window p.size (set p.buffer i c) p.rp (length taken)) (sym e),
  )

  -- the buffer once the writer has published its pointer
  abbrev published : ℕ → CircularBuffer
  published wp = record p { wp = wp }

  module _ (copied : List ℕ) (wp : ℕ) (w : WriterOk p (copying copied [] wp)) where
    published-store_len : store_len (published wp) ≡ store_len p + length copied
    published-store_len =
        store_len-advance (published wp) (store_len p + length copied) v.rp_in (omega (arith, w.0))
          w.1

    published-contents : contents (published wp) ≡ contents p ++ copied
    published-contents = ap (window p.size p.buffer p.rp) published-store_len ∙ w.2

    published-IsValid : IsValid (published wp)
    published-IsValid = record {
      storage = v.storage;
      small = v.small;
      rp_in = v.rp_in;
      wp_in =
          ground (arith, w.1, advance-lt p.size p.rp (store_len p + length copied) v.rp_in, w.0);
    }

    published-ReaderOk : (r : Reader) → ReaderOk p r → ReaderOk (published wp) r
    published-ReaderOk no_read ok = tt
    published-ReaderOk (taking taken n rp) (few, at, got) =
        (omega (arith, few, published-store_len), at, got)

  read_begin-ReaderOk : (n : ℕ) → ReaderOk p (taking [] (min n (store_len p)) p.rp)
  read_begin-ReaderOk n = (omega arith, rw (advance-zero p.size p.rp v.rp_in), refl)

  read_byte-ReaderOk :
      (taken : List ℕ) (n rp : ℕ)
      → ReaderOk p (taking taken (suc n) rp)
      → ReaderOk p (taking (taken ++ (get_or p.buffer rp 0 ∷ [])) n (next p.size rp))
  read_byte-ReaderOk taken n rp (few, at, got) =
      let k : length (taken ++ (get_or p.buffer rp 0 ∷ [])) ≡ suc (length taken) =
        omega (arith, length-append taken (get_or p.buffer rp 0 ∷ [])) in
      let m' : length taken + 1 ≡ suc (length taken) = omega arith in
      let h : length taken < p.size = omega (arith, few, store_len-lt p v) in
      (
        omega (arith, few, k),
        rw (k, at, next-advance p.size p.rp (length taken) v.rp_in h, m'),
        ap (λ l. l ++ (get_or p.buffer rp 0 ∷ [])) got
            ∙ ap (λ i. window p.size p.buffer p.rp (length taken) ++ (get_or p.buffer i 0 ∷ [])) at
            ∙ sym (window-suc p.size p.buffer p.rp (length taken) v.rp_in h)
            ∙ ap (window p.size p.buffer p.rp) (sym k),
      )

  module _ (taken : List ℕ) (rp : ℕ) (r : ReaderOk p (taking taken 0 rp)) where
    taken-few : length taken ≤ store_len p
    taken-few = omega (arith, r.0)

    taken-take : taken ≡ take (length taken) (contents p)
    taken-take = r.2 ∙ sym (take-window p.size p.buffer p.rp (length taken) (store_len p) taken-few)

    released-contents : contents (consume p (length taken)) ≡ drop (length taken) (contents p)
    released-contents =
        ap (window p.size p.buffer (advance p.size p.rp (length taken)))
          (store_len-consume p (length taken) v taken-few)
        ∙ sym (
            drop-window p.size p.buffer p.rp (length taken) (store_len p) v.rp_in (store_len-lt p v)
              taken-few)

    released-WriterOk : (w : Writer) → WriterOk p w → WriterOk (consume p (length taken)) w
    released-WriterOk no_write ok = tt
    released-WriterOk (copying copied cs wp) (fits, e, bytes) =
        let k = length taken in
        let m = store_len p + length copied in
        let few = taken-few in
        let left = store_len-consume p k v few in
        let long = length-contents p in
        (
          omega (arith, fits, left, few),
          ground (arith, e, left, few, v.rp_in, fits),
          ap (window p.size p.buffer (advance p.size p.rp k)) (omega (arith, left, few))
              ∙ sym (
                  drop-window p.size p.buffer p.rp k m v.rp_in (omega (arith, fits))
                    (omega (arith, few)))
              ∙ ap (drop k) bytes
              ∙ drop-append k (contents p) copied (omega (arith, few, long))
              ∙ ap (λ l. l ++ copied) (sym released-contents),
        )

read_end-IsOrdered :
    (s : Shared) (taken : List ℕ) (rp : ℕ)
    → ReaderOk s.cbuf (taking taken 0 rp)
    → IsOrdered s
    → IsOrdered (record s {
      cbuf = consume s.cbuf (length taken);
      reader = no_read;
      delivered = s.delivered ++ taken;
    })
read_end-IsOrdered s taken rp r o =
    let p = s.cbuf in
    let all : taken ++ drop (length taken) (contents p) ≡ contents p =
      ap (λ l. l ++ drop (length taken) (contents p)) (taken-take p o.valid taken rp r)
      ∙ take-append-drop (length taken) (contents p) in
    record {
      valid = consume-IsValid p (length taken) o.valid (taken-few p o.valid taken rp r);
      fifo =
          o.fifo
          ∙ ap (λ l. s.delivered ++ l) (sym all)
          ∙ sym (append_assoc s.delivered taken (drop (length taken) (contents p)))
          ∙ ap (λ l. (s.delivered ++ taken) ++ l) (sym (released-contents p o.valid taken rp r));
      writing = released-WriterOk p o.valid taken rp r s.writer o.writing;
      reading = tt;
    }

-- Every step of a writer or a reader keeps the bytes in order.
pub Step-IsOrdered : {s t : Shared} → Step s t → IsOrdered s → IsOrdered t
Step-IsOrdered {s} (write_begin cs idle room) o = record {
  valid = o.valid;
  fifo = o.fifo;
  writing = write_begin-WriterOk s.cbuf o.valid cs room;
  reading = o.reading;
}
Step-IsOrdered {s} (write_byte copied cs c wp e) o =
    let w : WriterOk s.cbuf (copying copied (c ∷ cs) wp) = rw e at o.writing in
    record {
      valid = stored-IsValid s.cbuf o.valid wp c;
      fifo =
          o.fifo
          ∙ ap (λ l. s.delivered ++ l)
              (sym (
                stored-contents s.cbuf o.valid wp c (store_len s.cbuf + length copied) w.1
                  (omega arith) (omega (arith, w.0))));
      writing = write_byte-WriterOk s.cbuf o.valid copied cs c wp w;
      reading = write_byte-ReaderOk s.cbuf o.valid copied cs c wp s.reader w o.reading;
    }
Step-IsOrdered {s} (write_end copied wp e) o =
    let w : WriterOk s.cbuf (copying copied [] wp) = rw e at o.writing in
    record {
      valid = published-IsValid s.cbuf o.valid copied wp w;
      fifo =
          ap (λ l. l ++ copied) o.fifo
          ∙ append_assoc s.delivered (contents s.cbuf) copied
          ∙ ap (λ l. s.delivered ++ l) (sym (published-contents s.cbuf o.valid copied wp w));
      writing = tt;
      reading = published-ReaderOk s.cbuf o.valid copied wp w s.reader o.reading;
    }
Step-IsOrdered {s} (read_begin n idle) o = record {
  valid = o.valid;
  fifo = o.fifo;
  writing = o.writing;
  reading = read_begin-ReaderOk s.cbuf o.valid n;
}
Step-IsOrdered {s} (read_byte taken n rp e) o =
    let r : ReaderOk s.cbuf (taking taken (suc n) rp) = rw e at o.reading in
    record {
      valid = o.valid;
      fifo = o.fifo;
      writing = o.writing;
      reading = read_byte-ReaderOk s.cbuf o.valid taken n rp r;
    }
Step-IsOrdered {s} (read_end taken rp e) o =
    let r : ReaderOk s.cbuf (taking taken 0 rp) = rw e at o.reading in
    rw r.1 (read_end-IsOrdered s taken rp r o)

Reach-IsOrdered : {s t : Shared} → IsOrdered s → Reach s t → IsOrdered t
Reach-IsOrdered o here = o
Reach-IsOrdered o (then_step r st) = Step-IsOrdered st (Reach-IsOrdered o r)

-- No interleaving loses, repeats or reorders a byte: in every state that the steps reach, the bytes
-- of the finished writes are those of the finished reads followed by those that the buffer holds.
pub Reach-fifo :
    {s t : Shared} → IsOrdered s → Reach s t → t.written ≡ t.delivered ++ contents t.cbuf
Reach-fifo o r = (Reach-IsOrdered o r).fifo
