-- ===== src/Printk/Logged.antt =====
-- What printk of kernel/printk.c puts into the kernel log.
use tout_os.Base.{
  ℕ, zero, suc, ◌+◌, ◌-◌, ◌%◌, ◌^◌, ◌≤◌, ◌<◌, ◌≡◌, refl, ap, ◌∙◌, sym, true, false, some, List, [],
  ◌∷◌, ◌++◌, leb, if◌then◌else◌, pos, minus_one, set, take, take-set, length, length-set,
  length-append, append-nil, append_assoc, arith,
}
use tout_os.Print.{
  Printed, ◌⊕◌, print_string, print_unsigned_int, print_int32_t, print_uint64_t, Arg, text,
  print_format,
}
use tout_os.Print.Count.{IsCounted, ⊕-IsCounted, print_number-IsCounted, print_format-count}
use tout_os.Print.Digits.{print_chars-count}
use tout_os.CircularBuffer.{returns, ConcurrentCbuf, is_negative, write_locked}
use tout_os.CircularBuffer.Refine.{IsValid, contents, queue_write, write_refines}
use tout_os.Clock.{get_timestamp}
use tout_os.Printk.{
  TmpPrintk, tmp_printk_buf_len, store_char, store_chars, stamp, read_bytes, printk_result,
  write_log, printk,
}

-- the buffer has its length
abbrev pub IsTmp : TmpPrintk → Type 0
IsTmp t = length t.buf ≡ tmp_printk_buf_len

-- one character more
take-store :
    (t : TmpPrintk) (c : ℕ)
    → IsTmp t
    → t.offset < tmp_printk_buf_len
    → take (t.offset + 1) (set t.buf t.offset c) ≡ take t.offset t.buf ++ (c ∷ [])
take-store t c full lt =
    let e : t.offset + 1 ≡ suc t.offset = omega arith in
    ap (λ (k : ℕ). take k (set t.buf t.offset c)) e
    ∙ take-set t.buf t.offset c (omega (arith, full, lt))

-- Characters that fit stand behind those that were there.
store_chars-take :
    (cs : List ℕ) (t : TmpPrintk)
    → IsTmp t
    → t.offset + length cs ≤ tmp_printk_buf_len
    → take (t.offset + length cs) (store_chars cs t).buf ≡ take t.offset t.buf ++ cs
unfolding store_chars store_char
store_chars-take [] t full fits =
    let e : t.offset + 0 ≡ t.offset = omega arith in
    ap (λ (k : ℕ). take k t.buf) e ∙ sym (append-nil _)
store_chars-take (c ∷ []) t full fits = take-store t c full (omega (arith, fits))
store_chars-take (c ∷ d ∷ cs) t full fits =
    let z : leb tmp_printk_buf_len (t.offset + 1) ≡ false = ground (arith, fits) in
    let next : TmpPrintk = record { buf = set t.buf t.offset c; offset = t.offset + 1 } in
    let here : store_char c t ≡ next = rw (store_char, z, if◌then◌else◌) refl in
    let e : t.offset + length (c ∷ d ∷ cs) ≡ t.offset + 1 + length (d ∷ cs) = omega arith in
    ap (λ (k : ℕ). take k (store_chars (d ∷ cs) (store_char c t)).buf) e
    ∙ ap (λ (x : TmpPrintk). take (t.offset + 1 + length (d ∷ cs)) (store_chars (d ∷ cs) x).buf)
        here
    ∙ store_chars-take (d ∷ cs) next (length-set t.buf t.offset c ∙ full) (omega (arith, fits))
    ∙ ap (λ (l : List ℕ). l ++ (d ∷ cs)) (take-store t c full (omega (arith, fits)))
    ∙ append_assoc (take t.offset t.buf) (c ∷ []) (d ∷ cs)

store_chars-length : (cs : List ℕ) (t : TmpPrintk) → IsTmp t → IsTmp (store_chars cs t)
unfolding store_chars store_char
store_chars-length [] t full = full
store_chars-length (c ∷ cs) t full =
    store_chars-length cs (store_char c t) (length-set t.buf t.offset c ∙ full)

read_bytes-take :
    (n : ℕ) (buf : List ℕ) (behind : ℕ → ℕ) → n ≤ length buf → read_bytes n buf behind ≡ take n buf
unfolding read_bytes
read_bytes-take zero buf behind le = refl
read_bytes-take (suc n) [] behind le = absurd (omega (arith, le))
read_bytes-take (suc n) (c ∷ buf) behind le =
    ap (λ (l : List ℕ). c ∷ l) (read_bytes-take n buf behind (omega (arith, le)))

pub stamp-IsCounted : (core_id timer_count : ℕ) → IsCounted (stamp core_id timer_count)
unfolding stamp print_unsigned_int print_int32_t print_uint64_t print_string
stamp-IsCounted core_id timer_count =
    let cur_ts = get_timestamp timer_count in
    let sec = print_unsigned_int (cur_ts.sec % 2 ^ 32) 10 (pos 5) 32 in
    let usec = print_unsigned_int cur_ts.usec 10 (pos 6) 48 in
    let core = print_int32_t (pos core_id) in
    let str = λ (l : List ℕ). print_string (some l) in
    let end = core ⊕ str (93 ∷ 32 ∷ []) in
    let cpu = str (64 ∷ 99 ∷ 112 ∷ 117 ∷ []) ⊕ end in
    ⊕-IsCounted (str (91 ∷ [])) (sec ⊕ (str (46 ∷ []) ⊕ (usec ⊕ cpu))) (print_chars-count (91 ∷ []))
      (⊕-IsCounted sec (str (46 ∷ []) ⊕ (usec ⊕ cpu))
        (print_number-IsCounted 32 (cur_ts.sec % 2 ^ 32) 10 (pos 5) 32)
        (⊕-IsCounted (str (46 ∷ [])) (usec ⊕ cpu) (print_chars-count (46 ∷ [])) (
          ⊕-IsCounted usec cpu (print_number-IsCounted 32 cur_ts.usec 10 (pos 6) 48) (
            ⊕-IsCounted (str (64 ∷ 99 ∷ 112 ∷ 117 ∷ [])) end
              (print_chars-count (64 ∷ 99 ∷ 112 ∷ 117 ∷ []))
              (⊕-IsCounted core (str (93 ∷ 32 ∷ []))
                (print_number-IsCounted 64 core_id 10 minus_one 0)
                (print_chars-count (93 ∷ 32 ∷ [])))))))

-- the bytes that the write is handed
bytes-message :
    (behind : ℕ → ℕ) (ts p : Printed) (t : TmpPrintk)
    → IsTmp t
    → t.offset ≡ 0
    → IsCounted ts
    → IsCounted p
    → length ts.chars + length p.chars ≤ tmp_printk_buf_len
    → read_bytes (ts.count + p.count) (store_chars (ts ⊕ p).chars t).buf behind
      ≡ ts.chars ++ p.chars
bytes-message behind ts p t full at k h fits =
    let cs = ts.chars ++ p.chars in
    let size = length-append ts.chars p.chars in
    let stored = store_chars cs t in
    let kept = store_chars-length cs t full in
    let n : ts.count + p.count ≡ t.offset + length cs = omega (arith, k, h, size, at) in
    read_bytes-take (ts.count + p.count) stored.buf behind (omega (arith, k, h, kept, fits))
    ∙ ap (λ (x : ℕ). take x stored.buf) n
    ∙ store_chars-take cs t full (omega (arith, at, size, fits))
    ∙ ap (λ (l : List ℕ). l ++ cs) (ap (λ (x : ℕ). take x t.buf) at)

-- printk of a format that PRINT prints, when the stamp and the message fit the buffer of the core and the
-- log is valid. The stamp and the message are put into the log in one piece, and printk returns the number
-- of characters of the message; or they have no room there, the log keeps what it has, with
-- `write_overflow` set, and printk returns -1. It does not matter what stands behind the buffer.
pub printk-Logged :
    (behind : ℕ → ℕ) (core_id timer_count : ℕ) (fmt : List ℕ) (args : List Arg) (p : Printed)
    (t : TmpPrintk) (log : ConcurrentCbuf)
    → print_format text fmt args ≡ some p
    → IsTmp t
    → length (stamp core_id timer_count).chars + length p.chars ≤ tmp_printk_buf_len
    → IsValid log.cbuf
    → (t' : TmpPrintk) × (log' : ConcurrentCbuf) × (let message =
          (stamp core_id timer_count).chars ++ p.chars in
        let (ret, q) = queue_write (log.cbuf.size - 1) (contents log.cbuf) message in
        (printk behind core_id timer_count (some fmt) args t log
          ≡ some (returns (printk_result ret (length p.chars), t', log')))
        × (contents log'.cbuf ≡ q)
        × (log'.write_overflow ≡ (if is_negative ret then true else log.write_overflow)))
      × IsTmp t'
      × IsValid log'.cbuf
unfolding printk write_log write_locked
printk-Logged behind core_id timer_count fmt args p t log e full fits valid =
    let ts = stamp core_id timer_count in
    let message = ts.chars ++ p.chars in
    let start : TmpPrintk = record t { offset = 0 } in
    let counted = print_format-count fmt args p e in
    let bytes =
      bytes-message behind ts p start full refl (stamp-IsCounted core_id timer_count) counted
        fits in
    let (cbuf, written, stored, valid', same) = write_refines log.cbuf message valid in
    let ret = (queue_write (log.cbuf.size - 1) (contents log.cbuf) message).0 in
    (
      store_chars message start,
      record log {
        cbuf = cbuf;
        write_overflow = if is_negative ret then true else log.write_overflow;
      },
      (rw (printk, e, write_log, bytes, written, counted) refl, stored, refl),
      store_chars-length message start full,
      valid',
    )
