-- ===== src/Printk.antt =====
-- printk of kernel/printk.c: the characters go to the buffer of the core, and from there to the kernel log.
-- A message is printed by Print, which gives its characters in their order, and `print_char` stores them.
pub mod Logged
mod Tests
use tout_os.Base.{
  ℕ, zero, suc, ◌+◌, ◌%◌, ◌^◌, Bool, true, false, Option, none, some, List, [], ◌∷◌, leb,
  if◌then◌else◌, ℤ, pos, negsuc, minus_one, set,
}
use tout_os.Pages.{Usage, get_free_pages}
use tout_os.Clock.{get_order, get_timestamp}
use tout_os.Print.{
  Printed, ◌⊕◌, print_string, print_unsigned_int, print_int32_t, Arg, text, print_format,
}
use tout_os.CircularBuffer.{
  Outcome, returns, ◌>>=◌, ConcurrentCbuf, is_negative, write_locked, init_concurrent_cbuf,
}

-- LOG_BUF_SIZE
abbrev pub log_buf_size : ℕ
log_buf_size = 0x1000000

-- TMP_PRINTK_BUF_LEN
abbrev pub tmp_printk_buf_len : ℕ
tmp_printk_buf_len = 1024

-- tmp_printk_buf and tmp_printk_offset of a core
pub record TmpPrintk : Type 0 where
  pub buf : List ℕ
  pub offset : ℕ

-- `storage` is the bytes of the pages at an address; `none` is a log that is not set up.
abbrev pub init_log :
    (ℕ → List ℕ) → ConcurrentCbuf → Option ℕ × Usage → Option ConcurrentCbuf × Usage
init_log storage kernel_log (none, u) = (none, u)
init_log storage kernel_log (some log_buf, u) =
    (init_concurrent_cbuf (some kernel_log) (some (storage log_buf)) log_buf_size, u)

unfoldable pub init_printk : (ℕ → List ℕ) → ConcurrentCbuf → Usage → Option ConcurrentCbuf × Usage
init_printk storage kernel_log u =
    init_log storage kernel_log (get_free_pages (get_order log_buf_size) u)

-- `print_char`
unfoldable pub store_char : ℕ → TmpPrintk → TmpPrintk
store_char c t = record {
  buf = set t.buf t.offset c;
  offset = if leb tmp_printk_buf_len (t.offset + 1) then 0 else t.offset + 1;
}

unfoldable pub store_chars : List ℕ → TmpPrintk → TmpPrintk
store_chars [] t = t
store_chars (c ∷ cs) t = store_chars cs (store_char c t)

-- "[", the time, its seconds as an unsigned int, "@cpu", the core and "] "
unfoldable pub stamp : ℕ → ℕ → Printed
stamp core_id timer_count =
    let cur_ts = get_timestamp timer_count in
    print_string (some (91 ∷ []))
    ⊕ (print_unsigned_int (cur_ts.sec % 2 ^ 32) 10 (pos 5) 32
        ⊕ (print_string (some (46 ∷ []))
            ⊕ (print_unsigned_int cur_ts.usec 10 (pos 6) 48
                ⊕ (print_string (some (64 ∷ 99 ∷ 112 ∷ 117 ∷ []))
                    ⊕ (print_int32_t (pos core_id) ⊕ print_string (some (93 ∷ 32 ∷ [])))))))

-- the first `n` bytes from the start of a buffer; `behind` is what follows the buffer in memory
unfoldable pub read_bytes : ℕ → List ℕ → (ℕ → ℕ) → List ℕ
read_bytes zero buf behind = []
read_bytes (suc n) [] behind = behind 0 ∷ read_bytes n [] (λ i. behind (i + 1))
read_bytes (suc n) (c ∷ buf) behind = c ∷ read_bytes n buf behind

-- what is returned for the result of the write
abbrev pub printk_result : ℤ → ℕ → ℤ
printk_result ret num_printed = if is_negative ret then minus_one else pos num_printed

-- The part behind the PRINT macro, which printed `p` after the stamp `ts`.
unfoldable pub write_log :
    (ℕ → ℕ)
    → Printed
    → Printed
    → TmpPrintk
    → ConcurrentCbuf
    → Outcome (ℤ × TmpPrintk × ConcurrentCbuf)
write_log behind ts p t kernel_log =
    let t' = store_chars (ts ⊕ p).chars t in
    do
      (ret, log) ← write_locked kernel_log (read_bytes (ts.count + p.count) t'.buf behind)
      returns (printk_result ret p.count, t', log)

-- `none` is a failed assertion in PRINT.
unfoldable pub printk :
    (ℕ → ℕ)
    → ℕ
    → ℕ
    → Option (List ℕ)
    → List Arg
    → TmpPrintk
    → ConcurrentCbuf
    → Option (Outcome (ℤ × TmpPrintk × ConcurrentCbuf))
printk behind core_id timer_count none args t kernel_log = some (returns (pos 0, t, kernel_log))
printk behind core_id timer_count (some fmt) args t kernel_log = elim (print_format text fmt args) [
  | none ↦ none
  | some p ↦
      some (write_log behind (stamp core_id timer_count) p (record t { offset = 0 }) kernel_log)
]
