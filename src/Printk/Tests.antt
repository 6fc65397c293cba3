-- ===== src/Printk/Tests.antt =====
-- A message that is printed into an empty log.
use tout_os.Base.{
  ℕ, zero, suc, ◌≡◌, refl, List, [], ◌∷◌, some, pos, arith, true, false, length, ◌++◌, ◌-◌,
  if◌then◌else◌,
}
use tout_os.Print.{
  int_arg, text, print_format, Printed, move, convert, print_int, print_unsigned_int, print_int32_t,
  print_uint64_t, print_number, digit_loop, print_pad, print_chars, print_string,
}
use tout_os.Clock.{get_timestamp}
use tout_os.CircularBuffer.{returns, ConcurrentCbuf, is_negative}
use tout_os.CircularBuffer.Refine.{IsValid, contents, queue_write}
use tout_os.Printk.{TmpPrintk, stamp, printk, printk_result}
use tout_os.Printk.Logged.{IsTmp, printk-Logged}

abbrev zeros : ℕ → List ℕ
zeros zero = []
zeros (suc n) = 0 ∷ zeros n

abbrev log : ConcurrentCbuf
log = record {
  cbuf = record { buffer = zeros 64; size = 64; rp = 60; wp = 60 };
  write_overflow = false;
}

log-IsValid : IsValid log.cbuf
log-IsValid = record {
  storage = omega arith;
  small = omega arith;
  rp_in = omega arith;
  wp_in = omega arith;
}

abbrev tmp : TmpPrintk
tmp = record { buf = zeros 1024; offset = 3 }

-- "n=%d"
abbrev fmt : List ℕ
fmt = 110 ∷ 61 ∷ 37 ∷ 100 ∷ []

-- "n=7"
abbrev seven : Printed
seven = record { count = 3; chars = 110 ∷ 61 ∷ 55 ∷ [] }

prints_seven : print_format text fmt (int_arg (pos 7) ∷ []) ≡ some seven
unfolding print_format move convert print_int print_unsigned_int print_number digit_loop print_pad
    print_chars
prints_seven = refl

-- the stamp has 20 characters
length-stamp : length (stamp 1 62500000).chars ≡ 20
unfolding stamp print_unsigned_int print_int32_t print_uint64_t print_number digit_loop print_pad
    print_chars print_string get_timestamp
length-stamp = refl

printk-Logged_example :
    (t' : TmpPrintk) × (log' : ConcurrentCbuf) × (let message =
        (stamp 1 62500000).chars ++ seven.chars in
      let (ret, q) = queue_write (log.cbuf.size - 1) (contents log.cbuf) message in
      (printk (λ i. 0) 1 62500000 (some fmt) (int_arg (pos 7) ∷ []) tmp log
        ≡ some (returns (printk_result ret (length seven.chars), t', log')))
      × (contents log'.cbuf ≡ q)
      × (log'.write_overflow ≡ (if is_negative ret then true else log.write_overflow)))
    × IsTmp t'
    × IsValid log'.cbuf
printk-Logged_example =
    printk-Logged (λ i. 0) 1 62500000 fmt (int_arg (pos 7) ∷ []) seven tmp log prints_seven refl
      (omega (arith, length-stamp)) log-IsValid
