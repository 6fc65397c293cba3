-- ===== src/CircularBuffer.antt =====
-- lib/circular_buffer.c: the byte ring of the kernel log. A pointer into the buffer is its offset
-- from `buffer`; the argument `data` is the block of `length` bytes that the caller hands over.
pub mod Window
pub mod Refine
pub mod Concurrent
pub mod Interleave
mod Tests
use tout_os.Base.{
  ℕ, zero, suc, ◌+◌, ◌-◌, ◌<◌, ◌≡◌, Bool, true, false, Option, none, some, List, [], ◌∷◌, ltb, leb,
  ◌==◌, if◌then◌else◌, get_or, set, length, ℤ, pos, negsuc, minus_one, to_int, sub64, min, ◌%◌, ◌^◌,
}

pub record CircularBuffer : Type 0 where
  pub buffer : List ℕ
  pub size : ℕ
  pub rp : ℕ
  pub wp : ℕ

-- What a call does: a read through a null pointer faults, else there is a result.
pub data Outcome (A : Type 0) : Type 0 where
  fault : Outcome A
  returns : A → Outcome A

-- `none` stands for a null pointer.
pub init_circular_buffer : Option CircularBuffer → Option (List ℕ) → ℕ → Option CircularBuffer
init_circular_buffer none buffer length = none
init_circular_buffer (some p) none length = some p
init_circular_buffer (some p) (some buffer) length =
    some (record { buffer = buffer; size = length; rp = 0; wp = 0 })

-- `if (wp == end) wp = begin` after an increment
abbrev pub next : ℕ → ℕ → ℕ
next size i = if i + 1 == size then 0 else i + 1

-- the copy loop of `write_circular_buffer`: the buffer and `wp` after it
unfoldable pub write_loop : ℕ → List ℕ → List ℕ → ℕ → List ℕ × ℕ
write_loop size [] buffer wp = (buffer, wp)
write_loop size (c ∷ cs) buffer wp = write_loop size cs (set buffer wp c) (next size wp)

-- The test for room, in size_t arithmetic: `p->length - 1 - (wp - rp) < length` if `wp >= rp`,
-- `rp - 1 - wp < length` otherwise.
unfoldable pub no_room : CircularBuffer → ℕ → Bool
no_room p length =
    if leb p.rp p.wp
    then ltb (sub64 (sub64 p.size 1) (p.wp - p.rp)) length
    else ltb (p.rp - 1 - p.wp) length

-- The body after the null checks.
unfoldable pub write_body : CircularBuffer → List ℕ → ℤ × CircularBuffer
write_body p cs =
    if no_room p (length cs)
    then (minus_one, p)
    else let (buffer', wp') = write_loop p.size cs p.buffer p.wp in
      (pos 0, record p { buffer = buffer'; wp = wp' })

-- The fields of `p` are read before `p` is compared with NULL.
unfoldable pub write_circular_buffer :
    Option CircularBuffer → Option (List ℕ) → Outcome (ℤ × CircularBuffer)
write_circular_buffer none cs = fault
write_circular_buffer (some p) none = returns (minus_one, p)
write_circular_buffer (some p) (some cs) = returns (write_body p cs)

-- The copy loop of `read_circular_buffer`: the bytes stored through `data`, and `rp` after it.
unfoldable pub read_loop : ℕ → List ℕ → ℕ → ℕ → List ℕ × ℕ
read_loop size buffer zero rp = ([], rp)
read_loop size buffer (suc n) rp =
    let (cs, rp') = read_loop size buffer n (next size rp) in (get_or buffer rp 0 ∷ cs, rp')

-- `store_len`
unfoldable pub store_len : CircularBuffer → ℕ
store_len p = if leb p.rp p.wp then p.wp - p.rp else p.size - (p.rp - p.wp)

-- The body after the null checks: the return value, the bytes stored through `data`, the buffer.
unfoldable pub read_body : CircularBuffer → ℕ → ℤ × List ℕ × CircularBuffer
read_body p length =
    let to_read_len = min length (store_len p) in
    let (cs, rp') = read_loop p.size p.buffer to_read_len p.rp in
    (to_int to_read_len, cs, record p { rp = rp' })

-- `data` is whether the argument of that name is not null.
unfoldable pub read_circular_buffer :
    Option CircularBuffer → Bool → ℕ → Outcome (ℤ × List ℕ × CircularBuffer)
read_circular_buffer none out length = fault
read_circular_buffer (some p) false length = returns (minus_one, [], p)
read_circular_buffer (some p) true length = returns (read_body p length)

infixl 5 ◌>>=◌
abbrev pub ◌>>=◌ : {A B : Type 0} → Outcome A → (A → Outcome B) → Outcome B
fault >>= f = fault
returns a >>= f = f a

-- The two locks make each call of a writer, and each call of a reader, one step (Interleave has the
-- steps of one writer beside one reader).
pub record ConcurrentCbuf : Type 0 where
  pub cbuf : CircularBuffer
  pub write_overflow : Bool

pub init_concurrent_cbuf : Option ConcurrentCbuf → Option (List ℕ) → ℕ → Option ConcurrentCbuf
unfolding init_circular_buffer
init_concurrent_cbuf none buffer length = none
init_concurrent_cbuf (some p) none length = some p
init_concurrent_cbuf (some p) (some buffer) length =
    elim (init_circular_buffer (some p.cbuf) (some buffer) length) [
      | none ↦ some p
      | some cbuf ↦ some (record { cbuf = cbuf; write_overflow = false })
    ]

-- `ret < 0`
abbrev pub is_negative : ℤ → Bool
is_negative (pos n) = false
is_negative (negsuc n) = true

-- the part of `read_concurrent_cbuf` under `cbuf_rlock`
unfoldable pub read_locked : ConcurrentCbuf → ℕ → Outcome (ℤ × List ℕ × ConcurrentCbuf)
read_locked c length = do
  (ret, cs, cbuf) ← read_circular_buffer (some c.cbuf) true length
  returns (ret, cs, record c { cbuf = cbuf })

unfoldable pub read_concurrent_cbuf :
    Option ConcurrentCbuf → Bool → ℕ → Outcome (ℤ × List ℕ × Option ConcurrentCbuf)
read_concurrent_cbuf none out length = returns (minus_one, [], none)
read_concurrent_cbuf (some c) false length = returns (minus_one, [], some c)
read_concurrent_cbuf (some c) true length = do
  (ret, cs, c') ← read_locked c length
  returns (ret, cs, some c')

-- the part of `write_concurrent_cbuf` under `cbuf_wlock`
unfoldable pub write_locked : ConcurrentCbuf → List ℕ → Outcome (ℤ × ConcurrentCbuf)
write_locked c cs = do
  (ret, cbuf) ← write_circular_buffer (some c.cbuf) (some cs)
  returns (
    ret,
    record c { cbuf = cbuf; write_overflow = if is_negative ret then true else c.write_overflow },
  )

unfoldable pub write_concurrent_cbuf :
    Option ConcurrentCbuf → Option (List ℕ) → Outcome (ℤ × Option ConcurrentCbuf)
write_concurrent_cbuf none cs = returns (minus_one, none)
write_concurrent_cbuf (some c) none = returns (minus_one, some c)
write_concurrent_cbuf (some c) (some cs) = do (ret, c') ← write_locked c cs; returns (ret, some c')
