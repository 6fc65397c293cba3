-- ===== src/CircularBuffer/Refine.antt =====
-- lib/circular_buffer.c refines a queue of at most `size - 1` bytes whose write takes all of its
-- bytes or none.
use tout_os.Base.{
  ℕ, zero, suc, ◌+◌, ◌-◌, ◌<◌, ◌≤◌, ◌^◌, ◌≡◌, refl, ap, ◌∙◌, Bool, true, false, some, List, [], ◌∷◌,
  ◌++◌, length, take, drop, ltb, if◌then◌else◌, Bool-cases, inl, inr, arith, min, ℤ, pos, minus_one,
  to_int, to_int-pos, sym,
}
use tout_os.CircularBuffer.{
  CircularBuffer, returns, init_circular_buffer, write_loop, no_room, write_body,
  write_circular_buffer, store_len, read_body, read_circular_buffer,
}
use tout_os.CircularBuffer.Window.{
  window, advance, advance-lt, length-window, Wrote, write_loop-Wrote, read_loop-window,
  take-window, drop-window,
}

-- The pointers are inside the storage, and an int can hold the number of bytes stored.
pub record IsValid (p : CircularBuffer) : Type 0 where
  pub storage : p.size ≤ length p.buffer
  pub small : p.size < 2 ^ 31
  pub rp_in : p.rp < p.size
  pub wp_in : p.wp < p.size

-- the bytes stored and not yet read, oldest first
abbrev pub contents : CircularBuffer → List ℕ
contents p = window p.size p.buffer p.rp (store_len p)

-- the queue that a circular buffer of `cap + 1` bytes promises
abbrev pub queue_write : ℕ → List ℕ → List ℕ → ℤ × List ℕ
queue_write cap q cs = if ltb (cap - length q) (length cs) then (minus_one, q) else (pos 0, q ++ cs)

abbrev pub queue_read : List ℕ → ℕ → ℤ × List ℕ × List ℕ
queue_read q n = (pos (min n (length q)), take n q, drop n q)

pub length-contents : (p : CircularBuffer) → length (contents p) ≡ store_len p
length-contents p = length-window p.size p.buffer p.rp (store_len p)

pub store_len-lt : (p : CircularBuffer) → IsValid p → store_len p < p.size
unfolding store_len
store_len-lt p v = ground arith

pub wp-eq : (p : CircularBuffer) → IsValid p → p.wp ≡ advance p.size p.rp (store_len p)
unfolding store_len
wp-eq p v = ground arith

-- Behind `n < size` bytes from `rp` the length computed from the pointers is `n`.
pub store_len-advance :
    (p : CircularBuffer) (n : ℕ)
    → p.rp < p.size
    → n < p.size
    → p.wp ≡ advance p.size p.rp n
    → store_len p ≡ n
unfolding store_len
store_len-advance p n h k e = ground arith

-- The test of the code, with its wrapping subtractions, compares with the room that is left.
no_room-eq :
    (p : CircularBuffer) (n : ℕ) → IsValid p → no_room p n ≡ ltb (p.size - 1 - store_len p) n
unfolding no_room store_len
no_room-eq p n v = ground arith

-- A block of bytes that is not empty makes a valid buffer that holds nothing.
pub init-IsValid :
    (p : CircularBuffer) (storage : List ℕ)
    → 0 < length storage
    → length storage < 2 ^ 31
    → (q : CircularBuffer) × (init_circular_buffer (some p) (some storage) (length storage)
        ≡ some q)
      × IsValid q
      × (contents q ≡ [])
unfolding init_circular_buffer store_len
init-IsValid p storage h k =
    (record { buffer = storage; size = length storage; rp = 0; wp = 0 }, refl, omega arith, refl)

-- the state that a write publishes
abbrev publish : CircularBuffer → List ℕ × ℕ → CircularBuffer
publish p (b, w) = record p { buffer = b; wp = w }

publish-append :
    (p : CircularBuffer) (cs b : List ℕ) (w : ℕ)
    → IsValid p
    → store_len p + length cs < p.size
    → Wrote p.size p.buffer cs p.rp (store_len p) (b, w)
    → (contents (publish p (b, w)) ≡ contents p ++ cs) × IsValid (publish p (b, w))
publish-append p cs b w v h wrote =
    let stored =
      store_len-advance (publish p (b, w)) (store_len p + length cs) v.rp_in h wrote.wp in
    (
      ap (window p.size b p.rp) stored ∙ wrote.bytes,
      record {
        storage = omega (arith, wrote.room, v.storage);
        small = v.small;
        rp_in = v.rp_in;
        wp_in = ground (arith, wrote.wp, advance-lt p.size p.rp (store_len p + length cs));
      },
    )

write_body-fits :
    (p : CircularBuffer) (cs : List ℕ)
    → IsValid p
    → store_len p + length cs < p.size
    → let p' = publish p (write_loop p.size cs p.buffer p.wp) in
      (contents p' ≡ contents p ++ cs) × IsValid p'
write_body-fits p cs v h =
    let wrote : Wrote p.size p.buffer cs p.rp (store_len p) (write_loop p.size cs p.buffer p.wp) =
      simp (wp-eq p v)
        (write_loop-Wrote p.size cs p.buffer p.rp (store_len p) v.rp_in v.storage h) in
    publish-append p cs _ _ v h wrote

-- The test of the code is the test of the queue.
room-test :
    (p : CircularBuffer) (cs : List ℕ) {b : Bool}
    → IsValid p
    → no_room p (length cs) ≡ b
    → ltb (p.size - 1 - length (contents p)) (length cs) ≡ b
room-test p cs v h = rw (length-contents p, ← no_room-eq p (length cs) v) h

pub fits-lt :
    (p : CircularBuffer) (cs : List ℕ)
    → IsValid p
    → no_room p (length cs) ≡ false
    → store_len p + length cs < p.size
fits-lt p cs v h = ground (arith, no_room-eq p (length cs) v, store_len-lt p v)

-- A write takes all bytes or none, by the room left in a queue of `size - 1` bytes; it returns 0
-- or -1, appends the bytes in order, and keeps the buffer valid.
pub write_refines :
    (p : CircularBuffer) (cs : List ℕ)
    → IsValid p
    → (p' : CircularBuffer) × (write_circular_buffer (some p) (some cs)
        ≡ returns ((queue_write (p.size - 1) (contents p) cs).0, p'))
      × (contents p' ≡ (queue_write (p.size - 1) (contents p) cs).1)
      × IsValid p'
      × (p'.size ≡ p.size)
unfolding write_circular_buffer write_body
write_refines p cs v = elim (Bool-cases (no_room p (length cs))) [
  | inl full ↦ let t = room-test p cs v full in (p, rw (full, t), rw t, v, refl)
  | inr fits ↦
      let t = room-test p cs v fits in
      let (stored, valid) = write_body-fits p cs v (fits-lt p cs v fits) in
      (publish p (write_loop p.size cs p.buffer p.wp), rw (fits, t), rw t stored, valid, refl)
]

-- the state that a read of `k` bytes publishes
abbrev pub consume : CircularBuffer → ℕ → CircularBuffer
consume p k = record p { rp = advance p.size p.rp k }

pub store_len-consume :
    (p : CircularBuffer) (k : ℕ)
    → IsValid p
    → k ≤ store_len p
    → store_len (consume p k) ≡ store_len p - k
unfolding store_len
store_len-consume p k v h = ground arith

take-min-length : (n : ℕ) (q : List ℕ) → take (min n (length q)) q ≡ take n q
take-min-length zero q = let e : min 0 (length q) ≡ 0 = omega arith in rw e
take-min-length (suc n) [] = let e : min (suc n) 0 ≡ 0 = omega arith in rw e
take-min-length (suc n) (x ∷ q) =
    let e : min (suc n) (suc (length q)) ≡ suc (min n (length q)) = omega arith in
    rw (e, take-min-length n q)

drop-min-length : (n : ℕ) (q : List ℕ) → drop (min n (length q)) q ≡ drop n q
drop-min-length zero q = let e : min 0 (length q) ≡ 0 = omega arith in rw e
drop-min-length (suc n) [] = let e : min (suc n) 0 ≡ 0 = omega arith in rw e
drop-min-length (suc n) (x ∷ q) =
    let e : min (suc n) (suc (length q)) ≡ suc (min n (length q)) = omega arith in
    rw (e, drop-min-length n q)

read_body-consume :
    (p : CircularBuffer) (n : ℕ)
    → IsValid p
    → read_body p n ≡ (
      (queue_read (contents p) n).0,
      (queue_read (contents p) n).1,
      consume p (min n (store_len p)),
    )
unfolding read_body
read_body-consume p n v =
    let lt = store_len-lt p v in
    let k : min n (store_len p) < p.size = omega arith in
    let i : to_int (min n (store_len p)) ≡ pos (min n (store_len p)) =
      to_int-pos _ (omega (arith, v.small)) in
    let t : window p.size p.buffer p.rp (min n (store_len p)) ≡ take n (contents p) =
      sym (take-window p.size p.buffer p.rp (min n (store_len p)) (store_len p) (omega arith))
      ∙ ap (λ m. take (min n m) (contents p)) (sym (length-contents p))
      ∙ take-min-length n (contents p) in
    rw (
      read_loop-window p.size p.buffer p.rp (min n (store_len p)) v.rp_in k,
      i,
      t,
      length-contents p,
    )

contents-consume :
    (p : CircularBuffer) (n : ℕ)
    → IsValid p
    → contents (consume p (min n (store_len p))) ≡ drop n (contents p)
contents-consume p n v =
    let lt = store_len-lt p v in
    ap (window p.size p.buffer (advance p.size p.rp (min n (store_len p))))
      (store_len-consume p (min n (store_len p)) v (omega arith))
    ∙ sym (
        drop-window p.size p.buffer p.rp (min n (store_len p)) (store_len p) v.rp_in lt
          (omega arith))
    ∙ ap (λ m. drop (min n m) (contents p)) (sym (length-contents p))
    ∙ drop-min-length n (contents p)

pub consume-IsValid :
    (p : CircularBuffer) (k : ℕ) → IsValid p → k ≤ store_len p → IsValid (consume p k)
consume-IsValid p k v h = record {
  storage = v.storage;
  small = v.small;
  rp_in = advance-lt p.size p.rp k v.rp_in (omega (arith, store_len-lt p v));
  wp_in = v.wp_in;
}

-- A read returns the number of bytes it delivers, delivers the oldest ones, at most `length`,
-- removes exactly these, and keeps the buffer valid.
pub read_refines :
    (p : CircularBuffer) (n : ℕ)
    → IsValid p
    → (p' : CircularBuffer) × (read_circular_buffer (some p) true n
        ≡ returns ((queue_read (contents p) n).0, (queue_read (contents p) n).1, p'))
      × (contents p' ≡ (queue_read (contents p) n).2)
      × IsValid p'
      × (p'.size ≡ p.size)
unfolding read_circular_buffer
read_refines p n v = (
  consume p (min n (store_len p)),
  rw (read_body-consume p n v),
  contents-consume p n v,
  consume-IsValid p (min n (store_len p)) v (omega arith),
  refl,
)
