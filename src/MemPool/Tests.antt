-- ===== src/MemPool/Tests.antt =====
-- Runs of mm/mm.c on a small range of addresses.
use tout_os.Base.{
  ℕ, ◌+◌, ◌-◌, ◌≤◌, ◌<◌, ◌^◌, ◌≡◌, refl, true, none, some, List, [], ◌∷◌, leb, if◌then◌else◌, arith,
  inl, inr, Bool-cases, ◌==◌,
}
use tout_os.MemPool.{Memory, MemPool, Sbrk, alloc_mem, store}
use tout_os.MemPool.Blocks.{Block, Chain, one_left, none_left, live_from}
use tout_os.MemPool.Pool.{SbrkLaws, IsPool}
use tout_os.MemPool.Alloc.{Allocated, alloc_mem-Allocated}
use tout_os.MemPool.Free.{Freed, free_mem-Freed}
use tout_os.MemPool.User.{user_write-IsPool}
use tout_os.MemPool.Client.{Client}

-- a break that moves up to 10000
abbrev small_sbrk : Sbrk ℕ
small_sbrk s n = if leb (s + n) 10000 then (some s, s + n) else (none, s)

small_refuses :
    (s n : ℕ)
    → s ≤ 10000
    → (small_sbrk s n).0 ≡ none
    → ((small_sbrk s n).1 ≤ 10000) × ((small_sbrk s n).1 ≡ s)
small_refuses s n h e = elim (Bool-cases (leb (s + n) 10000)) [
  | inl y ↦ absurd (ground (arith, e, y))
  | inr z ↦ rw z (h, refl)
]

small_gives :
    (s n a : ℕ)
    → s ≤ 10000
    → 0 < n
    → (small_sbrk s n).0 ≡ some a
    → (a ≡ s)
      × ((small_sbrk s n).1 ≤ 10000)
      × ((small_sbrk s n).1 ≡ a + n)
      × (a + n < 2 ^ 64)
      × (10000 - (small_sbrk s n).1 < 10000 - s)
small_gives s n a h p e = ground arith

small_laws : SbrkLaws small_sbrk
small_laws = record {
  Sane = λ s. s ≤ 10000;
  break_of = λ s. s;
  budget = λ s. 10000 - s;
  refuses = small_refuses;
  gives = small_gives;
}

-- a header and a tail of a block in use
abbrev put_used : ℕ → ℕ → ℕ → Memory → Memory
put_used p len size m =
    store
      (store (store (store (store (store m p 0xABCD1234) (p + 4) 1) (p + 8) len) (p + 16) (p + 32))
        (p + 24) size)
      (p + len - 8) p

abbrev used : ℕ → ℕ → Block
used len size = record { len = len; used = true; user_len = size }

-- two blocks in use, of 8 and of 5 bytes
abbrev two_used : Memory
two_used = put_used 1000 48 8 (put_used 1048 48 5 (λ _. 0))

abbrev two_blocks : List Block
two_blocks = used 48 8 ∷ used 48 5 ∷ []

two_used-Chain : Chain two_used 1096 1000 two_blocks
two_used-Chain =
    one_left {p = 1000} {b = used 48 8}
      (record {
        magic = refl;
        use_at = (refl, refl, refl);
        size = refl;
        tail = refl;
        big = omega arith;
        fits = λ e. omega arith;
      })
      refl
      (one_left {p = 1048} {b = used 48 5}
        (record {
          magic = refl;
          use_at = (refl, refl, refl);
          size = refl;
          tail = refl;
          big = omega arith;
          fits = λ e. omega arith;
        })
        refl none_left)

abbrev full_pool : MemPool ℕ
full_pool = record { mem = two_used; start = 1000; stop = 1096; total_length = 13; brk = 1096 }

full_pool-IsPool : IsPool small_laws full_pool two_blocks
unfolding small_laws
full_pool-IsPool = record {
  chain = two_used-Chain;
  above = omega arith;
  below = omega arith;
  not_empty = omega arith;
  sane = omega arith;
  at_break = refl;
}

live_first : live_from 1000 two_blocks 1032 ≡ some 8
unfolding live_from
live_first = refl

live_second : live_from 1000 two_blocks 1080 ≡ some 5
unfolding live_from
live_second = refl

-- The pool is full: the allocation doubles it first.
alloc_mem-Allocated_example :
    Allocated small_laws full_pool 30 two_blocks (alloc_mem small_sbrk 9000 full_pool 30)
unfolding small_laws
alloc_mem-Allocated_example =
    alloc_mem-Allocated small_laws 9000 full_pool 30 two_blocks full_pool-IsPool (omega arith)
      (omega arith) (omega arith)

free_mem-Freed_example : Freed small_laws full_pool two_blocks 1032 8
free_mem-Freed_example =
    free_mem-Freed small_laws full_pool two_blocks 1032 8 full_pool-IsPool live_first

-- the client holds both addresses, writes into the first and gives it back
abbrev both_held : Client ℕ
both_held = record { pool = full_pool; held = live_from 1000 two_blocks }

abbrev written : Memory
written = store two_used 1039 77

written-IsPool : IsPool small_laws (record full_pool { mem = written }) two_blocks
written-IsPool =
    user_write-IsPool small_laws full_pool two_blocks written 1032 8 full_pool-IsPool live_first
      (λ a o. ground arith)

first_back : Freed small_laws (record full_pool { mem = written }) two_blocks 1032 8
first_back =
    free_mem-Freed small_laws (record full_pool { mem = written }) two_blocks 1032 8 written-IsPool
      live_first

abbrev one_held : Client ℕ
one_held = record {
  pool = first_back.after;
  held = λ a. if a == 1032 then none else live_from 1000 two_blocks a;
}
