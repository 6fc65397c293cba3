-- ===== src/UserHeap.antt =====
-- The heap of a user program: brk and sbrk of usr/unistd.c, and usr/stdlib.c over the allocator of
-- mm/mm.c. The system call is a parameter, with the state of the kernel. The increments are those of
-- mm/mm.c, which are not negative, and the sizes of `calloc` are below 2 ^ 31, as its loop counts in an
-- int.
use tout_os.Base.{ℕ, Option, none, some, ◌==◌, if◌then◌else◌, add64, mul64, ℤ, pos, minus_one}
use tout_os.MemPool.{Memory, MemPool, Sbrk, init_mm, alloc_mem, free_mem, clear}

module _ {S : Type 0} (sys_brk : S → ℕ → ℕ × S) where
  unfoldable pub brk : S → ℕ → ℤ × S
  brk s addr =
      if addr == 0
      then (minus_one, s)
      else (let (ret, t) = sys_brk s addr in if ret == addr then (pos 0, t) else (minus_one, t))

  -- (void *)-1 is `none`.
  unfoldable pub sbrk : Sbrk S
  sbrk s increment =
      let (old_brk, t) = sys_brk s 0 in
      if increment == 0
      then (some old_brk, t)
      else (let new_brk = add64 old_brk increment in
          let (ret, u) = sys_brk t new_brk in
          if ret == new_brk then (some old_brk, u) else (none, u))

  unfoldable pub init_malloc_free : S → Memory → Option (MemPool S)
  init_malloc_free s mem = init_mm sbrk s mem

  unfoldable pub malloc : ℕ → MemPool S → ℕ → Option (Option ℕ × MemPool S)
  malloc rounds pool size = alloc_mem sbrk rounds pool size

  unfoldable pub calloc : ℕ → MemPool S → ℕ → ℕ → Option (Option ℕ × MemPool S)
  calloc rounds pool nmemb size =
      let total_size = mul64 nmemb size in
      elim (malloc rounds pool total_size) [
        | none ↦ none
        | some (none, q) ↦ some (none, q)
        | some (some p, q) ↦ some (some p, record q { mem = clear q.mem p total_size })
      ]

module _ {S : Type 0} where
  unfoldable pub free : MemPool S → Option ℕ → Option (MemPool S)
  free pool ptr = free_mem pool ptr
