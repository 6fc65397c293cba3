-- ===== src/Kmalloc.antt =====
-- The byte allocator of mm/memory.c: mm/mm.c over a fixed range of addresses.
pub mod Laws
mod Tests
use tout_os.Base.{
  ℕ, zero, suc, ◌+◌, ◌-◌, ◌*◌, ◌≤◌, ◌<◌, ◌^◌, ◌≡◌, refl, ap, ◌∙◌, Bool, true, false, Option, none,
  some, List, [], ◌∷◌, leb, ltb, ◌==◌, ◌&&◌, if◌then◌else◌, Bool-cases, inl, inr, arith, add64,
  sub64,
}
use tout_os.MemPool.{
  Memory, MemPool, Sbrk, init_mm, alloc_mem, free_mem, header_size, tail_size, clear, init_free_blk,
}
use tout_os.MemPool.Blocks.{Block, free_block, Chain, one_left, none_left, live_from}
use tout_os.MemPool.Format.{init_free_blk-BlockAt}
use tout_os.MemPool.Pool.{SbrkLaws, IsPool}

-- 512 MB
abbrev pub mem_pool_size : ℕ
mem_pool_size = 512 * 2 ^ 20

-- PAGE_OFFSET + RAM_ADDR_START + 256 MB, with VA_BITS = 39
abbrev pub mem_pool_start : ℕ
mem_pool_start = 2 ^ 64 - 2 ^ 38 + 0x40000000 + 256 * 2 ^ 20

-- the static variables of `kernel_mock_sbrk`
pub record SbrkState : Type 0 where
  pub last : ℕ
  pub allocated_size : ℕ

-- The increments of mm/mm.c are not negative.
unfoldable pub kernel_mock_sbrk : Sbrk SbrkState
kernel_mock_sbrk s increment =
    if leb (s.allocated_size + increment) mem_pool_size
    then (
      some s.last,
      record { last = s.last + increment; allocated_size = s.allocated_size + increment },
    )
    else (none, s)

abbrev pub IsSane : SbrkState → Type 0
IsSane s = (s.last ≡ mem_pool_start + s.allocated_size) × (s.allocated_size ≤ mem_pool_size)

-- the fuel for `alloc_mem`: each enlargement takes at least a byte from `mem_pool_size`
abbrev pub rounds : SbrkState → ℕ
rounds s = suc (mem_pool_size - s.allocated_size)

abbrev pub start_state : SbrkState
start_state = record { last = mem_pool_start; allocated_size = 0 }

-- the call of `init_mm` in `init_kmalloc_free`
unfoldable pub init_kmalloc_free : Memory → Option (MemPool SbrkState)
unfolding kernel_mock_sbrk init_mm
init_kmalloc_free mem = init_mm kernel_mock_sbrk start_state mem

unfoldable pub kmalloc : MemPool SbrkState → ℕ → Option (Option ℕ × MemPool SbrkState)
kmalloc pool size = alloc_mem kernel_mock_sbrk (rounds pool.brk) pool size

-- `memset (mem, 0, size)` on the memory of the pool
unfoldable pub kzalloc : MemPool SbrkState → ℕ → Option (Option ℕ × MemPool SbrkState)
kzalloc pool size = elim (kmalloc pool size) [
  | none ↦ none
  | some (none, q) ↦ some (none, q)
  | some (some mem, q) ↦ some (some mem, record q { mem = clear q.mem mem size })
]

unfoldable pub kfree : MemPool SbrkState → Option ℕ → Option (MemPool SbrkState)
kfree pool user_start = free_mem pool user_start
