-- ===== src/Kmalloc/Laws.antt =====
-- kmalloc, kzalloc and kfree of mm/memory.c on the pool that `init_kmalloc_free` sets up.
use tout_os.Base.{
  ℕ, ◌+◌, ◌-◌, ◌≤◌, ◌<◌, ◌^◌, ◌≡◌, refl, ◌∙◌, Option, none, some, List, [], ◌∷◌, leb, ◌==◌,
  if◌then◌else◌, Bool-cases, inl, inr, arith,
}
use tout_os.MemPool.{Memory, MemPool, clear, init_free_blk}
use tout_os.MemPool.Blocks.{Block, free_block, one_left, none_left, live_from}
use tout_os.MemPool.Format.{init_free_blk-BlockAt, clear_lem}
use tout_os.MemPool.Pool.{SbrkLaws, IsPool}
use tout_os.MemPool.Alloc.{Allocated, placed, refused_null, alloc_mem-Allocated}
use tout_os.MemPool.User.{WritesOnly, user_write-IsPool}
use tout_os.Kmalloc.{
  SbrkState, kernel_mock_sbrk, IsSane, rounds, init_kmalloc_free, kmalloc, kzalloc, mem_pool_size,
  mem_pool_start,
}

pub mock_refuses :
    (s : SbrkState) (n : ℕ)
    → IsSane s
    → (kernel_mock_sbrk s n).0 ≡ none
    → IsSane (kernel_mock_sbrk s n).1 × ((kernel_mock_sbrk s n).1.last ≡ s.last)
unfolding kernel_mock_sbrk
mock_refuses s n sane h = elim (Bool-cases (leb (s.allocated_size + n) mem_pool_size)) [
  | inl y ↦ absurd (ground (arith, h, y))
  | inr z ↦ rw z (sane, refl)
]

pub mock_gives :
    (s : SbrkState) (n a : ℕ)
    → IsSane s
    → 0 < n
    → (kernel_mock_sbrk s n).0 ≡ some a
    → (a ≡ s.last)
      × IsSane (kernel_mock_sbrk s n).1
      × ((kernel_mock_sbrk s n).1.last ≡ a + n)
      × (a + n < 2 ^ 64)
      × (mem_pool_size - (kernel_mock_sbrk s n).1.allocated_size < mem_pool_size - s.allocated_size)
unfolding kernel_mock_sbrk
mock_gives s n a sane pos h = ground arith

-- `kernel_mock_sbrk` keeps the promises that mm/mm.c relies on.
unfoldable pub kernel_laws : SbrkLaws kernel_mock_sbrk
kernel_laws = record {
  Sane = IsSane;
  break_of = λ s. s.last;
  budget = λ s. mem_pool_size - s.allocated_size;
  refuses = mock_refuses;
  gives = mock_gives;
}

-- `init_kmalloc_free` succeeds and leaves a pool with one free block and no address in use.
pub init_kmalloc_free-IsPool :
    (mem : Memory)
    → (pool : MemPool SbrkState) × (init_kmalloc_free mem ≡ some pool)
      × IsPool kernel_laws pool (free_block 40 ∷ [])
      × ((a : ℕ) → live_from pool.start (free_block 40 ∷ []) a ≡ none)
unfolding init_kmalloc_free kernel_laws live_from
init_kmalloc_free-IsPool mem = (
  record {
    mem = init_free_blk mem mem_pool_start 40;
    start = mem_pool_start;
    stop = mem_pool_start + 40;
    total_length = 0;
    brk = record { last = mem_pool_start + 40; allocated_size = 40 };
  },
  refl,
  record {
    chain = one_left (init_free_blk-BlockAt mem mem_pool_start 40 (omega arith)) refl none_left;
    above = omega arith;
    below = omega arith;
    not_empty = omega arith;
    sane = (refl, omega arith);
    at_break = refl;
  },
  λ a. refl,
)

-- what `kzalloc` does for a client: NULL, or an address that was not in use, with all its bytes 0
pub data Zeroed (pool : MemPool SbrkState) (size : ℕ) (bs : List Block)
    : Option (Option ℕ × MemPool SbrkState) → Type 0 where
  zeroed :
      {q : MemPool SbrkState} (u : ℕ) (cs : List Block)
      → IsPool kernel_laws q cs
      → live_from pool.start bs u ≡ none
      → ((a : ℕ)
          → live_from q.start cs a ≡ (if a == u then some size else live_from pool.start bs a))
      → ((a : ℕ) → u ≤ a → a < u + size → q.mem a ≡ 0)
      → Zeroed pool size bs (some (some u, q))
  no_memory :
      {q : MemPool SbrkState} (cs : List Block)
      → IsPool kernel_laws q cs
      → ((a : ℕ) → live_from q.start cs a ≡ live_from pool.start bs a)
      → Zeroed pool size bs (some (none, q))

clear-WritesOnly : (mem : Memory) (u n : ℕ) → WritesOnly mem (clear mem u n) u n
clear-WritesOnly mem u n a o = ground (arith, clear_lem mem u n a)

zero_after :
    (pool : MemPool SbrkState) (size : ℕ) (bs : List Block)
    {out : Option (Option ℕ × MemPool SbrkState)}
    → kmalloc pool size ≡ out
    → Allocated kernel_laws pool size bs out
    → Zeroed pool size bs (kzalloc pool size)
unfolding kzalloc
zero_after pool size bs i (refused_null cs v n l t) = rw (i, kzalloc) (no_memory cs v l)
zero_after pool size bs i (placed {q} u cs v new l lo hi t) =
    rw (i, kzalloc)
      (zeroed u cs
        (user_write-IsPool kernel_laws q cs (clear q.mem u size) u size v (l u ∙ ground arith)
          (clear-WritesOnly q.mem u size))
        new l (λ a ge lt. ground (arith, clear_lem q.mem u size a)))

-- On a pool `kzalloc` of a length that does not wrap returns; where its result is not NULL, it is an
-- address that was not in use, all of its bytes are 0, it is the one new entry of the view, and the
-- pool keeps its invariant.
pub kzalloc-Zeroed :
    (pool : MemPool SbrkState) (size : ℕ) (bs : List Block)
    → IsPool kernel_laws pool bs
    → 0 < size
    → size + 7 < 2 ^ 64
    → Zeroed pool size bs (kzalloc pool size)
unfolding kmalloc kernel_laws
kzalloc-Zeroed pool size bs v pos small =
    zero_after pool size bs refl
      (alloc_mem-Allocated kernel_laws (rounds pool.brk) pool size bs v pos small (omega arith))
