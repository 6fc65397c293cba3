-- ===== src/MemPool/Format.antt =====
-- What `init_free_blk` and `mark_mem_blk` of mm/mm.c write.
use tout_os.Base.{
  ℕ, zero, suc, ◌+◌, ◌≤◌, ◌<◌, ◌≡◌, ◌⊎◌, inl, inr, ltb, leb, ◌&&◌, if◌then◌else◌, arith,
}
use tout_os.MemPool.{Memory, header_size, tail_size, in_use, clear, init_free_blk}
use tout_os.MemPool.Blocks.{free_block, BlockAt}

pub clear_lem :
    (mem : Memory) (p n a : ℕ) → clear mem p n a ≡ (if leb p a && ltb a (p + n) then 0 else mem a)
unfolding clear
clear_lem mem p zero a = ground arith
clear_lem mem p (suc n) a = ground (arith, clear_lem mem p n a)

-- Outside of the block nothing changes.
pub init_free_blk-outside :
    (mem : Memory) (p n a : ℕ)
    → header_size + tail_size ≤ n
    → (a < p) ⊎ (p + n ≤ a)
    → init_free_blk mem p n a ≡ mem a
unfolding init_free_blk
init_free_blk-outside mem p n a h o = ground (arith, clear_lem mem p n a)

-- Inside there is a free block.
pub init_free_blk-BlockAt :
    (mem : Memory) (p n : ℕ)
    → header_size + tail_size ≤ n
    → BlockAt (init_free_blk mem p n) p (free_block n)
unfolding init_free_blk
init_free_blk-BlockAt mem p n h = record {
  magic = ground arith;
  use_at = ground arith;
  size = ground arith;
  tail = ground arith;
  big = h;
  fits = λ e. cc;
}

-- A header that lay inside says that its block is not in use.
pub init_free_blk-in_use :
    (mem : Memory) (q n p : ℕ)
    → (q ≡ p) ⊎ (q + header_size + tail_size ≤ p)
    → p + header_size + tail_size ≤ q + n
    → in_use (init_free_blk mem q n) p ≡ 0
unfolding init_free_blk
init_free_blk-in_use mem q n p (inl e) h = ground (arith, clear_lem mem q n (p + 4))
init_free_blk-in_use mem q n p (inr g) h = ground (arith, clear_lem mem q n (p + 4))
