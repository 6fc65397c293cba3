-- ===== src/Kmalloc/Tests.antt =====
-- Runs of mm/memory.c on the pool that the kernel starts with.
use tout_os.Base.{[], ◌∷◌, arith}
use tout_os.MemPool.{Memory, MemPool}
use tout_os.MemPool.Blocks.{free_block}
use tout_os.Kmalloc.{SbrkState, kzalloc}
use tout_os.Kmalloc.Laws.{init_kmalloc_free-IsPool, Zeroed, kzalloc-Zeroed}

abbrev blank : Memory
blank _ = 0

abbrev first_pool : MemPool SbrkState
first_pool = (init_kmalloc_free-IsPool blank).0

kzalloc-Zeroed_example : Zeroed first_pool 100 (free_block 40 ∷ []) (kzalloc first_pool 100)
kzalloc-Zeroed_example =
    kzalloc-Zeroed first_pool 100 (free_block 40 ∷ []) (init_kmalloc_free-IsPool blank).2
      (omega arith) (omega arith)
