-- ===== src/Fork/Tests.antt =====
-- A process with three areas that forks.
use tout_os.Base.{ℕ, zero, suc, ◌==◌, if◌then◌else◌, Bool, true, false, [], ◌∷◌}
use tout_os.Pages.{Usage, page_pool_start}
use tout_os.Areas.{Area, Mm, vm_shared}
use tout_os.Fork.{no_lma}

abbrev shared_area : Area
shared_area = record {
  vm_start = 4096;
  vm_end = 8192;
  vm_flags = vm_shared;
  lma = 524288;
  pages_block_list = [];
}

abbrev owned_area : Area
owned_area = record {
  vm_start = 8192;
  vm_end = 16384;
  vm_flags = 0;
  lma = 528384;
  pages_block_list = [];
}

abbrev touched_area : Area
touched_area = record {
  vm_start = 16384;
  vm_end = 32768;
  vm_flags = 0;
  lma = no_lma;
  pages_block_list =
      record { user_virt_addr = 20480; linear_addr = page_pool_start; order = 0 } ∷ [];
}

abbrev parent : Mm
parent = record {
  mmap = shared_area ∷ owned_area ∷ touched_area ∷ [];
  start_brk = 32768;
  brk = 32768;
}

-- the first `n` calls give memory
abbrev gives : ℕ → Bool × ℕ
gives zero = (false, 0)
gives (suc n) = (true, n)

abbrev first_used : Usage
first_used j = if j == 0 then 1 else 0
