-- ===== src/Areas/Tests.antt =====
-- The theorems on the areas of kernel/sched.c at concrete inputs.
use tout_os.Base.{leb, ltb, ◌&&◌, if◌then◌else◌, [], ◌∷◌, ◌≡◌, some, true}
use tout_os.Areas.{Mm, find_vma, setup_vma}
use tout_os.Areas.Find.{find_vma-setup_vma, new_area, Found}

-- the code of a process
abbrev code_only : Mm
code_only = record {
  mmap =
      record { vm_start = 4096; vm_end = 8192; vm_flags = 5; lma = 65536; pages_block_list = [] }
      ∷ [];
  start_brk = 8192;
  brk = 8192;
}

find_vma-setup_vma_example :
    (mm' : Mm) × ((setup_vma true (some code_only) 8192 16384 3 0).1 ≡ some mm')
    × (find_vma (some mm') 9000 ≡ (
        if true && (leb 8192 9000 && ltb 9000 16384)
        then some (new_area 8192 16384 3 0)
        else find_vma (some code_only) 9000))
    × Found 9000 mm'.mmap (find_vma (some mm') 9000)
find_vma-setup_vma_example = find_vma-setup_vma true code_only 9000 8192 16384 3 0
