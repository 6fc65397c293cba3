-- ===== src/SystemCalls/HeapArea.antt =====
-- The area of the heap, when `sys_brk` of kernel/isr.c finishes.
use tout_os.Base.{
  ℕ, ◌-◌, ◌^◌, ◌≤◌, ◌<◌, ◌≡◌, refl, ap, ◌∙◌, sym, subst, true, false, ◌&&◌, Option, none, some,
  List, [], ◌∷◌, leb, ltb, arith, Bool-cases, inl, inr, Option-cases,
}
use tout_os.Areas.{Area, Mm, find_area, setup_vma}
use tout_os.Areas.Find.{Found, found, find_area-first, find_area-Found}
use tout_os.SystemCalls.{Heap, put_area, max_brk_addr, finish_brk}

none≢area : (a : Area) → none ≡ some a → ⊥
none≢area a e = cc

find_area-later :
    (b : Area) (rest : List Area) (addr : ℕ)
    → (leb b.vm_start addr && ltb addr b.vm_end) ≡ false
    → find_area (b ∷ rest) addr ≡ find_area rest addr
unfolding find_area
find_area-later b rest addr z = rw (find_area, z) refl

pub put_area-here :
    (b : Area) (rest : List Area) (addr : ℕ) (a : Area)
    → (leb b.vm_start addr && ltb addr b.vm_end) ≡ true
    → put_area (b ∷ rest) addr a ≡ a ∷ rest
unfolding put_area
put_area-here b rest addr a y = rw (put_area, y) refl

put_area-later :
    (b : Area) (rest : List Area) (addr : ℕ) (a : Area)
    → (leb b.vm_start addr && ltb addr b.vm_end) ≡ false
    → put_area (b ∷ rest) addr a ≡ b ∷ put_area rest addr a
unfolding put_area
put_area-later b rest addr a z = rw (put_area, z) refl

-- the area that is put in is found, when it holds the address
find_area-put_area :
    (areas : List Area) (addr : ℕ) (vma a : Area)
    → find_area areas addr ≡ some vma
    → a.vm_start ≤ addr
    → addr < a.vm_end
    → find_area (put_area areas addr a) addr ≡ some a
unfolding find_area
find_area-put_area [] addr vma a e lo hi = absurd (none≢area vma e)
find_area-put_area (b ∷ rest) addr vma a e lo hi =
    elim (Bool-cases (leb b.vm_start addr && ltb addr b.vm_end)) [
      | inl y ↦
          ap (λ (l : List Area). find_area l addr) (put_area-here b rest addr a y)
          ∙ find_area-first a rest addr lo hi
      | inr z ↦
          ap (λ (l : List Area). find_area l addr) (put_area-later b rest addr a z)
          ∙ find_area-later b (put_area rest addr a) addr z
          ∙ find_area-put_area rest addr vma a (sym (find_area-later b rest addr z) ∙ e) lo hi
    ]

-- the first area at the start of the heap ends at the break
pub record HasEnd (mm : Mm) : Type 0 where
  pub area : Area
  pub is_found : find_area mm.mmap mm.start_brk ≡ some area
  pub ends : area.vm_end ≡ mm.brk

-- The break is in its range, and a heap that is not empty has its area.
pub record IsHeap (mm : Mm) : Type 0 where
  pub low : mm.start_brk ≤ mm.brk
  pub high : mm.brk ≤ max_brk_addr
  pub covered : mm.start_brk < mm.brk → HasEnd mm

-- `finish_brk` keeps the break and what was unmapped, and sees to the area.
pub record Finished (h r : Heap) : Type 0 where
  pub same_start : r.mm.start_brk ≡ h.mm.start_brk
  pub same_brk : r.mm.brk ≡ h.mm.brk
  pub same_run : r.run ≡ h.run
  pub covered : h.mm.start_brk < h.mm.brk → HasEnd r.mm

abbrev pub FinishedOf : Heap → Option Heap → Type 0
FinishedOf h o = (r : Heap) × (o ≡ some r) × Finished h r

Found-start :
    (addr : ℕ) (areas : List Area) (vma : Area) → Found addr areas (some vma) → vma.vm_start ≤ addr
Found-start addr areas vma (found is_of (lo, hi)) = lo

abbrev new_area : Mm → Area
new_area mm = record {
  vm_start = mm.start_brk;
  vm_end = mm.brk;
  vm_flags = 3;
  lma = 2 ^ 64 - 1;
  pages_block_list = [];
}

finish_brk-none :
    (h : Heap)
    → find_area h.mm.mmap h.mm.start_brk ≡ none
    → finish_brk true h ≡ some (record h { mm = record h.mm { mmap = new_area h.mm ∷ h.mm.mmap } })
unfolding finish_brk setup_vma
finish_brk-none h e = rw (finish_brk, e) refl

finish_brk-some :
    (h : Heap) (vma : Area)
    → find_area h.mm.mmap h.mm.start_brk ≡ some vma
    → finish_brk true h
      ≡ some (record h {
        mm = record h.mm {
          mmap = put_area h.mm.mmap h.mm.start_brk (record vma { vm_end = h.mm.brk });
        };
      })
unfolding finish_brk
finish_brk-some h vma e = rw (finish_brk, e) refl

pub finish_brk-Finished : (h : Heap) → FinishedOf h (finish_brk true h)
finish_brk-Finished h = elim (Option-cases (find_area h.mm.mmap h.mm.start_brk)) [
  | inl e ↦ (
    record h { mm = record h.mm { mmap = new_area h.mm ∷ h.mm.mmap } },
    finish_brk-none h e,
    record {
      same_start = refl;
      same_brk = refl;
      same_run = refl;
      covered = λ lt. record {
        area = new_area h.mm;
        is_found = find_area-first (new_area h.mm) h.mm.mmap h.mm.start_brk (omega arith) lt;
        ends = refl;
      };
    },
  )
  | inr (vma, e) ↦ (
    record h {
      mm = record h.mm {
        mmap = put_area h.mm.mmap h.mm.start_brk (record vma { vm_end = h.mm.brk });
      };
    },
    finish_brk-some h vma e,
    record {
      same_start = refl;
      same_brk = refl;
      same_run = refl;
      covered = λ lt. record {
        area = record vma { vm_end = h.mm.brk };
        is_found =
            find_area-put_area h.mm.mmap h.mm.start_brk vma (record vma { vm_end = h.mm.brk }) e
              (Found-start h.mm.start_brk h.mm.mmap vma (
                subst (Found h.mm.start_brk h.mm.mmap) e
                  (find_area-Found h.mm.mmap h.mm.start_brk)))
              lt;
        ends = refl;
      };
    },
  )
]
