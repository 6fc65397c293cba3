-- ===== src/Areas/Find.antt =====
-- What `find_vma` of kernel/sched.c finds, and after `setup_vma`.
use tout_os.Base.{
  ℕ, ◌≡◌, ◌<◌, ◌≤◌, refl, ◌∙◌, if◌then◌else◌, Bool, true, false, ◌&&◌, Option, none, some, List, [],
  ◌∷◌, ltb, leb, arith, Bool-cases, inl, inr,
}
use tout_os.Areas.{Area, Mm, find_area, find_vma, setup_vma}

-- The address lies in the area.
abbrev pub Holds : ℕ → Area → Type 0
Holds addr vma = (vma.vm_start ≤ addr) × (addr < vma.vm_end)

-- `vma` is an area of the list
pub data IsOf (vma : Area) : List Area → Type 0 where
  here : {rest : List Area} → IsOf vma (vma ∷ rest)
  there : {other : Area} {rest : List Area} → IsOf vma rest → IsOf vma (other ∷ rest)

-- what a search for an address gives
pub data Found (addr : ℕ) (areas : List Area) : Option Area → Type 0 where
  found : {vma : Area} → IsOf vma areas → Holds addr vma → Found addr areas (some vma)
  nothing : ((vma : Area) → IsOf vma areas → Holds addr vma → ⊥) → Found addr areas none

not_first :
    (addr : ℕ) (a vma : Area) (rest : List Area)
    → (Holds addr a → ⊥)
    → ((v : Area) → IsOf v rest → Holds addr v → ⊥)
    → IsOf vma (a ∷ rest)
    → Holds addr vma
    → ⊥
not_first addr a vma rest outside f here h = outside h
not_first addr a vma rest outside f (there i) h = f vma i h

Found-later :
    (addr : ℕ) (a : Area) (rest : List Area) (r : Option Area)
    → (Holds addr a → ⊥)
    → Found addr rest r
    → Found addr (a ∷ rest) r
Found-later addr a rest (some v) outside (found i h) = found (there i) h
Found-later addr a rest none outside (nothing f) =
    nothing (λ vma. not_first addr a vma rest outside f)

pub find_area-Found : (areas : List Area) (addr : ℕ) → Found addr areas (find_area areas addr)
unfolding find_area
find_area-Found [] addr = nothing (λ vma i h. elim i [ ])
find_area-Found (a ∷ rest) addr = elim (Bool-cases (leb a.vm_start addr && ltb addr a.vm_end)) [
  | inl y ↦ rw (y, find_area) (found here (ground (arith, y), ground (arith, y)))
  | inr z ↦
      rw (z, find_area)
        (Found-later addr a rest (find_area rest addr)
          (λ (lo, hi). absurd (ground (arith, z, lo, hi))) (find_area-Found rest addr))
]

-- `find_vma` gives an area of the process in which the address lies, and NULL only when it lies in none.
pub find_vma-Found : (mm : Mm) (addr : ℕ) → Found addr mm.mmap (find_vma (some mm) addr)
unfolding find_vma
find_vma-Found mm addr = find_area-Found mm.mmap addr

pub find_area-first :
    (a : Area) (rest : List Area) (addr : ℕ)
    → a.vm_start ≤ addr
    → addr < a.vm_end
    → find_area (a ∷ rest) addr ≡ some a
unfolding find_area
find_area-first a rest addr lo hi =
    let inside : (leb a.vm_start addr && ltb addr a.vm_end) ≡ true = ground (arith, lo, hi) in
    rw (inside, find_area) refl

abbrev pub new_area : ℕ → ℕ → ℕ → ℕ → Area
new_area vm_start vm_end vm_flags lma = record {
  vm_start = vm_start;
  vm_end = vm_end;
  vm_flags = vm_flags;
  lma = lma;
  pages_block_list = [];
}

find_area-not_first :
    (a : Area) (rest : List Area) (addr : ℕ)
    → (leb a.vm_start addr && ltb addr a.vm_end) ≡ false
    → find_area (a ∷ rest) addr ≡ find_area rest addr
unfolding find_area
find_area-not_first a rest addr outside = rw (outside, find_area) refl

-- After `setup_vma`, `find_vma` of an address in the new area gives that area, with no pages, also when an
-- older area holds the address, and of any other address what it gave before; without memory for the area
-- it gives what it gave before for every address. What it gives is an area of the process in which the
-- address lies, and NULL only when it lies in none.
pub find_vma-setup_vma :
    (has_memory : Bool) (mm : Mm) (addr vm_start vm_end vm_flags lma : ℕ)
    → (mm' : Mm) × ((setup_vma has_memory (some mm) vm_start vm_end vm_flags lma).1 ≡ some mm')
      × (find_vma (some mm') addr ≡ (
          if has_memory && (leb vm_start addr && ltb addr vm_end)
          then some (new_area vm_start vm_end vm_flags lma)
          else find_vma (some mm) addr))
      × Found addr mm'.mmap (find_vma (some mm') addr)
unfolding find_vma setup_vma
find_vma-setup_vma false mm addr vm_start vm_end vm_flags lma =
    (mm, refl, refl, find_area-Found mm.mmap addr)
find_vma-setup_vma true mm addr vm_start vm_end vm_flags lma =
    let a = new_area vm_start vm_end vm_flags lma in
    (
      record mm { mmap = a ∷ mm.mmap },
      refl,
      elim (Bool-cases (leb vm_start addr && ltb addr vm_end)) [
        | inl y ↦
            find_area-first a mm.mmap addr (ground (arith, y)) (ground (arith, y))
            ∙ rw (y, if◌then◌else◌) refl
        | inr z ↦ find_area-not_first a mm.mmap addr z ∙ rw (z, if◌then◌else◌) refl
      ],
      find_area-Found (a ∷ mm.mmap) addr,
    )
