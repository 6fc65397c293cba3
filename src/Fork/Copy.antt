-- ===== src/Fork/Copy.antt =====
-- What the loop over the areas of the parent in sys_fork of kernel/isr.c makes of the areas of the child.
use tout_os.Base.{
  ℕ, ◌+◌, ◌*◌, ◌≤◌, ◌<◌, ◌≡◌, refl, ◌∙◌, sym, subst, inl, inr, ◌⊎◌, Bool, true, Option, some, List,
  [], ◌∷◌, ◌++◌, ◌==◌, bit_and, if◌then◌else◌, ℤ, pos, minus_one, arith, Bool-cases, append_assoc,
}
use tout_os.Pages.{
  Usage, Release, done, free_pages, pages_of, page_pool_start, page_size, max_num_pages,
}
use tout_os.Areas.{Area, Mm, PagesBlock, vm_shared, setup_vma, find_area, add_pages_block}
use tout_os.Areas.Find.{find_area-first}
use tout_os.SystemCalls.{put_area}
use tout_os.SystemCalls.HeapArea.{put_area-here}
use tout_os.Exit.Held.{IsSame, IsIn, IsFilled, Held, Held-respects, free_pages-IsFilled}
use tout_os.Exit.Runs.{Held-insert, IsFilled-back}
use tout_os.Fork.{Child, Copied, copied, fails, added, child_area, with_block, new_block}
use tout_os.Fork.Order.{blocks_of, blocks_of-own, blocks_of-shared}

-- Over the pages `base` the child holds the blocks of its areas, those of a failed copy too, and the areas
-- of a copy that went well are as `IsGood` says.
pub data Kept {M : Type 0} (base : Usage) (IsGood : List Area → Type 0) : Copied M → Type 0 where
  kept :
      {c : Child M}
      → Held base (blocks_of c.mm.mmap) c.usage
      → IsGood c.mm.mmap
      → Kept base IsGood (copied c)
  given_up :
      {mm : Mm} {r : Release} (u : Usage)
      → r ≡ done u
      → Held base (blocks_of mm.mmap) u
      → Kept base IsGood (fails mm r)

-- an area as `setup_vma` makes it
abbrev pub fresh : Area → ℕ → Area
fresh vma lma = record {
  vm_start = vma.vm_start;
  vm_end = vma.vm_end;
  vm_flags = vma.vm_flags;
  lma = lma;
  pages_block_list = [];
}

pub blocks_of-fresh :
    (vma : Area) (lma : ℕ) (l : List Area) → blocks_of (fresh vma lma ∷ l) ≡ blocks_of l
blocks_of-fresh vma lma l = elim (Bool-cases (bit_and vma.vm_flags vm_shared == 0)) [
  | inl y ↦ blocks_of-own (fresh vma lma) l y
  | inr z ↦ blocks_of-shared (fresh vma lma) l z
]

-- the head area with one more block
abbrev pub with_pb : Area → PagesBlock → Area
with_pb a pb = record a { pages_block_list = a.pages_block_list ++ (pb ∷ []) }

-- the block that `add_pages_block` makes
abbrev pub pages : ℕ → ℕ → ℕ → PagesBlock
pages user_virt_addr page order = record {
  user_virt_addr = user_virt_addr;
  linear_addr = page;
  order = order;
}

-- A run of pages of `v` that were free in `u`, at the address `page`.
pub record IsRun (u v : Usage) (page order : ℕ) : Type 0 where
  pub first : ℕ
  pub at : page ≡ page_pool_start + page_size * first
  pub fits : first + pages_of order ≤ max_num_pages
  pub free : (j : ℕ) → IsIn first (pages_of order) j → u j ≡ 0
  pub set : IsFilled u first (pages_of order) 1 v

-- Pages that no area takes go back.
pub IsRun-back :
    (u v : Usage) (page order : ℕ)
    → IsRun u v page order
    → (r : Usage) × (free_pages page order v ≡ done r) × IsSame r u
IsRun-back u v page order run =
    let (r, e, s) = free_pages-IsFilled page order run.first v run.at run.fits run.set.inside in
    (r, e, IsFilled-back u v r run.first (pages_of order) run.free run.set s)

module _ {M : Type 0} (alloc : M → Bool × M) (base : Usage) where
  pub child_area-cases :
      (vma : Area) (lma : ℕ) (c : Child M)
      → (child_area alloc vma lma c
          ≡ copied (record c {
            mm = record c.mm { mmap = fresh vma lma ∷ c.mm.mmap };
            memory = (alloc c.memory).1;
          }))
        ⊎ (child_area alloc vma lma c ≡ fails c.mm (done c.usage))
  unfolding setup_vma
  child_area-cases vma lma c = elim (Bool-cases (alloc c.memory).0) [
    | inl y ↦ inl (rw (y, if◌then◌else◌) refl)
    | inr z ↦ inr (rw (z, if◌then◌else◌) refl)
  ]

  pub child_area-Kept :
      (vma : Area) (lma : ℕ) (c : Child M)
      → Held base (blocks_of c.mm.mmap) c.usage
      → Kept base (λ l. l ≡ fresh vma lma ∷ c.mm.mmap) (child_area alloc vma lma c)
  child_area-Kept vma lma c h = elim (child_area-cases vma lma c) [
    | inl e ↦ subst (Kept base (λ l. l ≡ fresh vma lma ∷ c.mm.mmap)) (sym e) (
        kept
          (subst (λ (l : List PagesBlock). Held base l c.usage)
            (sym (blocks_of-fresh vma lma c.mm.mmap)) h)
          refl)
    | inr e ↦
        subst (Kept base (λ l. l ≡ fresh vma lma ∷ c.mm.mmap)) (sym e) (given_up c.usage refl h)
  ]

  -- `add_pages_block` on an area adds the block or is refused.
  add_pages_block-cases :
      (has_memory : Bool) (a : Area) (user_virt_addr page order : ℕ)
      → (add_pages_block has_memory (some a) user_virt_addr page order
          ≡ (pos 0, some (with_pb a (pages user_virt_addr page order))))
        ⊎ (add_pages_block has_memory (some a) user_virt_addr page order ≡ (minus_one, some a))
  unfolding add_pages_block
  add_pages_block-cases has_memory a user_virt_addr page order =
      elim (Bool-cases (user_virt_addr == 0)) [
        | inl y ↦ inr (rw (add_pages_block, y, if◌then◌else◌) refl)
        | inr z ↦ elim (Bool-cases (page == 0)) [
          | inl y ↦ inr (rw (add_pages_block, z, y, if◌then◌else◌) refl)
          | inr z' ↦ elim (Bool-cases has_memory) [
            | inl y ↦ inl (rw (add_pages_block, z, z', y, if◌then◌else◌) refl)
            | inr n ↦ inr (rw (add_pages_block, z, z', n, if◌then◌else◌) refl)
          ]
        ]
      ]

  -- The area at the head of the list gets a block of pages that were free.
  module _ (mm : Mm) (a : Area) (l : List Area) (memory : M) (u v : Usage) (page order : ℕ)
      (run : IsRun u v page order) (vm_start user_virt_addr : ℕ) (lo : a.vm_start ≤ vm_start)
      (hi : vm_start < a.vm_end) (own : (bit_and a.vm_flags vm_shared == 0) ≡ true)
      (h : Held base (blocks_of (a ∷ l)) u) where
    abbrev before : Child M
    before = record { mm = record mm { mmap = a ∷ l }; usage = v; memory = memory }

    abbrev pb : PagesBlock
    pb = pages user_virt_addr page order

    with_pb-Held : Held base (blocks_of (with_pb a pb ∷ l)) v
    with_pb-Held =
        subst (λ (bs : List PagesBlock). Held base bs v)
          (sym (
            blocks_of-own (with_pb a pb) l own
            ∙ append_assoc a.pages_block_list (pb ∷ []) (blocks_of l)))
          (Held-insert a.pages_block_list (blocks_of l) pb u v run.first run.at run.fits run.free
            run.set (subst (λ (bs : List PagesBlock). Held base bs u) (blocks_of-own a l own) h))

    found : find_area (a ∷ l) vm_start ≡ some a
    found = find_area-first a l vm_start lo hi

    put_here : put_area (a ∷ l) vm_start (with_pb a pb) ≡ with_pb a pb ∷ l
    put_here = put_area-here a l vm_start (with_pb a pb) (ground (arith, lo, hi))

    -- what `with_block` gives for the areas after `add_pages_block`
    abbrev After : Option Mm → Type 0
    After o =
        Kept base (λ m. m ≡ with_pb a pb ∷ l)
          (with_block alloc before page order (alloc memory).1 o)

    pub new_block-Kept :
        Kept base
          (λ m. m ≡ with_pb a pb ∷ l)
          (new_block alloc vm_start user_virt_addr page order before)
    new_block-Kept =
        let Tried : Option Area → Type 0 = λ o. After (
          added before.mm vm_start
            (add_pages_block (alloc memory).0 o user_virt_addr page order)) in
        let Result : ℤ × Option Area → Type 0 = λ r. After (added before.mm vm_start r) in
        subst Tried (sym found)
          (elim (add_pages_block-cases (alloc memory).0 a user_virt_addr page order) [
            | inl e ↦ subst Result (sym e) (
                subst (λ (m : List Area). After (some (record mm { mmap = m }))) (sym put_here)
                  (kept with_pb-Held refl))
            | inr e ↦
                let (r, gone, same) = IsRun-back u v page order run in
                subst Result (sym e) (given_up r gone (Held-respects h same))
          ])
