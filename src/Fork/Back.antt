-- ===== src/Fork/Back.antt =====
-- How sys_fork of kernel/isr.c ends: with a child like its parent, or with every page given back.
use tout_os.Base.{
  ℕ, zero, suc, ◌+◌, ◌≤◌, ◌<◌, ◌≡◌, refl, ◌∙◌, sym, subst, ◌⊎◌, Bool, true, false, List, [], ◌∷◌,
  ◌==◌, arith,
}
use tout_os.Pages.{Usage, Release, wild, halted, done, free_pages}
use tout_os.PageTable.{entry, zero_page}
use tout_os.PageTable.Tree.{zero_page_inside}
use tout_os.Areas.{Area, exit_areas}
use tout_os.Exit.{then_release, layer0_loop, free_page_tables, exit_mm}
use tout_os.Exit.Held.{IsFilled, Held, Returned, returned, free_pages-IsFilled}
use tout_os.Exit.Runs.{IsFilled-back}
use tout_os.Fork.{Child, Copied, copied, fails, no_lma, copy_area, copy_areas}
use tout_os.Fork.Order.{blocks_of, exit_areas-Returned}
use tout_os.Fork.Copy.{Kept, kept, given_up, IsRun}
use tout_os.Fork.Areas.{Kept-map}
use tout_os.Fork.Children.{IsCopy, copy_area-Kept}

-- The areas `after` are those `before` with the copies of `parents` in front, the last one first.
pub data Copies : List Area → List Area → List Area → Type 0 where
  nothing_left : {l : List Area} → Copies [] l l
  one_copied :
      {a b : Area} {rest l m : List Area}
      → IsCopy a b
      → Copies rest (b ∷ l) m
      → Copies (a ∷ rest) l m

-- an area has bytes, or it has no pages to copy
abbrev pub IsCopyable : Area → Type 0
IsCopyable a = ((a.pages_block_list ≡ []) × (a.lma ≡ no_lma)) ⊎ (a.vm_start < a.vm_end)

pub data AllCopyable : List Area → Type 0 where
  no_area : AllCopyable []
  and_area : {a : Area} {l : List Area} → IsCopyable a → AllCopyable l → AllCopyable (a ∷ l)

module _ {M : Type 0} (alloc : M → Bool × M) (base : Usage) where
  copy_areas-more :
      (a : Area) (rest : List Area) (c : Child M) (r : Copied M)
      → copy_area alloc a c ≡ r
      → Kept base (λ m. (b : Area) × (m ≡ b ∷ c.mm.mmap) × IsCopy a b) r
      → ((d : Child M)
          → Held base (blocks_of d.mm.mmap) d.usage
          → Kept base (λ m. Copies rest d.mm.mmap m) (copy_areas alloc rest d))
      → Kept base (λ m. Copies (a ∷ rest) c.mm.mmap m) (copy_areas alloc (a ∷ rest) c)
  unfolding copy_areas
  copy_areas-more a rest c (copied d) e (kept h (b, same, copy)) go =
      rw (copy_areas, e)
        (Kept-map (λ m more. one_copied copy (subst (λ (l : List Area). Copies rest l m) same more))
          (go d h))
  copy_areas-more a rest c (fails mm r) e (given_up v gone h) go =
      rw (copy_areas, e) (given_up v gone h)

  pub copy_areas-Kept :
      (l : List Area) (c : Child M)
      → AllCopyable l
      → Held base (blocks_of c.mm.mmap) c.usage
      → Kept base (λ m. Copies l c.mm.mmap m) (copy_areas alloc l c)
  unfolding copy_areas
  copy_areas-Kept [] c no_area h = kept h nothing_left
  copy_areas-Kept (a ∷ rest) c (and_area room more) h =
      copy_areas-more a rest c (copy_area alloc a c) refl (copy_area-Kept alloc base a c room h)
        (λ d held. copy_areas-Kept rest d more held)

-- A directory without an entry is the only page of its tables.
layer0_loop-empty :
    (n i : ℕ) (mem : ℕ → ℕ) (pg_dir : ℕ) (u : Usage)
    → i + n ≤ 512
    → ((j : ℕ) → j < 512 → mem (entry pg_dir j) ≡ 0)
    → layer0_loop n i mem pg_dir u ≡ done u
unfolding layer0_loop
layer0_loop-empty zero i mem pg_dir u le empty = refl
layer0_loop-empty (suc n) i mem pg_dir u le empty =
    let none_here = empty i (omega (arith, le)) in
    let y : (mem (entry pg_dir i) == 0) ≡ true = ground (arith, none_here) in
    rw (layer0_loop, y) (layer0_loop-empty n (i + 1) mem pg_dir u (omega (arith, le)) empty)

free_page_tables-empty :
    (mem : ℕ → ℕ) (pg_dir : ℕ) (u : Usage)
    → (pg_dir == 0) ≡ false
    → ((j : ℕ) → j < 512 → mem (entry pg_dir j) ≡ 0)
    → free_page_tables mem pg_dir u ≡ free_pages pg_dir 0 u
unfolding free_page_tables
free_page_tables-empty mem pg_dir u z empty =
    rw (free_page_tables, z, layer0_loop-empty 512 0 mem pg_dir u (omega arith) empty) refl

exit_mm-after :
    (mmap : List Area) (mem : ℕ → ℕ) (pg_dir : ℕ) (u : Usage) (r : Release)
    → exit_areas mmap u ≡ r
    → exit_mm mmap mem pg_dir u ≡ then_release r (λ v. free_page_tables mem pg_dir v)
unfolding exit_mm
exit_mm-after mmap mem pg_dir u r e = rw (exit_mm, e) refl

-- The directory is freed behind the areas.
exit_mm-directory :
    (base before : Usage) (mmap : List Area) (mem : ℕ → ℕ) (pg_dir : ℕ) (v : Usage)
    → IsRun before base pg_dir 0
    → (r : Release) → exit_areas mmap v ≡ r
    → Returned base r
    → Returned before (exit_mm mmap (zero_page mem pg_dir) pg_dir v)
exit_mm-directory base before mmap mem pg_dir v run wild e back = elim back [ ]
exit_mm-directory base before mmap mem pg_dir v run halted e back = elim back [ ]
exit_mm-directory base before mmap mem pg_dir v run (done w) e (returned same) =
    let cleared = zero_page mem pg_dir in
    let at = run.at in
    let z : (pg_dir == 0) ≡ false = ground (arith, at) in
    let (x, freed, set) =
      free_pages-IsFilled pg_dir 0 run.first w run.at run.fits
        (λ j i. same j ∙ run.set.inside j i) in
    let over : IsFilled base run.first 1 0 x = record {
      inside = set.inside;
      outside = λ j away. set.outside j away ∙ same j;
    } in
    subst (Returned before)
      (sym (
        exit_mm-after mmap cleared pg_dir v (done w) e
        ∙ free_page_tables-empty cleared pg_dir w z (λ j lt. zero_page_inside mem pg_dir j lt)
        ∙ freed))
      (returned (IsFilled-back before base x run.first 1 run.free run.set over))

-- `exit_mm` gives back the blocks of the areas and the empty directory.
pub exit_mm-Returned :
    (base before : Usage) (mmap : List Area) (mem : ℕ → ℕ) (pg_dir : ℕ) (v : Usage)
    → IsRun before base pg_dir 0
    → Held base (blocks_of mmap) v
    → Returned before (exit_mm mmap (zero_page mem pg_dir) pg_dir v)
exit_mm-Returned base before mmap mem pg_dir v run held =
    exit_mm-directory base before mmap mem pg_dir v run (exit_areas mmap v) refl
      (exit_areas-Returned base mmap v held)
