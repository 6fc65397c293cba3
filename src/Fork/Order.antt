-- ===== src/Fork/Order.antt =====
-- The order in which exit_mm of kernel/sched.c frees the blocks of the areas.
use tout_os.Base.{
  ◌≡◌, refl, ap, ◌∙◌, sym, subst, inl, inr, ◌⊎◌, true, false, List, [], ◌∷◌, ◌++◌, ◌==◌, bit_and,
  if◌then◌else◌, Bool-cases,
}
use mathlib.Core.Path.{fun_ext}
use tout_os.Pages.{Usage, Release, done, wild, halted, free_pages}
use tout_os.Areas.{Area, PagesBlock, free_pages_blocks, exit_areas, vm_shared}
use tout_os.Exit.{then_release}
use tout_os.Exit.Held.{Held, Returned, free_pages_blocks-Returned}

-- the blocks of the areas that are not shared
unfoldable pub blocks_of : List Area → List PagesBlock
blocks_of [] = []
blocks_of (vma ∷ rest) =
    if bit_and vma.vm_flags vm_shared == 0
    then vma.pages_block_list ++ blocks_of rest
    else blocks_of rest

pub blocks_of-own :
    (a : Area) (l : List Area)
    → (bit_and a.vm_flags vm_shared == 0) ≡ true
    → blocks_of (a ∷ l) ≡ a.pages_block_list ++ blocks_of l
unfolding blocks_of
blocks_of-own a l y = rw (blocks_of, y, if◌then◌else◌) refl

pub blocks_of-shared :
    (a : Area) (l : List Area)
    → (bit_and a.vm_flags vm_shared == 0) ≡ false
    → blocks_of (a ∷ l) ≡ blocks_of l
unfolding blocks_of
blocks_of-shared a l z = rw (blocks_of, z, if◌then◌else◌) refl

Release-cases : (r : Release) → ((r ≡ wild) ⊎ (r ≡ halted)) ⊎ ((u : Usage) × (r ≡ done u))
Release-cases wild = inl (inl refl)
Release-cases halted = inl (inr refl)
Release-cases (done u) = inr (u, refl)

free_pages_blocks-more :
    (pb : PagesBlock) (l : List PagesBlock) (u : Usage)
    → free_pages_blocks (pb ∷ l) u
      ≡ then_release (free_pages pb.linear_addr pb.order u) (λ v. free_pages_blocks l v)
unfolding free_pages_blocks
free_pages_blocks-more pb l u = elim (Release-cases (free_pages pb.linear_addr pb.order u)) [
  | inl (inl e) ↦ rw (free_pages_blocks, e) refl
  | inl (inr e) ↦ rw (free_pages_blocks, e) refl
  | inr (v, e) ↦ rw (free_pages_blocks, e) refl
]

free_pages_blocks-append :
    (l m : List PagesBlock) (u : Usage)
    → free_pages_blocks (l ++ m) u
      ≡ then_release (free_pages_blocks l u) (λ v. free_pages_blocks m v)
unfolding free_pages_blocks
free_pages_blocks-append [] m u = refl
free_pages_blocks-append (pb ∷ l) m u =
    elim (Release-cases (free_pages pb.linear_addr pb.order u)) [
      | inl (inl e) ↦
          rw (free_pages_blocks-more pb (l ++ m) u, free_pages_blocks-more pb l u, e) refl
      | inl (inr e) ↦
          rw (free_pages_blocks-more pb (l ++ m) u, free_pages_blocks-more pb l u, e) refl
      | inr (v, e) ↦
          rw (free_pages_blocks-more pb (l ++ m) u, free_pages_blocks-more pb l u, e)
            (free_pages_blocks-append l m v)
    ]

exit_areas-own :
    (a : Area) (l : List Area) (u : Usage)
    → (bit_and a.vm_flags vm_shared == 0) ≡ true
    → exit_areas (a ∷ l) u
      ≡ then_release (free_pages_blocks a.pages_block_list u) (λ v. exit_areas l v)
unfolding exit_areas
exit_areas-own a l u y = elim (Release-cases (free_pages_blocks a.pages_block_list u)) [
  | inl (inl e) ↦ rw (exit_areas, y, e) refl
  | inl (inr e) ↦ rw (exit_areas, y, e) refl
  | inr (v, e) ↦ rw (exit_areas, y, e) refl
]

exit_areas-shared :
    (a : Area) (l : List Area) (u : Usage)
    → (bit_and a.vm_flags vm_shared == 0) ≡ false
    → exit_areas (a ∷ l) u ≡ exit_areas l u
unfolding exit_areas
exit_areas-shared a l u z = rw (exit_areas, z) refl

exit_areas-blocks_of :
    (l : List Area) (u : Usage) → exit_areas l u ≡ free_pages_blocks (blocks_of l) u
unfolding exit_areas blocks_of free_pages_blocks
exit_areas-blocks_of [] u = refl
exit_areas-blocks_of (a ∷ l) u = elim (Bool-cases (bit_and a.vm_flags vm_shared == 0)) [
  | inl y ↦
      exit_areas-own a l u y
      ∙ ap (then_release (free_pages_blocks a.pages_block_list u))
          (fun_ext (λ v. exit_areas-blocks_of l v))
      ∙ sym (free_pages_blocks-append a.pages_block_list (blocks_of l) u)
      ∙ ap (λ (m : List PagesBlock). free_pages_blocks m u) (sym (blocks_of-own a l y))
  | inr z ↦
      exit_areas-shared a l u z
      ∙ exit_areas-blocks_of l u
      ∙ ap (λ (m : List PagesBlock). free_pages_blocks m u) (sym (blocks_of-shared a l z))
]

-- Freeing the areas whose blocks are held gives every page back.
pub exit_areas-Returned :
    (base : Usage) (l : List Area) (u : Usage)
    → Held base (blocks_of l) u
    → Returned base (exit_areas l u)
exit_areas-Returned base l u h =
    subst (Returned base) (sym (exit_areas-blocks_of l u))
      (free_pages_blocks-Returned (blocks_of l) u h)
