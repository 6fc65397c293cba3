-- ===== src/UserPages/Draws.antt =====
-- The pages that the mappings of a process, kernel/sched.c, take for their tables.
use tout_os.Base.{
  ℕ, ◌+◌, ◌-◌, ◌*◌, ◌/◌, ◌^◌, ◌≤◌, ◌≡◌, refl, subst, Bool, true, ◌||◌, Option, List, [], ◌∷◌, ◌==◌,
  if◌then◌else◌, sub64, bit_and, arith, Bool-cases, inl, inr,
}
use tout_os.Pages.{Usage}
use tout_os.PageTable.{PageTables, add_single_map}
use tout_os.PageTable.Draws.{
  laws_aligned, Draining, stuck, drained, no_draw, Draining-append, RunsOut-more, map_loop-Draining,
}
use tout_os.Areas.{Area}
use tout_os.UserPages.{
  get_zeroed_pages, map_attrs, vm_write, setup_user_page_mapping, setup_user_page_mappings,
}
use tout_os.UserPages.Supply.{page_laws}

-- the pages of a range of `size` bytes
abbrev pub pages_in : ℕ → ℕ
pages_in size = (size + 4095) / 4096

abbrev pub area_pages : Area → ℕ
area_pages vma = pages_in (sub64 vma.vm_end vma.vm_start)

-- the pages of the areas
unfoldable pub areas_pages : List Area → ℕ
areas_pages [] = 0
areas_pages (vma ∷ rest) = area_pages vma + areas_pages rest

mapping-Draining :
    (pg_dir virt_addr phy_addr size : ℕ) (rdonly : Bool) (s : PageTables Usage)
    → Draining get_zeroed_pages
        (2 * pages_in size)
        s
        (setup_user_page_mapping pg_dir virt_addr phy_addr size rdonly s)
unfolding setup_user_page_mapping add_single_map
mapping-Draining pg_dir virt_addr phy_addr size rdonly s =
    elim (Bool-cases ((pg_dir == 0) || (phy_addr == 2 ^ 64 - 1))) [
      | inl y ↦ rw (y, if◌then◌else◌) (drained s (0, omega arith, no_draw))
      | inr z ↦
          rw (z, if◌then◌else◌)
            (map_loop-Draining get_zeroed_pages (laws_aligned true get_zeroed_pages page_laws) true
              (map_attrs rdonly) (pages_in size) pg_dir phy_addr virt_addr s)
    ]

module _ (pg_dir : ℕ) (vma : Area) (rest : List Area) (s : PageTables Usage) where
  first_area :
      (r : Option (PageTables Usage))
      → setup_user_page_mapping pg_dir vma.vm_start vma.lma
          (sub64 vma.vm_end vma.vm_start)
          (bit_and vma.vm_flags vm_write == 0)
          s
        ≡ r
      → Draining get_zeroed_pages (2 * area_pages vma) s r
      → ((t : PageTables Usage)
          → Draining get_zeroed_pages
              (2 * areas_pages rest)
              t
              (setup_user_page_mappings pg_dir rest t))
      → Draining get_zeroed_pages
          (2 * area_pages vma + 2 * areas_pages rest)
          s
          (setup_user_page_mappings pg_dir (vma ∷ rest) s)
  unfolding setup_user_page_mappings
  first_area _ e (stuck out) behind =
      let le : 2 * area_pages vma ≤ 2 * area_pages vma + 2 * areas_pages rest = omega arith in
      rw (setup_user_page_mappings, e)
        (stuck (
          RunsOut-more get_zeroed_pages (2 * area_pages vma)
            (2 * area_pages vma + 2 * areas_pages rest) s.pages le out))
  first_area _ e (drained t d) behind =
      rw (setup_user_page_mappings, e)
        (Draining-append get_zeroed_pages (2 * area_pages vma) (2 * areas_pages rest) s t
          (setup_user_page_mappings pg_dir rest t) d (behind t))

-- Two pages at most for each page of the areas.
pub setup_user_page_mappings-Draining :
    (pg_dir : ℕ) (l : List Area) (s : PageTables Usage)
    → Draining get_zeroed_pages (2 * areas_pages l) s (setup_user_page_mappings pg_dir l s)
unfolding setup_user_page_mappings areas_pages
setup_user_page_mappings-Draining pg_dir [] s = drained s (0, omega arith, no_draw)
setup_user_page_mappings-Draining pg_dir (vma ∷ rest) s =
    let e : 2 * area_pages vma + 2 * areas_pages rest ≡ 2 * (area_pages vma + areas_pages rest) =
      omega arith in
    subst
      (λ (k : ℕ). Draining get_zeroed_pages k s (setup_user_page_mappings pg_dir (vma ∷ rest) s)) e
      (first_area pg_dir vma rest s
        (setup_user_page_mapping pg_dir vma.vm_start vma.lma (sub64 vma.vm_end vma.vm_start)
          (bit_and vma.vm_flags vm_write == 0) s)
        refl
        (mapping-Draining pg_dir vma.vm_start vma.lma (sub64 vma.vm_end vma.vm_start)
          (bit_and vma.vm_flags vm_write == 0) s)
        (setup_user_page_mappings-Draining pg_dir rest))
