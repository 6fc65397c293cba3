-- ===== src/Exit/Held.antt =====
-- Blocks of pages that are held over a usage of pages, in the order in which they are freed.
use tout_os.Base.{ℕ, ◌+◌, ◌*◌, ◌≤◌, ◌<◌, ◌≡◌, refl, ap, ◌∙◌, sym, subst, ◌⊎◌, List, [], ◌∷◌, arith}
use tout_os.Pages.{
  Usage, Release, done, free_pages, pages_of, page_pool_start, page_size, max_num_pages, release,
}
use tout_os.Pages.Laws.{free_pages-release, release-Released, Released-done, pow-pos}
use tout_os.Areas.{PagesBlock, free_pages_blocks}

-- every page has the same usage
abbrev pub IsSame : Usage → Usage → Type 0
IsSame u v = (j : ℕ) → u j ≡ v j

-- the pages of a run
abbrev pub IsIn : ℕ → ℕ → ℕ → Type 0
IsIn first n j = (first ≤ j) × (j < first + n)

-- `v` is `u` with the pages of the run set to `x`, and the others as they are
pub record IsFilled (u : Usage) (first n x : ℕ) (v : Usage) : Type 0 where
  pub inside : (j : ℕ) → IsIn first n j → v j ≡ x
  pub outside : (j : ℕ) → (j < first) ⊎ (first + n ≤ j) → v j ≡ u j

-- Freeing the blocks one after the other leads from `u` to `base`.
pub data Held (base : Usage) : List PagesBlock → Usage → Type 0 where
  all_back : {u : Usage} → IsSame u base → Held base [] u
  one_held :
      {pb : PagesBlock} {rest : List PagesBlock} {u : Usage} (first : ℕ)
      → pb.linear_addr ≡ page_pool_start + page_size * first
      → first + pages_of pb.order ≤ max_num_pages
      → ((j : ℕ) → IsIn first (pages_of pb.order) j → u j ≡ 1)
      → ((v : Usage) → IsFilled u first (pages_of pb.order) 0 v → Held base rest v)
      → Held base (pb ∷ rest) u

pub Held-respects :
    {base u v : Usage} {l : List PagesBlock} → Held base l u → IsSame v u → Held base l v
Held-respects (all_back same) e = all_back (λ j. e j ∙ same j)
Held-respects (one_held first at fits full back) e =
    one_held first at fits (λ j i. e j ∙ full j i)
      (λ w s. back w (record { inside = s.inside; outside = λ j away. s.outside j away ∙ e j }))

-- What freeing gives: every page is as in `base`.
pub data Returned (base : Usage) : Release → Type 0 where
  returned : {u : Usage} → IsSame u base → Returned base (done u)

free_pages_blocks-more :
    (pb : PagesBlock) (rest : List PagesBlock) (u v : Usage)
    → free_pages pb.linear_addr pb.order u ≡ done v
    → free_pages_blocks (pb ∷ rest) u ≡ free_pages_blocks rest v
unfolding free_pages_blocks
free_pages_blocks-more pb rest u v e = rw (free_pages_blocks, e) refl

-- Freeing a block whose pages are held sets them to 0.
pub free_pages-IsFilled :
    (addr order first : ℕ) (u : Usage)
    → addr ≡ page_pool_start + page_size * first
    → first + pages_of order ≤ max_num_pages
    → ((j : ℕ) → IsIn first (pages_of order) j → u j ≡ 1)
    → (v : Usage) × (free_pages addr order u ≡ done v) × IsFilled u first (pages_of order) 0 v
free_pages-IsFilled addr order first u at fits full =
    let some_pages = pow-pos order in
    let (v, e, inside, outside) =
      Released-done u first (pages_of order) (release (pages_of order) first u)
        (release-Released (pages_of order) first u fits (λ j lo hi. full j (lo, hi))) in
    (
      v,
      ap (λ (a : ℕ). free_pages a order u) at
          ∙ free_pages-release order first u (omega (arith, fits, some_pages))
          ∙ e,
      record { inside = λ j i. inside j i.0 i.1; outside = outside },
    )

pub free_pages_blocks-Returned :
    {base : Usage} (l : List PagesBlock) (u : Usage)
    → Held base l u
    → Returned base (free_pages_blocks l u)
unfolding free_pages_blocks
free_pages_blocks-Returned [] u (all_back same) = returned same
free_pages_blocks-Returned {base} (pb ∷ rest) u (one_held first at fits full back) =
    let (v, e, set) = free_pages-IsFilled pb.linear_addr pb.order first u at fits full in
    subst (Returned base) (sym (free_pages_blocks-more pb rest u v e))
      (free_pages_blocks-Returned rest v (back v set))
