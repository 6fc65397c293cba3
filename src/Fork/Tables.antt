-- ===== src/Fork/Tables.antt =====
-- The pages that sys_fork of kernel/isr.c takes for the tables of the child, behind those of its areas.
use tout_os.Base.{
  ℕ, suc, ◌+◌, ◌≤◌, ◌<◌, ◌≡◌, ◌≢◌, ap, ◌∙◌, sym, ◌⊎◌, inl, inr, List, [], ◌∷◌, ◌==◌, if◌then◌else◌,
  arith, Bool-cases,
}
use tout_os.Pages.{Usage, pages_of, max_num_pages}
use tout_os.PageTable.Draws.{Draws, no_draw, draw}
use tout_os.Areas.{PagesBlock}
use tout_os.UserPages.{get_zeroed_pages}
use tout_os.UserPages.Supply.{get_zeroed_pages-Supplied}
use tout_os.Exit.Held.{IsIn, IsFilled, Held, all_back, one_held}
use tout_os.Exit.Runs.{IsIn-cases, cleared, cleared-IsFilled}

abbrev pub take_page : Usage → ℕ → Usage
take_page u i j = if j == i then 1 else u j

-- `w` is `u` with `k` pages taken that were free.
pub data Takes : ℕ → Usage → Usage → Type 0 where
  nothing : {u : Usage} → Takes 0 u u
  takes :
      {k : ℕ} {u w : Usage} (i : ℕ)
      → i < max_num_pages
      → u i ≡ 0
      → Takes k (take_page u i) w
      → Takes (suc k) u w

-- what is left at the page `i` and at the others
pub record Took (u : Usage) (i : ℕ) (v : Usage) : Type 0 where
  pub was_free : u i ≡ 0
  pub held : v i ≡ 1
  pub others : (j : ℕ) → j ≢ i → v j ≡ u j

Took-same : (u v : Usage) (i j : ℕ) → Took u i v → v j ≡ take_page u i j
Took-same u v i j took = elim (Bool-cases (j == i)) [
  | inl y ↦ let e : j ≡ i = ground (arith, y) in rw (y, if◌then◌else◌) (ap v e ∙ took.held)
  | inr z ↦ rw (z, if◌then◌else◌) (took.others j (ground (arith, z)))
]

-- a page that is free is in no run that is held
free_apart :
    (u : Usage) (i own m : ℕ)
    → ((j : ℕ) → IsIn own m j → u j ≡ 1)
    → u i ≡ 0
    → (i < own) ⊎ (own + m ≤ i)
free_apart u i own m full free = elim (IsIn-cases own m i) [
  | inl k ↦ absurd (let e = full i k in omega (arith, e, free))
  | inr away ↦ away
]

in_apart : (i own m j : ℕ) → (i < own) ⊎ (own + m ≤ i) → IsIn own m j → j ≢ i
in_apart i own m j away (lo, hi) e = omega (arith, away, lo, hi, e)

-- the run of the first block is freed
Took-cleared :
    (u v w : Usage) (i own m : ℕ)
    → (i < own) ⊎ (own + m ≤ i)
    → Took u i v
    → IsFilled v own m 0 w
    → Took (cleared u own m) i w
Took-cleared u v w i own m away took s =
    let cl = cleared-IsFilled u own m in
    record {
      was_free = cl.outside i away ∙ took.was_free;
      held = s.outside i away ∙ took.held;
      others = λ j ne. elim (IsIn-cases own m j) [
        | inl k ↦ s.inside j k ∙ sym (cl.inside j k)
        | inr off ↦ s.outside j off ∙ took.others j ne ∙ sym (cl.outside j off)
      ];
    }

-- A page that is taken behind the blocks is taken from what they lead back to.
Held-take :
    {base : Usage} (l : List PagesBlock) (u v : Usage) (i : ℕ)
    → Took u i v
    → Held base l u
    → (base i ≡ 0) × Held (take_page base i) l v
Held-take {base} [] u v i took (all_back same) = (
  sym (same i) ∙ took.was_free,
  all_back (λ j. Took-same u v i j took ∙ ap (λ (x : ℕ). if j == i then 1 else x) (same j)),
)
Held-take {base} (pb ∷ rest) u v i took (one_held own at fits full back) =
    let m = pages_of pb.order in
    let away = free_apart u i own m full took.was_free in
    let behind = λ (w : Usage) (s : IsFilled v own m 0 w).
      Held-take rest (cleared u own m) w i (Took-cleared u v w i own m away took s)
        (back (cleared u own m) (cleared-IsFilled u own m)) in
    (
      (behind (cleared v own m) (cleared-IsFilled v own m)).0,
      one_held own at fits (λ j k. took.others j (in_apart i own m j away k) ∙ full j k)
          (λ w s. (behind w s).1),
    )

-- the same for all the pages of the tables
pub Held-takes :
    (l : List PagesBlock) {k : ℕ} {u v : Usage}
    → Draws get_zeroed_pages k u v
    → (base : Usage) → Held base l u
    → (left : Usage) × Takes k base left × Held left l v
Held-takes l no_draw base h = (base, nothing, h)
Held-takes l (draw {a = u} {b = w} p e rest) base h =
    let s = get_zeroed_pages-Supplied u p w e in
    let (free, h') =
      Held-take l u w s.number (record { was_free = s.was_free; held = s.held; others = s.others })
        h in
    let (left, more, h'') = Held-takes l rest (take_page base s.number) h' in
    (left, takes s.number s.low free more, h'')
