-- ===== src/Exit/Runs.antt =====
-- A new block among those that are held.
use tout_os.Base.{
  ℕ, ◌+◌, ◌≤◌, ◌<◌, ◌≡◌, refl, ◌∙◌, sym, ◌⊎◌, inl, inr, true, false, ◌&&◌, List, [], ◌∷◌, ◌++◌, leb,
  ltb, if◌then◌else◌, arith, Bool-cases, ◌*◌,
}
use tout_os.Pages.{Usage, pages_of, page_pool_start, page_size, max_num_pages}
use tout_os.Areas.{PagesBlock}
use tout_os.Exit.Held.{IsSame, IsIn, IsFilled, Held, one_held, Held-respects}

-- a page is in a run or outside it
pub IsIn-cases : (first n j : ℕ) → IsIn first n j ⊎ ((j < first) ⊎ (first + n ≤ j))
IsIn-cases first n j = elim (Bool-cases (leb first j)) [
  | inl y ↦ elim (Bool-cases (ltb j (first + n))) [
    | inl y' ↦ inl (ground (arith, y), ground (arith, y'))
    | inr z' ↦ inr (inr (ground (arith, z')))
  ]
  | inr z ↦ inr (inl (ground (arith, z)))
]

-- the usage with a run set to 0
pub cleared : Usage → ℕ → ℕ → Usage
cleared u first n j = if leb first j && ltb j (first + n) then 0 else u j

pub cleared-IsFilled : (u : Usage) (first n : ℕ) → IsFilled u first n 0 (cleared u first n)
unfolding cleared
cleared-IsFilled u first n = record {
  inside = λ j i.
      let (lo, hi) = i in
      let y : (leb first j && ltb j (first + n)) ≡ true = ground (arith, lo, hi) in
      rw (y, if◌then◌else◌) refl;
  outside = λ j away.
      let z : (leb first j && ltb j (first + n)) ≡ false = ground (arith, away) in
      rw (z, if◌then◌else◌) refl;
}

one≢0 : {x : ℕ} → x ≡ 1 → x ≡ 0 → ⊥
one≢0 e z = omega (arith, e, z)

-- A block of pages that were free, put anywhere into the order.
pub Held-insert :
    {base : Usage} (l rest : List PagesBlock) (pb : PagesBlock) (u v : Usage) (first : ℕ)
    → pb.linear_addr ≡ page_pool_start + page_size * first
    → first + pages_of pb.order ≤ max_num_pages
    → ((j : ℕ) → IsIn first (pages_of pb.order) j → u j ≡ 0)
    → IsFilled u first (pages_of pb.order) 1 v
    → Held base (l ++ rest) u
    → Held base (l ++ (pb ∷ rest)) v
Held-insert [] rest pb u v first at fits free set h = one_held first at fits set.inside (λ w s.
    Held-respects h (λ j. elim (IsIn-cases first (pages_of pb.order) j) [
      | inl i ↦ s.inside j i ∙ sym (free j i)
      | inr away ↦ s.outside j away ∙ set.outside j away
    ]))
Held-insert (a ∷ l) rest pb u v first at fits free set (one_held own at_a fits_a full back) =
    let n = pages_of pb.order in
    let m = pages_of a.order in
    let apart = λ (j : ℕ) (i : IsIn own m j) (k : IsIn first n j). one≢0 (full j i) (free j k) in
    one_held own at_a fits_a
      (λ j i. elim (IsIn-cases first n j) [
        | inl k ↦ absurd (apart j i k)
        | inr away ↦ set.outside j away ∙ full j i
      ])
      (λ w s.
        let before = cleared u own m in
        let cl = cleared-IsFilled u own m in
        Held-insert l rest pb before w first at fits
          (λ j k. elim (IsIn-cases own m j) [
            | inl i ↦ cl.inside j i
            | inr away ↦ cl.outside j away ∙ free j k
          ])
          (record {
            inside = λ j k. elim (IsIn-cases own m j) [
              | inl i ↦ absurd (apart j i k)
              | inr away ↦ s.outside j away ∙ set.inside j k
            ];
            outside = λ j away. elim (IsIn-cases own m j) [
              | inl i ↦ s.inside j i ∙ sym (cl.inside j i)
              | inr away' ↦ s.outside j away' ∙ set.outside j away ∙ sym (cl.outside j away')
            ];
          })
          (back before cl))

-- A run that is taken and given back leaves every page as it was.
pub IsFilled-back :
    (u v r : Usage) (first n : ℕ)
    → ((j : ℕ) → IsIn first n j → u j ≡ 0)
    → IsFilled u first n 1 v
    → IsFilled v first n 0 r
    → IsSame r u
IsFilled-back u v r first n free taken back j = elim (IsIn-cases first n j) [
  | inl i ↦ back.inside j i ∙ sym (free j i)
  | inr away ↦ back.outside j away ∙ taken.outside j away
]
