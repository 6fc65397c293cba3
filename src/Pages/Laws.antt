-- ===== src/Pages/Laws.antt =====
-- What get_free_pages and free_pages of mm/memory.c do to `pages_usage`.
use tout_os.Base.{
  ℕ, zero, suc, ◌+◌, ◌-◌, ◌*◌, ◌/◌, ◌%◌, ◌^◌, ◌≤◌, ◌<◌, ◌≡◌, ◌≢◌, refl, ◌∙◌, sym, ◌⊎◌, inl, inr,
  true, false, Option, none, some, ltb, leb, ◌==◌, ◌||◌, if◌then◌else◌, arith, Bool-cases, subst,
}
use tout_os.Pages.{
  Usage, scan, store, mark, find_free_pages, get_free_pages, pages_of, page_address, page_size,
  page_pool_start, page_pool_end, max_num_pages, Release, wild, halted, done, release, free_pages,
}
use tout_os.Pages.Search.{FreeRun, Scanned, found, absent, scan-Scanned}

mark-outside : (n i : ℕ) (u : Usage) (j : ℕ) → (j < i) ⊎ (i + n ≤ j) → mark n i u j ≡ u j
unfolding mark
mark-outside zero i u j away = refl
mark-outside (suc n) i u j away =
    let apart : j ≢ i = omega (arith, away) in
    let same : store u i 1 j ≡ u j = ground (arith, apart) in
    mark-outside n (i + 1) (store u i 1) j (omega (arith, away)) ∙ same

mark-inside : (n i : ℕ) (u : Usage) (j : ℕ) → i ≤ j → j < i + n → mark n i u j ≡ 1
unfolding mark
mark-inside zero i u j lo hi = absurd (omega arith)
mark-inside (suc n) i u j lo hi = elim (Bool-cases (j == i)) [
  | inl here ↦
      mark-outside n (i + 1) (store u i 1) j (inl (ground (arith, here))) ∙ rw (here, if◌then◌else◌)
  | inr there ↦ mark-inside n (i + 1) (store u i 1) j (ground (arith, there)) (omega arith)
]

-- What `get_free_pages` gives from the usage `u`: the first of `n` free pages that are now marked, or
-- NULL and the usage as it was when there are none.
pub data Granted (u : Usage) (n : ℕ) : Option ℕ × Usage → Type 0 where
  granted :
      (first : ℕ) {u' : Usage}
      → first + n ≤ max_num_pages
      → FreeRun u first n
      → ((j : ℕ) → first ≤ j → j < first + n → u' j ≡ 1)
      → ((j : ℕ) → (j < first) ⊎ (first + n ≤ j) → u' j ≡ u j)
      → Granted u n (some (page_pool_start + page_size * first), u')
  refused :
      ((first : ℕ) → first + n ≤ max_num_pages → FreeRun u first n → ⊥) → Granted u n (none, u)

pub pow-pos : (k : ℕ) → 0 < 2 ^ k
pow-pos zero = omega arith
pow-pos (suc k) = omega (arith, pow-pos k)

find_free_pages-none :
    (order : ℕ) (u : Usage)
    → 0 < pages_of order
    → scan max_num_pages (pages_of order) 0 0 u ≡ none
    → find_free_pages (pages_of order) u ≡ (none, u)
unfolding find_free_pages
find_free_pages-none order u p e =
    let z : (pages_of order == 0) ≡ false = ground (arith, p) in rw (z, e)

find_free_pages-some :
    (order first l : ℕ) (u : Usage)
    → 0 < pages_of order
    → first + pages_of order ≡ l + 1
    → scan max_num_pages (pages_of order) 0 0 u ≡ some l
    → find_free_pages (pages_of order) u ≡ (some first, mark (pages_of order) first u)
unfolding find_free_pages
find_free_pages-some order first l u p at e =
    let z : (pages_of order == 0) ≡ false = ground (arith, p) in
    let start : l + 1 - pages_of order ≡ first = omega (arith, at) in rw (z, e, start)

grant_of :
    (order : ℕ) (u : Usage) (out : Option ℕ)
    → 0 < pages_of order
    → scan max_num_pages (pages_of order) 0 0 u ≡ out
    → Scanned u (pages_of order) 0 max_num_pages out
    → Granted u (pages_of order) (get_free_pages order u)
unfolding get_free_pages
grant_of order u (some l) p e (found first last at lt free) =
    subst (λ r. Granted u (pages_of order) (page_address r))
      (sym (find_free_pages-some order first l u p at e))
      (granted first (omega (arith, at, lt)) free (mark-inside (pages_of order) first u)
        (mark-outside (pages_of order) first u))
grant_of order u none p e (absent none_here) =
    subst (λ r. Granted u (pages_of order) (page_address r))
      (sym (find_free_pages-none order u p e))
      (refused (λ first hi f. none_here first (omega (arith, p)) hi f))

-- `get_free_pages` gives the first of 2 ^ order free pages in a row, marks these and no others, and
-- gives NULL only when no such pages exist. It then leaves the usage as it was.
pub get_free_pages-Granted :
    (order : ℕ) (u : Usage) → Granted u (pages_of order) (get_free_pages order u)
get_free_pages-Granted order u =
    grant_of order u (scan max_num_pages (pages_of order) 0 0 u) (pow-pos order) refl (
      scan-Scanned max_num_pages (pages_of order) 0 0 max_num_pages u refl record {
        from = 0;
        at = refl;
        few = pow-pos order;
        free = λ j lo hi. absurd (omega arith);
        edge = inl refl;
      })

-- the usage after `n` pages from `i` on are released, at one page
pub data Released (u : Usage) (i n : ℕ) : Release → Type 0 where
  released :
      {u' : Usage}
      → ((j : ℕ) → i ≤ j → j < i + n → u' j ≡ 0)
      → ((j : ℕ) → (j < i) ⊎ (i + n ≤ j) → u' j ≡ u j)
      → Released u i n (done u')

Released-suc :
    (u : Usage) (i n : ℕ) {r : Release}
    → Released (store u i 0) (i + 1) n r
    → Released u i (suc n) r
Released-suc u i n (released inside outside) =
    released
      (λ j lo hi. elim (Bool-cases (j == i)) [
        | inl here ↦ outside j (inl (ground (arith, here))) ∙ rw (here, if◌then◌else◌)
        | inr there ↦ inside j (ground (arith, there)) (omega arith)
      ])
      (λ j away.
        let apart : j ≢ i = omega (arith, away) in
        let same : store u i 0 j ≡ u j = ground (arith, apart) in
        outside j (omega (arith, away)) ∙ same)

pub release-Released :
    (n i : ℕ) (u : Usage)
    → i + n ≤ max_num_pages
    → ((j : ℕ) → i ≤ j → j < i + n → u j ≡ 1)
    → Released u i n (release n i u)
unfolding release
release-Released zero i u hi full = released (λ j lo up. absurd (omega arith)) (λ j away. refl)
release-Released (suc n) i u hi full =
    let low : ltb i max_num_pages ≡ true = ground (arith, hi) in
    let here : u i ≡ 1 = full i (omega arith) (omega arith) in
    rw (low, here, release)
      (Released-suc u i n (
        release-Released n (i + 1) (store u i 0) (omega (arith, hi)) (λ j lo up.
          let apart : j ≢ i = omega (arith, lo) in
          let same : store u i 0 j ≡ u j = ground (arith, apart) in
          same ∙ full j (omega arith) (omega (arith, up)))))

-- `free_pages` of a page of the pool is the loop from its number on.
pub free_pages-release :
    (order first : ℕ) (u : Usage)
    → first < max_num_pages
    → free_pages (page_pool_start + page_size * first) order u ≡ release (pages_of order) first u
unfolding free_pages
free_pages-release order first u lt =
    let inside : (ltb (page_pool_start + page_size * first) page_pool_start
          || leb page_pool_end (page_pool_start + page_size * first))
        ≡ false =
      ground (arith, lt) in
    let aligned : ((page_pool_start + page_size * first) % page_size == 0) ≡ true =
      ground (arith, lt) in
    let number : (page_pool_start + page_size * first - page_pool_start) / page_size ≡ first =
      omega (arith, lt) in
    rw (inside, aligned, number)

pub Released-done :
    (u : Usage) (i n : ℕ) (r : Release)
    → Released u i n r
    → (u' : Usage) × (r ≡ done u')
      × ((j : ℕ) → i ≤ j → j < i + n → u' j ≡ 0)
      × ((j : ℕ) → (j < i) ⊎ (i + n ≤ j) → u' j ≡ u j)
Released-done u i n wild r = elim r [ ]
Released-done u i n halted r = elim r [ ]
Released-done u i n (done u') (released inside outside) = (u', refl, inside, outside)

release-halted :
    (n i : ℕ) (u : Usage) → 0 < n → i < max_num_pages → u i ≡ 0 → release n i u ≡ halted
unfolding release
release-halted zero i u p lt e = absurd (omega arith)
release-halted (suc n) i u p lt e =
    let low : ltb i max_num_pages ≡ true = ground (arith, lt) in rw (low, e, release)

-- one page, before, while and after it is held
page_back :
    (u u' u'' : Usage) (first n j : ℕ)
    → FreeRun u first n
    → ((j : ℕ) → (j < first) ⊎ (first + n ≤ j) → u' j ≡ u j)
    → ((j : ℕ) → first ≤ j → j < first + n → u'' j ≡ 0)
    → ((j : ℕ) → (j < first) ⊎ (first + n ≤ j) → u'' j ≡ u' j)
    → u'' j ≡ u j
page_back u u' u'' first n j free kept zeroed kept' = elim (Bool-cases (ltb j first)) [
  | inl below ↦
      let away : j < first = ground (arith, below) in kept' j (inl away) ∙ kept j (inl away)
  | inr z ↦ elim (Bool-cases (ltb j (first + n))) [
    | inl y ↦
        let lo : first ≤ j = ground (arith, z) in
        let hi : j < first + n = ground (arith, y) in zeroed j lo hi ∙ sym (free j lo hi)
    | inr above ↦
        let away : first + n ≤ j = ground (arith, above) in kept' j (inr away) ∙ kept j (inr away)
  ]
]

back_of :
    (order : ℕ) (u u' : Usage) (addr : ℕ)
    → 0 < pages_of order
    → Granted u (pages_of order) (some addr, u')
    → (u'' : Usage) × (free_pages addr order u' ≡ done u'')
      × ((j : ℕ) → u'' j ≡ u j)
      × (free_pages addr order u'' ≡ halted)
back_of order u u' addr p (granted first hi free inside outside) =
    let n = pages_of order in
    let lt : first < max_num_pages = omega (arith, hi, p) in
    let (u'', e, zeroed, kept) =
      Released-done u' first n (release n first u') (release-Released n first u' hi inside) in
    (
      u'',
      free_pages-release order first u' lt ∙ e,
      (λ j. page_back u u' u'' first n j free outside zeroed kept),
      free_pages-release order first u'' lt
          ∙ release-halted n first u'' p lt (zeroed first (omega arith) (omega (arith, p))),
    )

-- When `get_free_pages` gives an address, `free_pages` with the same order does not halt and makes
-- every page what it was before the two calls, and a second `free_pages` runs into the assertion.
pub free_pages-get_free_pages :
    (order : ℕ) (u u' : Usage) (addr : ℕ)
    → get_free_pages order u ≡ (some addr, u')
    → (u'' : Usage) × (free_pages addr order u' ≡ done u'')
      × ((j : ℕ) → u'' j ≡ u j)
      × (free_pages addr order u'' ≡ halted)
free_pages-get_free_pages order u u' addr e =
    back_of order u u' addr (pow-pos order)
      (subst (Granted u (pages_of order)) e (get_free_pages-Granted order u))
