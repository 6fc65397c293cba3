-- ===== src/UserPages/Supply.antt =====
-- The page allocator of mm/memory.c is an allocator that the page tables can rely on.
use tout_os.Base.{
  ℕ, zero, ◌+◌, ◌*◌, ◌%◌, ◌^◌, ◌<◌, ◌≡◌, ◌≢◌, refl, ap, ◌∙◌, sym, subst, true, some, arith,
}
use tout_os.Pages.{Usage, page_pool_start, page_size, max_num_pages}
use tout_os.Pages.Laws.{Granted, granted, get_free_pages-Granted}
use tout_os.PageTable.{to_phys}
use tout_os.PageTable.Tree.{CallocLaws}
use tout_os.UserPages.{get_zeroed_pages}

-- a page of the pool that is not held
abbrev pub IsFree : Usage → ℕ → Type 0
IsFree u p = (i : ℕ) × (i < max_num_pages) × (p ≡ page_pool_start + page_size * i) × (u i ≡ 0)

-- What a page that is given tells: it was free and is not any more, and the others are as they were.
pub record Supplied (u : Usage) (p : ℕ) (u' : Usage) : Type 0 where
  pub number : ℕ
  pub low : number < max_num_pages
  pub at : p ≡ page_pool_start + page_size * number
  pub was_free : u number ≡ 0
  pub held : u' number ≡ 1
  pub others : (j : ℕ) → j ≢ number → u' j ≡ u j

Granted-Supplied : (u : Usage) (p : ℕ) (u' : Usage) → Granted u 1 (some p, u') → Supplied u p u'
Granted-Supplied u _ u' (granted first hi free inside outside) = record {
  number = first;
  low = omega (arith, hi);
  at = refl;
  was_free = free first (omega arith) (omega arith);
  held = inside first (omega arith) (omega arith);
  others = λ j ne. outside j (omega (arith, ne));
}

pub get_zeroed_pages-Supplied :
    (u : Usage) (p : ℕ) (u' : Usage) → get_zeroed_pages u ≡ (some p, u') → Supplied u p u'
unfolding get_zeroed_pages
get_zeroed_pages-Supplied u p u' e =
    Granted-Supplied u p u' (subst (Granted u 1) e (get_free_pages-Granted 0 u))

pub page_apart :
    (i j : ℕ) → page_pool_start + page_size * i ≡ page_pool_start + page_size * j → i ≡ j
page_apart i j e = omega (arith, e)

pub pool_page-bounds :
    (i : ℕ)
    → i < max_num_pages
    → ((page_pool_start + page_size * i) % 4096 ≡ 0)
      × (page_pool_start + page_size * i < 2 ^ 64)
      × (to_phys true (page_pool_start + page_size * i) < 2 ^ 48)
pool_page-bounds i lt = (omega (arith, lt), omega (arith, lt), omega (arith, lt))

pub one≢zero : 1 ≢ zero
one≢zero e = omega (arith, e)

-- the laws of an allocator
abbrev pub page_laws : CallocLaws true get_zeroed_pages
page_laws = record {
  free = IsFree;
  gives = λ u p u' e.
      let s = get_zeroed_pages-Supplied u p u' e in
      let (aligned, below, short) = pool_page-bounds s.number s.low in
      (
        (s.number, s.low, s.at, s.was_free),
        (λ f.
            let (i, lt, at, zero_i) = f in
            let same = page_apart i s.number (sym at ∙ s.at) in
            one≢zero (sym s.held ∙ ap u' (sym same) ∙ zero_i)),
        ap (λ (x : ℕ). x % 4096) s.at ∙ aligned,
        subst (λ (x : ℕ). x < 2 ^ 64) (sym s.at) below,
        subst (λ (x : ℕ). to_phys true x < 2 ^ 48) (sym s.at) short,
      );
  keeps = λ u p u' e q f.
      let s = get_zeroed_pages-Supplied u p u' e in
      let (i, lt, at, zero_i) = f in
      (
        i,
        lt,
        at,
        sym (s.others i (λ same. one≢zero (sym s.held ∙ ap u' (sym same) ∙ zero_i))) ∙ zero_i,
      );
}
