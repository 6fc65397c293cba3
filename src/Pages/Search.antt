-- ===== src/Pages/Search.antt =====
-- The search of `find_free_pages` of mm/memory.c is sound and complete.
use tout_os.Base.{
  ℕ, zero, suc, ◌+◌, ◌-◌, ◌≤◌, ◌<◌, ◌≡◌, ◌≢◌, ◌⊎◌, inl, inr, Option, none, some, leb, ◌==◌, arith,
  Bool-cases, subst,
}
use tout_os.Pages.{Usage, scan}

-- `n` pages from `a` on are free
abbrev pub FreeRun : Usage → ℕ → ℕ → Type 0
FreeRun u a n = (j : ℕ) → a ≤ j → j < a + n → u j ≡ 0

-- the `count` pages before `i` are free, and no more than these, and they are too few
pub record IsCount (u : Usage) (num count i : ℕ) : Type 0 where
  pub from : ℕ
  pub at : from + count ≡ i
  pub few : count < num
  pub free : FreeRun u from count
  pub edge : (from ≡ 0) ⊎ (u (from - 1) ≢ 0)

-- what the search over the pages from `i` up to `n` gives: a run of `num` free pages by its last, or
-- none that ends there
pub data Scanned (u : Usage) (num i n : ℕ) : Option ℕ → Type 0 where
  found :
      (first last : ℕ)
      → first + num ≡ last + 1
      → last < n
      → FreeRun u first num
      → Scanned u num i n (some last)
  absent : ((a : ℕ) → i < a + num → a + num ≤ n → FreeRun u a num → ⊥) → Scanned u num i n none

FreeRun-suc : {u : Usage} (a n i : ℕ) → a + n ≡ i → u i ≡ 0 → FreeRun u a n → FreeRun u a (n + 1)
FreeRun-suc {u} a n i e z f j lo hi = elim (Bool-cases (j == i)) [
  | inl y ↦ let same : j ≡ i = ground (arith, y) in rw same z
  | inr other ↦ f j lo (ground (arith, other))
]

IsCount-free :
    {u : Usage} {num : ℕ} (count i : ℕ)
    → u i ≡ 0
    → count + 1 ≢ num
    → IsCount u num count i
    → IsCount u num (count + 1) (i + 1)
IsCount-free count i e ne c = record {
  from = c.from;
  at = omega (arith, c.at);
  few = omega (arith, c.few);
  free = FreeRun-suc c.from count i c.at e c.free;
  edge = c.edge;
}

IsCount-used : {u : Usage} {num : ℕ} (i : ℕ) → u i ≢ 0 → 0 < num → IsCount u num 0 (i + 1)
IsCount-used {u} i ne pos = record {
  from = i + 1;
  at = omega arith;
  few = pos;
  free = λ j lo hi. absurd (omega arith);
  edge = inr (let e : i + 1 - 1 ≡ i = omega arith in rw e ne);
}

-- No run ends at `i` when page `i` is the last but the count too small.
no_run_here :
    {u : Usage} {num : ℕ} (count i a : ℕ)
    → IsCount u num count i
    → count + 1 ≢ num
    → a + num ≡ i + 1
    → FreeRun u a num
    → ⊥
no_run_here {u} {num} count i a c ne e f = elim c.edge [
  | inl z ↦ absurd (omega (arith, c.at, c.few))
  | inr used ↦ used (f (c.from - 1) (omega (arith, c.at, c.few)) (omega (arith, c.at, c.few)))
]

Scanned-free :
    {u : Usage} {num : ℕ} (count i n : ℕ) {out : Option ℕ}
    → IsCount u num count i
    → count + 1 ≢ num
    → Scanned u num (i + 1) n out
    → Scanned u num i n out
Scanned-free count i n c ne (found first last e lt f) = found first last e lt f
Scanned-free {u} {num} count i n c ne (absent none_here) = absent (λ a lo hi f.
    elim (Bool-cases (a + num == i + 1)) [
      | inl y ↦ no_run_here count i a c ne (ground (arith, y)) f
      | inr z ↦ none_here a (ground (arith, z)) hi f
    ])

Scanned-used :
    {u : Usage} {num : ℕ} (i n : ℕ) {out : Option ℕ}
    → 0 < num
    → u i ≢ 0
    → Scanned u num (i + 1) n out
    → Scanned u num i n out
Scanned-used i n p ne (found first last e lt f) = found first last e lt f
Scanned-used {u} {num} i n p ne (absent none_here) = absent (λ a lo hi f.
    elim (Bool-cases (leb a i)) [
      | inl y ↦ ne (f i (ground (arith, y)) (omega arith))
      | inr z ↦ let above : i < a = ground (arith, z) in none_here a (omega (arith, above, p)) hi f
    ])

pub scan-Scanned :
    (k num count i n : ℕ) (u : Usage)
    → i + k ≡ n
    → IsCount u num count i
    → Scanned u num i n (scan k num count i u)
unfolding scan
scan-Scanned zero num count i n u e c = absent (λ a lo hi f. omega arith)
scan-Scanned (suc k) num count i n u e c = elim (Bool-cases (u i == 0)) [
  | inl z ↦ elim (Bool-cases (count + 1 == num)) [
    | inl last ↦
        rw (z, last, scan)
          (found c.from i (ground (arith, c.at, last)) (omega arith) (
            subst (FreeRun u c.from) (ground (arith, last))
              (FreeRun-suc c.from count i c.at (ground (arith, z)) c.free)))
    | inr more ↦
        rw (z, more, scan)
          (Scanned-free count i n c (ground (arith, more)) (
            scan-Scanned k num (count + 1) (i + 1) n u (omega arith)
              (IsCount-free count i (ground (arith, z)) (ground (arith, more)) c)))
  ]
  | inr used ↦
      rw (used, scan)
        (Scanned-used i n (omega (arith, c.few)) (ground (arith, used)) (
          scan-Scanned k num 0 (i + 1) n u (omega arith)
            (IsCount-used i (ground (arith, used)) (omega (arith, c.few)))))
]
