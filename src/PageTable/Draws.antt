-- ===== src/PageTable/Draws.antt =====
-- The pages that the mapping of mm/page_table.c takes from its allocator, whatever the tables hold.
use tout_os.Base.{
  ℕ, zero, suc, ◌+◌, ◌*◌, ◌%◌, ◌≤◌, ◌<◌, ◌≡◌, refl, subst, sym, Bool, true, false, Option, none,
  some, List, [], ◌∷◌, ◌==◌, if◌then◌else◌, arith, Bool-cases, inl, inr,
}
use tout_os.PageTable.{
  get_pg_entry_index, entry, next_table, Calloc, PageTables, fill_table, hang_table, fill_page,
  setup_loop, setup_pg_for_addr, map_loop,
}
use tout_os.PageTable.Tree.{CallocLaws}

-- `k` calls of the allocator from the state `a` give pages and end in the state `c`.
pub data Draws {A : Type 0} (calloc : Calloc A) : ℕ → A → A → Type 0 where
  no_draw : {a : A} → Draws calloc 0 a a
  draw :
      {k : ℕ} {a b c : A} (p : ℕ)
      → calloc a ≡ (some p, b)
      → Draws calloc k b c
      → Draws calloc (suc k) a c

-- `n` calls or fewer lead from `a` to `c`.
abbrev pub Drawn : {A : Type 0} → Calloc A → ℕ → A → A → Type 0
Drawn calloc n a c = (k : ℕ) × (k ≤ n) × Draws calloc k a c

-- After fewer than `n` calls from `a` the allocator has no page.
abbrev pub RunsOut : {A : Type 0} → Calloc A → ℕ → A → Type 0
RunsOut {A} calloc n a =
    (k : ℕ) × (b : A) × (c : A) × (k < n) × Draws calloc k a b × (calloc b ≡ (none, c))

-- An operation that calls the allocator `n` times at most, and fails only when a call gives no page.
pub data Draining {A : Type 0} (calloc : Calloc A) (n : ℕ) (s : PageTables A)
    : Option (PageTables A) → Type 0 where
  stuck : RunsOut calloc n s.pages → Draining calloc n s none
  drained : (t : PageTables A) → Drawn calloc n s.pages t.pages → Draining calloc n s (some t)

module _ {A : Type 0} (calloc : Calloc A) where
  pub Draining-RunsOut :
      (n : ℕ) (s : PageTables A) → Draining calloc n s none → RunsOut calloc n s.pages
  Draining-RunsOut n s (stuck r) = r

  pub Draining-Drawn :
      (n : ℕ) (s t : PageTables A) → Draining calloc n s (some t) → Drawn calloc n s.pages t.pages
  Draining-Drawn n s t (drained _ d) = d

  Draws-append :
      {j : ℕ} (k : ℕ) {a b : A} (c : A)
      → Draws calloc j a b
      → Draws calloc k b c
      → Draws calloc (j + k) a c
  Draws-append k c (no_draw {a = a}) d =
      let e : k ≡ 0 + k = omega arith in subst (λ (n : ℕ). Draws calloc n a c) e d
  Draws-append k c (draw {k = j} {a = a} p e rest) d =
      let same : suc (j + k) ≡ suc j + k = omega arith in
      subst (λ (n : ℕ). Draws calloc n a c) same (draw p e (Draws-append k c rest d))

  pub Drawn-append :
      (n m : ℕ) (a b c : A) → Drawn calloc n a b → Drawn calloc m b c → Drawn calloc (n + m) a c
  Drawn-append n m a b c (j, lj, d) (k, lk, d') =
      (j + k, omega (arith, lj, lk), Draws-append k c d d')

  pub RunsOut-append :
      (n m : ℕ) (a b : A) → Drawn calloc n a b → RunsOut calloc m b → RunsOut calloc (n + m) a
  RunsOut-append n m a b (j, lj, d) (k, x, y, lk, d', e) =
      (j + k, x, y, omega (arith, lj, lk), Draws-append k x d d', e)

  -- two operations, one after the other
  pub Draining-append :
      (n m : ℕ) (s t : PageTables A) (r : Option (PageTables A))
      → Drawn calloc n s.pages t.pages
      → Draining calloc m t r
      → Draining calloc (n + m) s r
  Draining-append n m s t _ d (stuck r) = stuck (RunsOut-append n m s.pages t.pages d r)
  Draining-append n m s t _ d (drained t' d') =
      drained t' (Drawn-append n m s.pages t.pages t'.pages d d')

  pub RunsOut-more : (n m : ℕ) (a : A) → n ≤ m → RunsOut calloc n a → RunsOut calloc m a
  RunsOut-more n m a le (k, x, y, lk, d, e) = (k, x, y, omega (arith, le, lk), d, e)

-- the pages that the allocator gives are aligned
abbrev pub GivesAligned : {A : Type 0} → Calloc A → Type 0
GivesAligned {A} calloc = (a : A) (p : ℕ) (b : A) → calloc a ≡ (some p, b) → p % 4096 ≡ 0

pub laws_aligned :
    {A : Type 0} (mmu_on : Bool) (calloc : Calloc A)
    → CallocLaws mmu_on calloc
    → GivesAligned calloc
laws_aligned mmu_on calloc laws a p b got =
    let (_, _, aligned, _, _) = laws.gives a p b got in aligned

module _ {A : Type 0} (calloc : Calloc A) (gives_aligned : GivesAligned calloc) (mmu_on : Bool)
    (attrs : ℕ) where
  hang_table-Draining :
      (e : ℕ) (s : PageTables A) (r : Option ℕ × A)
      → calloc s.pages ≡ r
      → Draining calloc 1 s (hang_table calloc mmu_on attrs e s.mem r)
  unfolding hang_table
  hang_table-Draining e s (none, b) got = stuck (0, s.pages, b, omega arith, no_draw, got)
  hang_table-Draining e s (some p, b) got =
      let y : (p % 4096 == 0) ≡ true = ground (arith, gives_aligned s.pages p b got) in
      rw (hang_table, y) (drained _ (1, omega arith, draw p got no_draw))

  fill_table-Draining :
      (e : ℕ) (s : PageTables A) → Draining calloc 1 s (fill_table calloc mmu_on attrs e s)
  unfolding fill_table
  fill_table-Draining e s = elim (Bool-cases (s.mem e == 0)) [
    | inl y ↦ rw (fill_table, y) (hang_table-Draining e s (calloc s.pages) refl)
    | inr z ↦ rw (fill_table, z) (drained s (0, omega arith, no_draw))
  ]

  fill_page-pages :
      (phy_addr e : ℕ) (s : PageTables A)
      → (fill_page calloc mmu_on attrs phy_addr e s).pages ≡ s.pages
  unfolding fill_page
  fill_page-pages phy_addr e s = elim (Bool-cases (s.mem e == 0)) [
    | inl y ↦ rw (fill_page, y, if◌then◌else◌) refl
    | inr z ↦ rw (fill_page, z, if◌then◌else◌) refl
  ]

  module _ (phy_addr virt_addr : ℕ) where
    last_layer :
        (table : ℕ) (s : PageTables A)
        → Draining calloc 0 s (setup_loop calloc mmu_on attrs (12 ∷ []) phy_addr virt_addr table s)
    unfolding setup_loop
    last_layer table s = drained _ (
      0,
      omega arith,
      subst (λ (a : A). Draws calloc 0 s.pages a)
          (sym (fill_page-pages phy_addr (entry table (get_pg_entry_index virt_addr 12)) s))
          no_draw,
    )

    layer_above :
        (layer m table : ℕ) (rest : List ℕ) (s : PageTables A) (r : Option (PageTables A))
        → (layer == 12) ≡ false
        → fill_table calloc mmu_on attrs (entry table (get_pg_entry_index virt_addr layer)) s ≡ r
        → Draining calloc 1 s r
        → ((next : ℕ) (t : PageTables A)
            → Draining calloc m t (setup_loop calloc mmu_on attrs rest phy_addr virt_addr next t))
        → Draining calloc
            (1 + m)
            s
            (setup_loop calloc mmu_on attrs (layer ∷ rest) phy_addr virt_addr table s)
    unfolding setup_loop
    layer_above layer m table rest s _ z e (stuck r) behind =
        rw (setup_loop, z, e) (stuck (RunsOut-more calloc 1 (1 + m) s.pages (omega arith) r))
    layer_above layer m table rest s _ z e (drained t d) behind =
        let next = next_table mmu_on t.mem (entry table (get_pg_entry_index virt_addr layer)) in
        rw (setup_loop, z, e)
          (Draining-append calloc 1 m s t
            (setup_loop calloc mmu_on attrs rest phy_addr virt_addr next t) d (behind next t))

    -- a page takes two tables at most
    pub setup_pg_for_addr-Draining :
        (pg_dir : ℕ) (s : PageTables A)
        → Draining calloc 2 s (setup_pg_for_addr calloc mmu_on attrs pg_dir phy_addr virt_addr s)
    unfolding setup_pg_for_addr
    setup_pg_for_addr-Draining pg_dir s =
        layer_above 30 1 pg_dir (21 ∷ 12 ∷ []) s
          (fill_table calloc mmu_on attrs (entry pg_dir (get_pg_entry_index virt_addr 30)) s) refl
          refl (fill_table-Draining (entry pg_dir (get_pg_entry_index virt_addr 30)) s)
          (λ next t.
            layer_above 21 0 next (12 ∷ []) t
              (fill_table calloc mmu_on attrs (entry next (get_pg_entry_index virt_addr 21)) t) refl
              refl (fill_table-Draining (entry next (get_pg_entry_index virt_addr 21)) t)
              last_layer)

  first_page :
      (n pg_dir phy_addr virt_addr : ℕ) (s : PageTables A) (r : Option (PageTables A))
      → setup_pg_for_addr calloc mmu_on attrs pg_dir phy_addr virt_addr s ≡ r
      → Draining calloc 2 s r
      → ((t : PageTables A)
          → Draining calloc
              (2 * n)
              t
              (map_loop calloc mmu_on attrs n pg_dir (phy_addr + 4096) (virt_addr + 4096) t))
      → Draining calloc
          (2 + 2 * n)
          s
          (map_loop calloc mmu_on attrs (suc n) pg_dir phy_addr virt_addr s)
  unfolding map_loop
  first_page n pg_dir phy_addr virt_addr s _ e (stuck r) behind =
      rw (map_loop, e) (stuck (RunsOut-more calloc 2 (2 + 2 * n) s.pages (omega arith) r))
  first_page n pg_dir phy_addr virt_addr s _ e (drained t d) behind =
      rw (map_loop, e)
        (Draining-append calloc 2 (2 * n) s t
          (map_loop calloc mmu_on attrs n pg_dir (phy_addr + 4096) (virt_addr + 4096) t) d
          (behind t))

  pub map_loop-Draining :
      (n pg_dir phy_addr virt_addr : ℕ) (s : PageTables A)
      → Draining calloc (2 * n) s (map_loop calloc mmu_on attrs n pg_dir phy_addr virt_addr s)
  unfolding map_loop
  map_loop-Draining zero pg_dir phy_addr virt_addr s = drained s (0, omega arith, no_draw)
  map_loop-Draining (suc n) pg_dir phy_addr virt_addr s =
      let e : 2 + 2 * n ≡ 2 * suc n = omega arith in
      subst
        (λ (k : ℕ).
          Draining calloc k s (map_loop calloc mmu_on attrs (suc n) pg_dir phy_addr virt_addr s))
        e
        (first_page n pg_dir phy_addr virt_addr s
          (setup_pg_for_addr calloc mmu_on attrs pg_dir phy_addr virt_addr s) refl
          (setup_pg_for_addr-Draining phy_addr virt_addr pg_dir s)
          (λ t. map_loop-Draining n pg_dir (phy_addr + 4096) (virt_addr + 4096) t))
