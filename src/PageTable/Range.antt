-- ===== src/PageTable/Range.antt =====
-- What `add_single_map` of mm/page_table.c does with a range of pages.
use tout_os.Base.{
  ℕ, zero, suc, ◌+◌, ◌*◌, ◌/◌, ◌%◌, ◌^◌, ◌≤◌, ◌<◌, ◌≡◌, refl, ◌∙◌, sym, subst, Bool, Option, none,
  some, arith,
}
use tout_os.PageTable.{
  Calloc, PageTables, setup_pg_for_addr, map_loop, add_single_map, walk_virt_addr,
}
use tout_os.PageTable.Tree.{Place, CallocLaws, IsTree, IsAttrs}
use tout_os.PageTable.Walk.{IsMapped}
use tout_os.PageTable.Draws.{
  Drawn, RunsOut, no_draw, laws_aligned, Draining, Draining-RunsOut, Draining-Drawn,
  map_loop-Draining,
}
use tout_os.PageTable.Setup.{SetUp, out_of_pages, set_up}
use tout_os.PageTable.Map.{setup_pg_for_addr-SetUp}

-- every address that is mapped in `mem` leads to the same page in `m`
abbrev pub KeepsWalks : Bool → (ℕ → ℕ) → (ℕ → ℕ) → ℕ → Type 0
KeepsWalks mmu_on mem m pg_dir =
    (w : ℕ)
    → IsMapped mmu_on mem pg_dir w
    → IsMapped mmu_on m pg_dir w
      × (walk_virt_addr mmu_on m pg_dir w ≡ walk_virt_addr mmu_on mem pg_dir w)

-- `virt` is mapped in `m`, to where it leads in `mem` if it is mapped there, and to `phy` if not.
pub record LeadsTo (mmu_on : Bool) (mem m : ℕ → ℕ) (pg_dir virt phy : ℕ) : Type 0 where
  pub mapped : IsMapped mmu_on m pg_dir virt
  pub old :
      IsMapped mmu_on mem pg_dir virt
      → walk_virt_addr mmu_on m pg_dir virt ≡ walk_virt_addr mmu_on mem pg_dir virt
  pub new : (IsMapped mmu_on mem pg_dir virt → ⊥) → walk_virt_addr mmu_on m pg_dir virt ≡ phy

-- What mapping `n` pages from an address on gives: nothing, when the allocator runs out within two calls for a
-- page, or a tree, for as many calls. In it the page `k` leads where it led when the `k` pages before it were
-- mapped, or else to the page `k` of the frames, and every mapped address still leads where it did.
pub data Ranged {A : Type 0} (mmu_on : Bool) (calloc : Calloc A) (free : A → ℕ → Type 0)
    (attrs pg_dir n phy_addr virt_addr : ℕ) (s : PageTables A)
    : Option (PageTables A) → Type 0 where
  ran_out :
      RunsOut calloc (2 * n) s.pages
      → Ranged mmu_on calloc free attrs pg_dir n phy_addr virt_addr s none
  ranged :
      (o : ℕ → Option Place) (s' : PageTables A)
      → IsTree mmu_on (free s'.pages) s'.mem pg_dir o
      → ((k : ℕ)
          → k < n
          → (t : PageTables A) × (map_loop calloc mmu_on attrs k pg_dir phy_addr virt_addr s
              ≡ some t)
            × LeadsTo mmu_on t.mem s'.mem pg_dir (virt_addr + 4096 * k) (phy_addr + 4096 * k))
      → KeepsWalks mmu_on s.mem s'.mem pg_dir
      → Drawn calloc (2 * n) s.pages s'.pages
      → Ranged mmu_on calloc free attrs pg_dir n phy_addr virt_addr s (some s')

module _ {A : Type 0} (calloc : Calloc A) (mmu_on : Bool) (attrs n pg_dir phy_addr virt_addr : ℕ)
    (s : PageTables A) where
  pub map_loop-none :
      setup_pg_for_addr calloc mmu_on attrs pg_dir phy_addr virt_addr s ≡ none
      → map_loop calloc mmu_on attrs (suc n) pg_dir phy_addr virt_addr s ≡ none
  unfolding map_loop
  map_loop-none e = rw (map_loop, e) refl

  pub map_loop-some :
      (t : PageTables A)
      → setup_pg_for_addr calloc mmu_on attrs pg_dir phy_addr virt_addr s ≡ some t
      → map_loop calloc mmu_on attrs (suc n) pg_dir phy_addr virt_addr s
        ≡ map_loop calloc mmu_on attrs n pg_dir (phy_addr + 4096) (virt_addr + 4096) t
  unfolding map_loop
  map_loop-some t e = rw (map_loop, e) refl

module _ {A : Type 0} (mmu_on : Bool) (calloc : Calloc A) (laws : CallocLaws mmu_on calloc)
    (attrs : ℕ) (is_attrs : IsAttrs attrs) (pg_dir : ℕ) where
  abbrev Outcome : ℕ → ℕ → ℕ → PageTables A → Option (PageTables A) → Type 0
  Outcome n phy_addr virt_addr s r =
      Draining calloc (2 * n) s r
      → Ranged mmu_on calloc laws.free attrs pg_dir n phy_addr virt_addr s r

  -- what is said of the page `k` of a range
  abbrev AtPage : ℕ → ℕ → PageTables A → PageTables A → ℕ → Type 0
  AtPage phy_addr virt_addr s s' k =
      (t : PageTables A) × (map_loop calloc mmu_on attrs k pg_dir phy_addr virt_addr s ≡ some t)
      × LeadsTo mmu_on t.mem s'.mem pg_dir (virt_addr + 4096 * k) (phy_addr + 4096 * k)

  module _ (n phy_addr virt_addr : ℕ) (s t : PageTables A)
      (e : setup_pg_for_addr calloc mmu_on attrs pg_dir phy_addr virt_addr s ≡ some t)
      (first : LeadsTo mmu_on s.mem t.mem pg_dir virt_addr phy_addr)
      (kept : KeepsWalks mmu_on s.mem t.mem pg_dir) where
    at_page :
        (s' : PageTables A)
        → KeepsWalks mmu_on t.mem s'.mem pg_dir
        → ((k : ℕ) → k < n → AtPage (phy_addr + 4096) (virt_addr + 4096) t s' k)
        → (k : ℕ) → k < suc n
        → AtPage phy_addr virt_addr s s' k
    unfolding map_loop
    at_page s' kept' behind zero lt =
        let here : virt_addr ≡ virt_addr + 4096 * 0 = omega arith in
        let frame : phy_addr ≡ phy_addr + 4096 * 0 = omega arith in
        let (is, same) = kept' virt_addr first.mapped in
        (
          s,
          refl,
          subst (λ (w : ℕ). LeadsTo mmu_on s.mem s'.mem pg_dir w (phy_addr + 4096 * 0)) here
              (subst (LeadsTo mmu_on s.mem s'.mem pg_dir virt_addr) frame (record {
                mapped = is;
                old = λ was. same ∙ first.old was;
                new = λ was_not. same ∙ first.new was_not;
              })),
        )
    at_page s' kept' behind (suc k) lt =
        let (u, at, leads) = behind k (omega (arith, lt)) in
        let here : virt_addr + 4096 + 4096 * k ≡ virt_addr + 4096 * suc k = omega arith in
        let frame : phy_addr + 4096 + 4096 * k ≡ phy_addr + 4096 * suc k = omega arith in
        (
          u,
          map_loop-some calloc mmu_on attrs k pg_dir phy_addr virt_addr s t e ∙ at,
          subst (λ (w : ℕ). LeadsTo mmu_on u.mem s'.mem pg_dir w (phy_addr + 4096 * suc k)) here
              (subst (LeadsTo mmu_on u.mem s'.mem pg_dir (virt_addr + 4096 + 4096 * k)) frame
                leads),
        )

    -- the first page, and the pages behind it
    Ranged-more :
        (r : Option (PageTables A))
        → Ranged mmu_on calloc laws.free attrs pg_dir n (phy_addr + 4096) (virt_addr + 4096) t r
        → Outcome (suc n) phy_addr virt_addr s r
    Ranged-more _ (ran_out out) d = ran_out (Draining-RunsOut calloc (2 * suc n) s d)
    Ranged-more _ (ranged o s' v all kept' _) d =
        ranged o s' v (at_page s' kept' all)
          (λ w is.
            let (is', same) = kept w is in let (is'', same') = kept' w is' in (is'', same' ∙ same))
          (Draining-Drawn calloc (2 * suc n) s s' d)

  first_page :
      (n phy_addr virt_addr : ℕ) (s : PageTables A) (x : Option (PageTables A))
      → setup_pg_for_addr calloc mmu_on attrs pg_dir phy_addr virt_addr s ≡ x
      → SetUp mmu_on calloc laws.free pg_dir phy_addr virt_addr s x
      → ((t : PageTables A) (o : ℕ → Option Place)
          → IsTree mmu_on (laws.free t.pages) t.mem pg_dir o
          → Ranged mmu_on calloc laws.free attrs pg_dir n
              (phy_addr + 4096)
              (virt_addr + 4096)
              t
              (map_loop calloc mmu_on attrs n pg_dir (phy_addr + 4096) (virt_addr + 4096) t))
      → Outcome
          (suc n)
          phy_addr
          virt_addr
          s
          (map_loop calloc mmu_on attrs (suc n) pg_dir phy_addr virt_addr s)
  first_page n phy_addr virt_addr s _ e (out_of_pages new out) behind =
      subst (Outcome (suc n) phy_addr virt_addr s)
        (sym (map_loop-none calloc mmu_on attrs n pg_dir phy_addr virt_addr s e))
        (λ d. ran_out (Draining-RunsOut calloc (2 * suc n) s d))
  first_page n phy_addr virt_addr s _ e (set_up o t v is kept new _) behind =
      subst (Outcome (suc n) phy_addr virt_addr s)
        (sym (map_loop-some calloc mmu_on attrs n pg_dir phy_addr virt_addr s t e))
        (Ranged-more n phy_addr virt_addr s t e
          (record { mapped = is; old = λ was. (kept virt_addr was).1; new = new }) kept
          (map_loop calloc mmu_on attrs n pg_dir (phy_addr + 4096) (virt_addr + 4096) t)
          (behind t o v))

  map_loop-Ranged :
      (n phy_addr virt_addr : ℕ)
      → phy_addr % 4096 ≡ 0
      → phy_addr + 4096 * n ≤ 2 ^ 48
      → (s : PageTables A) (owner : ℕ → Option Place)
      → IsTree mmu_on (laws.free s.pages) s.mem pg_dir owner
      → Ranged mmu_on calloc laws.free attrs pg_dir n phy_addr virt_addr s
          (map_loop calloc mmu_on attrs n pg_dir phy_addr virt_addr s)
  unfolding map_loop
  map_loop-Ranged zero phy_addr virt_addr aligned short s owner v =
      ranged owner s v (λ k lt. absurd (omega (arith, lt))) (λ w is. (is, refl))
        (0, omega arith, no_draw)
  map_loop-Ranged (suc n) phy_addr virt_addr aligned short s owner v =
      let low : phy_addr < 2 ^ 48 = omega (arith, short) in
      let aligned' : (phy_addr + 4096) % 4096 ≡ 0 = omega (arith, aligned) in
      let short' : phy_addr + 4096 + 4096 * n ≤ 2 ^ 48 = omega (arith, short) in
      first_page n phy_addr virt_addr s
        (setup_pg_for_addr calloc mmu_on attrs pg_dir phy_addr virt_addr s) refl
        (setup_pg_for_addr-SetUp mmu_on calloc laws attrs is_attrs pg_dir phy_addr virt_addr aligned
          low s owner v)
        (λ t o v'. map_loop-Ranged n (phy_addr + 4096) (virt_addr + 4096) aligned' short' t o v')
        (map_loop-Draining calloc (laws_aligned mmu_on calloc laws) mmu_on attrs (suc n) pg_dir
          phy_addr virt_addr s)

  -- `add_single_map`, when the tables are a tree and the addresses of the pages are below 2 ^ 48, maps each page
  -- of the range, the last one also when the size ends in it: the page `k` leads to the page `k` of the frames,
  -- or where it already led once the pages before it were mapped, and every address that was mapped still leads
  -- where it did. It takes two pages of the allocator at most for each page, and fails only when one of these
  -- calls, from the allocator as it stands, gives no page.
  pub add_single_map-Ranged :
      (phy_addr virt_addr size : ℕ)
      → phy_addr % 4096 ≡ 0
      → phy_addr + size + 4095 ≤ 2 ^ 48
      → (s : PageTables A) (owner : ℕ → Option Place)
      → IsTree mmu_on (laws.free s.pages) s.mem pg_dir owner
      → Ranged mmu_on calloc laws.free attrs pg_dir
          ((size + 4095) / 4096)
          phy_addr
          virt_addr
          s
          (add_single_map calloc mmu_on attrs pg_dir phy_addr virt_addr size s)
  unfolding add_single_map
  add_single_map-Ranged phy_addr virt_addr size aligned short s owner v =
      map_loop-Ranged ((size + 4095) / 4096) phy_addr virt_addr aligned (omega (arith, short)) s
        owner v
