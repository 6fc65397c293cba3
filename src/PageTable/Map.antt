-- ===== src/PageTable/Map.antt =====
-- `setup_pg_for_addr` and `add_single_map` of mm/page_table.c.
use tout_os.Base.{
  ℕ, ◌%◌, ◌^◌, ◌<◌, ◌≡◌, refl, ◌∙◌, sym, subst, Bool, false, Option, none, some, List, [], ◌∷◌,
  ◌==◌,
}
use tout_os.PageTable.{
  get_pg_entry_index, entry, next_table, Calloc, PageTables, fill_table, fill_page, setup_loop,
  setup_pg_for_addr, layers,
}
use tout_os.PageTable.Tree.{Place, root, mid, leaf, CallocLaws, IsTree, IsAttrs}
use tout_os.PageTable.Draws.{
  laws_aligned, Draining, Draining-RunsOut, Draining-Drawn, setup_pg_for_addr-Draining,
}
use tout_os.PageTable.Fill.{Filling, Filled, failed, filled, fill_table-Filled}
use tout_os.PageTable.Walk.{IsMapped, entry1, get_pg_entry_index-lt}
use tout_os.PageTable.Setup.{fill_page-Paged, SetUp, out_of_pages, SetUp-SetUp, table3_at}

module _ {A : Type 0} (calloc : Calloc A) (mmu_on : Bool) (attrs : ℕ) where
  setup_loop-last :
      (phy_addr virt_addr table : ℕ) (s : PageTables A)
      → setup_loop calloc mmu_on attrs (12 ∷ []) phy_addr virt_addr table s
        ≡ some (
            fill_page calloc mmu_on attrs phy_addr
              (entry table (get_pg_entry_index virt_addr 12))
              s)
  unfolding setup_loop
  setup_loop-last phy_addr virt_addr table s = refl

  module _ (layer : ℕ) (rest : List ℕ) (phy_addr virt_addr table : ℕ) (s : PageTables A)
      (z : (layer == 12) ≡ false) where
    setup_loop-none :
        fill_table calloc mmu_on attrs (entry table (get_pg_entry_index virt_addr layer)) s ≡ none
        → setup_loop calloc mmu_on attrs (layer ∷ rest) phy_addr virt_addr table s ≡ none
    unfolding setup_loop
    setup_loop-none e = rw (setup_loop, z, e) refl

    setup_loop-some :
        (t : PageTables A)
        → fill_table calloc mmu_on attrs (entry table (get_pg_entry_index virt_addr layer)) s
          ≡ some t
        → setup_loop calloc mmu_on attrs (layer ∷ rest) phy_addr virt_addr table s
          ≡ setup_loop calloc mmu_on attrs rest phy_addr virt_addr
              (next_table mmu_on t.mem (entry table (get_pg_entry_index virt_addr layer)))
              t
    unfolding setup_loop
    setup_loop-some t e = rw (setup_loop, z, e) refl

module _ {A : Type 0} (mmu_on : Bool) (calloc : Calloc A) (laws : CallocLaws mmu_on calloc)
    (attrs : ℕ) (is_attrs : IsAttrs attrs) (pg_dir : ℕ) where
  module _ (phy_addr virt_addr : ℕ) (aligned : phy_addr % 4096 ≡ 0) (short : phy_addr < 2 ^ 48)
      (s : PageTables A) (owner : ℕ → Option Place)
      (v : IsTree mmu_on (laws.free s.pages) s.mem pg_dir owner) where
    abbrev Outcome : Option (PageTables A) → Type 0
    Outcome r = Draining calloc 2 s r → SetUp mmu_on calloc laws.free pg_dir phy_addr virt_addr s r

    -- the second layer is empty in the tables at hand when it is after the first
    second_empty :
        (o1 : ℕ → Option Place) (s1 : PageTables A)
        → Filling mmu_on laws.free s pg_dir owner pg_dir (get_pg_entry_index virt_addr 30) o1 s1
        → s1.mem (
            entry
              (next_table mmu_on s1.mem (entry1 pg_dir virt_addr))
              (get_pg_entry_index virt_addr 21))
          ≡ 0
        → IsMapped mmu_on s.mem pg_dir virt_addr
        → ⊥
    second_empty o1 s1 f1 empty is = is.full2 (
        subst
          (λ (x : PageTables A).
            x.mem (
              entry (next_table mmu_on x.mem (entry1 pg_dir virt_addr))
                (get_pg_entry_index virt_addr 21))
            ≡ 0)
          (f1.old is.full1) empty)

    second_layer :
        (o1 : ℕ → Option Place) (s1 : PageTables A)
        (f1 : Filling mmu_on laws.free s pg_dir owner pg_dir
          (get_pg_entry_index virt_addr 30)
          o1
          s1)
        (x : Option (PageTables A))
        → fill_table calloc mmu_on attrs
            (entry
              (next_table mmu_on s1.mem (entry1 pg_dir virt_addr))
              (get_pg_entry_index virt_addr 21))
            s1
          ≡ x
        → Filled mmu_on calloc laws.free s1 pg_dir o1
            (next_table mmu_on s1.mem (entry1 pg_dir virt_addr))
            (get_pg_entry_index virt_addr 21)
            x
        → Outcome (
            setup_loop calloc mmu_on attrs
              (21 ∷ 12 ∷ [])
              phy_addr
              virt_addr
              (next_table mmu_on s1.mem (entry1 pg_dir virt_addr))
              s1)
    second_layer o1 s1 f1 _ e (failed empty) =
        let table = next_table mmu_on s1.mem (entry1 pg_dir virt_addr) in
        subst Outcome
          (sym
            (setup_loop-none calloc mmu_on attrs 21 (12 ∷ []) phy_addr virt_addr table s1 refl e))
          (λ d. out_of_pages (second_empty o1 s1 f1 empty) (Draining-RunsOut calloc 2 s d))
    second_layer o1 s1 f1 _ e (filled o2 s2 f2) =
        let table = next_table mmu_on s1.mem (entry1 pg_dir virt_addr) in
        let last = next_table mmu_on s2.mem (entry table (get_pg_entry_index virt_addr 21)) in
        subst Outcome
          (sym (
            setup_loop-some calloc mmu_on attrs 21 (12 ∷ []) phy_addr virt_addr table s1 refl s2 e
            ∙ setup_loop-last calloc mmu_on attrs phy_addr virt_addr last s2))
          (λ d.
            let s3 =
              fill_page calloc mmu_on attrs phy_addr (entry last (get_pg_entry_index virt_addr 12))
                s2 in
            SetUp-SetUp mmu_on calloc laws.free attrs is_attrs pg_dir phy_addr virt_addr aligned
              short s s1 s2
              (fill_page calloc mmu_on attrs phy_addr (entry last (get_pg_entry_index virt_addr 12))
                s2)
              owner o1 o2 v f1 f2
              (fill_page-Paged mmu_on calloc laws.free attrs phy_addr s2 pg_dir o2 f2.tree last
                (get_pg_entry_index virt_addr 30) (get_pg_entry_index virt_addr 21)
                (get_pg_entry_index virt_addr 12)
                (table3_at mmu_on calloc laws.free attrs is_attrs pg_dir phy_addr virt_addr aligned
                  short s s1 s2 s2 owner o1 o2 v f1 f2)
                (get_pg_entry_index-lt virt_addr 12))
              (Draining-Drawn calloc 2 s s3 d))

    first_layer :
        (x : Option (PageTables A))
        → fill_table calloc mmu_on attrs (entry1 pg_dir virt_addr) s ≡ x
        → Filled mmu_on calloc laws.free s pg_dir owner pg_dir (get_pg_entry_index virt_addr 30) x
        → Outcome (setup_loop calloc mmu_on attrs layers phy_addr virt_addr pg_dir s)
    first_layer _ e (failed empty) =
        subst Outcome
          (sym (
            setup_loop-none calloc mmu_on attrs 30 (21 ∷ 12 ∷ []) phy_addr virt_addr pg_dir s refl
              e))
          (λ d. out_of_pages (λ is. is.full1 empty) (Draining-RunsOut calloc 2 s d))
    first_layer _ e (filled o1 s1 f1) =
        let table = next_table mmu_on s1.mem (entry1 pg_dir virt_addr) in
        subst Outcome
          (sym (
            setup_loop-some calloc mmu_on attrs 30 (21 ∷ 12 ∷ []) phy_addr virt_addr pg_dir s refl
              s1 e))
          (second_layer o1 s1 f1
            (fill_table calloc mmu_on attrs (entry table (get_pg_entry_index virt_addr 21)) s1) refl
            (fill_table-Filled calloc mmu_on attrs laws is_attrs s1 pg_dir o1 f1.tree table
              (get_pg_entry_index virt_addr 21) (mid (get_pg_entry_index virt_addr 30))
              (leaf (get_pg_entry_index virt_addr 30) (get_pg_entry_index virt_addr 21))
              (f1.tree.hangs pg_dir root (get_pg_entry_index virt_addr 30)
                (mid (get_pg_entry_index virt_addr 30)) f1.tree.root_at refl
                (get_pg_entry_index-lt virt_addr 30) f1.full)
              refl (get_pg_entry_index-lt virt_addr 21)))

    -- `setup_pg_for_addr` of a page address below 2 ^ 48, when the tables are a tree and the attributes have
    -- no bit of an address, maps the virtual address, and takes two pages of the allocator at most: the tables are
    -- a tree again, every address that was mapped still leads where it did, and one that was not leads to the page
    -- given. It fails only when the address was not mapped and the allocator, as it stands, gives no page at the
    -- first call or at the second.
    pub setup_pg_for_addr-SetUp :
        SetUp mmu_on calloc laws.free pg_dir phy_addr virt_addr s
          (setup_pg_for_addr calloc mmu_on attrs pg_dir phy_addr virt_addr s)
    unfolding setup_pg_for_addr
    setup_pg_for_addr-SetUp =
        first_layer (fill_table calloc mmu_on attrs (entry1 pg_dir virt_addr) s) refl
          (fill_table-Filled calloc mmu_on attrs laws is_attrs s pg_dir owner v pg_dir
            (get_pg_entry_index virt_addr 30) root (mid (get_pg_entry_index virt_addr 30)) v.root_at
            refl (get_pg_entry_index-lt virt_addr 30))
          (setup_pg_for_addr-Draining calloc (laws_aligned mmu_on calloc laws) mmu_on attrs phy_addr
            virt_addr pg_dir s)
