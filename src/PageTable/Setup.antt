-- ===== src/PageTable/Setup.antt =====
-- What `setup_pg_for_addr` of mm/page_table.c does: the address is mapped, and all that was mapped stays.
use tout_os.Base.{
  ℕ, ◌%◌, ◌^◌, ◌<◌, ◌≡◌, ◌≢◌, refl, ap, ◌∙◌, sym, subst, Bool, Option, none, some, ◌==◌,
  if◌then◌else◌, arith, Bool-cases, inl, inr,
}
use tout_os.PageTable.{
  get_pg_entry_index, get_phy_addr, to_virt, descriptor, entry, next_table, Calloc, put_word,
  PageTables, fill_page, walk_virt_addr,
}
use tout_os.PageTable.Tree.{
  Place, root, mid, leaf, child, IsTree, entry-injective, IsAttrs, get_phy_addr-descriptor,
  descriptor-nonzero, put_word_self, put_word_other,
}
use tout_os.PageTable.Draws.{Drawn, RunsOut}
use tout_os.PageTable.Fill.{Keeps, Grows, Filling}
use tout_os.PageTable.Walk.{
  entry1, entry2, entry3, IsMapped, get_pg_entry_index-lt, walk_virt_addr-entry3, kept-IsMapped,
  kept-walk,
}

pub not_leaf :
    (r : Place) (j : ℕ) (d : Place) (a b : ℕ) → child r j ≡ some d → some r ≡ some (leaf a b) → ⊥
not_leaf root j d a b is_child e = cc
not_leaf (mid i) j d a b is_child e = cc
not_leaf (leaf x y) j d a b is_child e = cc

-- A word of an entry of the last layer is no part of the tree.
pub put_leaf-IsTree :
    (mmu_on : Bool) (free : ℕ → Type 0) (mem : ℕ → ℕ) (pg_dir : ℕ) (owner : ℕ → Option Place)
    → IsTree mmu_on free mem pg_dir owner
    → (t a b k x : ℕ) → owner t ≡ some (leaf a b)
    → k < 512
    → IsTree mmu_on free (put_word mem (entry t k) x) pg_dir owner
put_leaf-IsTree mmu_on free mem pg_dir owner v t a b k x at lt = record {
  root_at = v.root_at;
  hangs = λ u r j d o is_child lj ne.
      let apart : entry u j ≢ entry t k = λ e. not_leaf r j d a b is_child (
        let (eu, ej) =
          entry-injective u t j k (v.aligned u r o) (v.aligned t (leaf a b) at) lj lt e in
        sym o ∙ ap owner eu ∙ at) in
      let same = put_word_other mem (entry t k) x (entry u j) apart in
      ap (λ (w : ℕ). owner (to_virt mmu_on (get_phy_addr w))) same
      ∙ v.hangs u r j d o is_child lj (λ e. ne (same ∙ e));
  aligned = v.aligned;
  taken = v.taken;
}

-- What `fill_page` does to the entry `k` of a table of the last layer.
pub record Paged {A : Type 0} (mmu_on : Bool) (free : A → ℕ → Type 0) (attrs phy_addr : ℕ)
    (s : PageTables A) (pg_dir : ℕ) (owner : ℕ → Option Place) (e : ℕ) (s' : PageTables A)
    : Type 0 where
  pub tree : IsTree mmu_on (free s'.pages) s'.mem pg_dir owner
  pub kept : Keeps owner s.mem s'.mem
  pub full : s'.mem e ≢ 0
  pub fresh : s.mem e ≡ 0 → s'.mem e ≡ descriptor phy_addr attrs

pub fill_page-Paged :
    {A : Type 0} (mmu_on : Bool) (calloc : Calloc A) (free : A → ℕ → Type 0) (attrs phy_addr : ℕ)
    (s : PageTables A) (pg_dir : ℕ) (owner : ℕ → Option Place)
    → IsTree mmu_on (free s.pages) s.mem pg_dir owner
    → (t a b k : ℕ) → owner t ≡ some (leaf a b)
    → k < 512
    → Paged mmu_on free attrs phy_addr s pg_dir owner
        (entry t k)
        (fill_page calloc mmu_on attrs phy_addr (entry t k) s)
unfolding fill_page
fill_page-Paged mmu_on calloc free attrs phy_addr s pg_dir owner v t a b k at lt =
    let self = put_word_self s.mem (entry t k) (descriptor phy_addr attrs) in
    elim (Bool-cases (s.mem (entry t k) == 0)) [
      | inl y ↦
          let empty : s.mem (entry t k) ≡ 0 = ground (arith, y) in
          rw (y, fill_page, if◌then◌else◌)
            (record {
              tree =
                  put_leaf-IsTree mmu_on (free s.pages) s.mem pg_dir owner v t a b k
                    (descriptor phy_addr attrs) at lt;
              kept = λ u r j o lj ne.
                  put_word_other s.mem (entry t k) (descriptor phy_addr attrs) (entry u j)
                    (λ e. ne (ap s.mem e ∙ empty));
              full = λ e. descriptor-nonzero phy_addr attrs (sym self ∙ e);
              fresh = λ e. self;
            })
      | inr z ↦
          let full : s.mem (entry t k) ≢ 0 = ground (arith, z) in
          rw (z, fill_page, if◌then◌else◌)
            (record {
              tree = v;
              kept = λ u r j o lj ne. refl;
              full = full;
              fresh = λ e. absurd (full e);
            })
    ]

-- What `setup_pg_for_addr` gives: nothing, when the address is not mapped and the allocator has no page after
-- one page at most, or a tree in which the address is mapped and every mapped address still leads where it
-- did, for two pages at most. An address that was not mapped leads to the given one.
pub data SetUp {A : Type 0} (mmu_on : Bool) (calloc : Calloc A) (free : A → ℕ → Type 0)
    (pg_dir phy_addr virt_addr : ℕ) (s : PageTables A) : Option (PageTables A) → Type 0 where
  out_of_pages :
      (IsMapped mmu_on s.mem pg_dir virt_addr → ⊥)
      → RunsOut calloc 2 s.pages
      → SetUp mmu_on calloc free pg_dir phy_addr virt_addr s none
  set_up :
      (o : ℕ → Option Place) (s' : PageTables A)
      → IsTree mmu_on (free s'.pages) s'.mem pg_dir o
      → IsMapped mmu_on s'.mem pg_dir virt_addr
      → ((w : ℕ)
          → IsMapped mmu_on s.mem pg_dir w
          → IsMapped mmu_on s'.mem pg_dir w
            × (walk_virt_addr mmu_on s'.mem pg_dir w ≡ walk_virt_addr mmu_on s.mem pg_dir w))
      → ((IsMapped mmu_on s.mem pg_dir virt_addr → ⊥)
          → walk_virt_addr mmu_on s'.mem pg_dir virt_addr ≡ phy_addr)
      → Drawn calloc 2 s.pages s'.pages
      → SetUp mmu_on calloc free pg_dir phy_addr virt_addr s (some s')

Keeps-trans :
    (owner o : ℕ → Option Place) (a b c : ℕ → ℕ)
    → Grows owner o
    → Keeps owner a b
    → Keeps o b c
    → Keeps owner a c
Keeps-trans owner o a b c grows k k' u r j at lt ne =
    let e = k u r j at lt ne in k' u r j (grows u r at) lt (λ z. ne (sym e ∙ z)) ∙ e

-- The three layers together.
module _ {A : Type 0} (mmu_on : Bool) (calloc : Calloc A) (free : A → ℕ → Type 0) (attrs : ℕ)
    (is_attrs : IsAttrs attrs) (pg_dir phy_addr virt_addr : ℕ) (aligned : phy_addr % 4096 ≡ 0)
    (short : phy_addr < 2 ^ 48) (s s1 s2 s3 : PageTables A) (owner o1 o2 : ℕ → Option Place)
    (v : IsTree mmu_on (free s.pages) s.mem pg_dir owner)
    (f1 : Filling mmu_on free s pg_dir owner pg_dir (get_pg_entry_index virt_addr 30) o1 s1)
    (f2 : Filling mmu_on free s1 pg_dir o1
      (next_table mmu_on s1.mem (entry1 pg_dir virt_addr))
      (get_pg_entry_index virt_addr 21)
      o2
      s2) where
  abbrev table2 : ℕ
  table2 = next_table mmu_on s1.mem (entry1 pg_dir virt_addr)

  abbrev word2 : ℕ
  word2 = entry table2 (get_pg_entry_index virt_addr 21)

  abbrev word3 : ℕ
  word3 = entry (next_table mmu_on s2.mem word2) (get_pg_entry_index virt_addr 12)

  table2_at : o1 table2 ≡ some (mid (get_pg_entry_index virt_addr 30))
  table2_at =
      f1.tree.hangs pg_dir root (get_pg_entry_index virt_addr 30)
        (mid (get_pg_entry_index virt_addr 30)) f1.tree.root_at refl
        (get_pg_entry_index-lt virt_addr 30) f1.full

  pub table3_at :
      o2 (next_table mmu_on s2.mem word2)
      ≡ some (leaf (get_pg_entry_index virt_addr 30) (get_pg_entry_index virt_addr 21))
  table3_at =
      f2.tree.hangs table2 (mid (get_pg_entry_index virt_addr 30)) (get_pg_entry_index virt_addr 21)
        (leaf (get_pg_entry_index virt_addr 30) (get_pg_entry_index virt_addr 21))
        (f2.grows table2 (mid (get_pg_entry_index virt_addr 30)) table2_at) refl
        (get_pg_entry_index-lt virt_addr 21) f2.full

  first_kept : s2.mem (entry1 pg_dir virt_addr) ≡ s1.mem (entry1 pg_dir virt_addr)
  first_kept =
      f2.kept pg_dir root (get_pg_entry_index virt_addr 30) f1.tree.root_at
        (get_pg_entry_index-lt virt_addr 30) f1.full

  -- An entry of the last layer that is full was behind full ones before.
  was-IsMapped : s2.mem word3 ≢ 0 → IsMapped mmu_on s.mem pg_dir virt_addr
  was-IsMapped full3 = elim (Bool-cases (s1.mem word2 == 0)) [
    | inl y ↦ absurd (
        full3 (
          f2.fresh (ground (arith, y)) (get_pg_entry_index virt_addr 12)
            (get_pg_entry_index-lt virt_addr 12)))
    | inr z ↦
        let full2 : s1.mem word2 ≢ 0 = ground (arith, z) in
        elim (Bool-cases (s.mem (entry1 pg_dir virt_addr) == 0)) [
          | inl y' ↦ absurd (
              full2 (
                f1.fresh (ground (arith, y')) (get_pg_entry_index virt_addr 21)
                  (get_pg_entry_index-lt virt_addr 21)))
          | inr z' ↦
              let full1 : s.mem (entry1 pg_dir virt_addr) ≢ 0 = ground (arith, z') in
              let same2 : s2 ≡ s1 = f2.old full2 in
              let same1 : s1 ≡ s = f1.old full1 in
              subst (λ (x : PageTables A). IsMapped mmu_on x.mem pg_dir virt_addr) same1
                (record {
                  full1 = f1.full;
                  full2 = full2;
                  full3 =
                      subst
                        (λ (x : PageTables A).
                          x.mem (
                            entry (next_table mmu_on x.mem word2) (get_pg_entry_index virt_addr 12))
                          ≢ 0)
                        same2 full3;
                })
        ]
  ]

  module _ (p : Paged mmu_on free attrs phy_addr s2 pg_dir o2 word3 s3) where
    entry2_same : entry2 mmu_on s3.mem pg_dir virt_addr ≡ word2
    entry2_same =
        ap (λ (d : ℕ). entry (to_virt mmu_on (get_phy_addr d)) (get_pg_entry_index virt_addr 21))
          (p.kept pg_dir root (get_pg_entry_index virt_addr 30) f2.tree.root_at
              (get_pg_entry_index-lt virt_addr 30) (λ e. f1.full (sym first_kept ∙ e))
            ∙ first_kept)

    second_kept : s3.mem (entry2 mmu_on s3.mem pg_dir virt_addr) ≡ s2.mem word2
    second_kept =
        ap s3.mem entry2_same
        ∙ p.kept table2 (mid (get_pg_entry_index virt_addr 30)) (get_pg_entry_index virt_addr 21)
            (f2.grows table2 (mid (get_pg_entry_index virt_addr 30)) table2_at)
            (get_pg_entry_index-lt virt_addr 21) f2.full

    entry3_same : entry3 mmu_on s3.mem pg_dir virt_addr ≡ word3
    entry3_same =
        ap (λ (d : ℕ). entry (to_virt mmu_on (get_phy_addr d)) (get_pg_entry_index virt_addr 12))
          second_kept

    all_kept : Keeps owner s.mem s3.mem
    all_kept =
        Keeps-trans owner o1 s.mem s1.mem s3.mem f1.grows f1.kept
          (Keeps-trans o1 o2 s1.mem s2.mem s3.mem f2.grows f2.kept p.kept)

    pub SetUp-SetUp :
        Drawn calloc 2 s.pages s3.pages
        → SetUp mmu_on calloc free pg_dir phy_addr virt_addr s (some s3)
    SetUp-SetUp drawn =
        set_up o2 s3 p.tree
          (record {
            full1 = λ e. f1.full (
                sym (
                  p.kept pg_dir root (get_pg_entry_index virt_addr 30) f2.tree.root_at
                    (get_pg_entry_index-lt virt_addr 30) (λ z. f1.full (sym first_kept ∙ z))
                  ∙ first_kept)
                ∙ e);
            full2 = λ e. f2.full (sym second_kept ∙ e);
            full3 = λ e. p.full (ap s3.mem (sym entry3_same) ∙ e);
          })
          (λ w is. (
            kept-IsMapped mmu_on (free s.pages) s.mem pg_dir owner v w is s3.mem all_kept,
            kept-walk mmu_on (free s.pages) s.mem pg_dir owner v w is s3.mem all_kept,
          ))
          (λ new.
            walk_virt_addr-entry3 mmu_on s3.mem pg_dir virt_addr
            ∙ ap (λ (x : ℕ). get_phy_addr (s3.mem x)) entry3_same
            ∙ ap get_phy_addr (
                p.fresh (elim (Bool-cases (s2.mem word3 == 0)) [
                  | inl y ↦ ground (arith, y)
                  | inr z ↦ absurd (new (was-IsMapped (ground (arith, z))))
                ]))
            ∙ get_phy_addr-descriptor phy_addr attrs is_attrs aligned short)
          drawn
