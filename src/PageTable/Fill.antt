-- ===== src/PageTable/Fill.antt =====
-- What filling one entry does to the tree of mm/page_table.c.
use tout_os.Base.{
  ℕ, ◌%◌, ◌^◌, ◌<◌, ◌≡◌, ◌≢◌, refl, ap, ◌∙◌, sym, subst, Bool, true, false, Option, none, some,
  ◌==◌, if◌then◌else◌, arith, Bool-cases, inl, inr,
}
use tout_os.PageTable.{
  get_phy_addr, to_virt, to_phys, descriptor, entry, next_table, Calloc, put_word, zero_page,
  PageTables, fill_table, hang_table,
}
use tout_os.PageTable.Tree.{
  Place, root, child, CallocLaws, IsTree, entry-injective, IsAttrs, get_phy_addr-descriptor,
  descriptor-nonzero, to_virt-to_phys, put_word_self, put_word_other, zero_page_inside,
  zero_page_outside, to_phys-aligned,
}

-- `m` has what `mem` has in the entries of the owned tables that are not empty
abbrev pub Keeps : (ℕ → Option Place) → (ℕ → ℕ) → (ℕ → ℕ) → Type 0
Keeps owner mem m =
    (u : ℕ) (r : Place) (j : ℕ)
    → owner u ≡ some r
    → j < 512
    → mem (entry u j) ≢ 0
    → m (entry u j) ≡ mem (entry u j)

abbrev pub Grows : (ℕ → Option Place) → (ℕ → Option Place) → Type 0
Grows owner o = (u : ℕ) (r : Place) → owner u ≡ some r → o u ≡ some r

some_inj : (a b : Place) → some a ≡ some b → a ≡ b
some_inj a b e = cc

not_both : {x : Option Place} (a : Place) → x ≡ some a → x ≡ none → ⊥
not_both a e z = cc

abbrev put_owner : (ℕ → Option Place) → ℕ → Place → ℕ → Option Place
put_owner owner p c u = if u == p then some c else owner u

put_owner_self :
    (owner : ℕ → Option Place) (p : ℕ) (c : Place) (u : ℕ) → u ≡ p → put_owner owner p c u ≡ some c
put_owner_self owner p c u e = let y : (u == p) ≡ true = ground (arith, e) in rw (y, if◌then◌else◌)

put_owner_other :
    (owner : ℕ → Option Place) (p : ℕ) (c : Place) (u : ℕ) → u ≢ p → put_owner owner p c u ≡ owner u
put_owner_other owner p c u ne =
    let z : (u == p) ≡ false = ground (arith, ne) in rw (z, if◌then◌else◌)

-- The tree `s'` is the tree `s` with the entry `i` of the table `t` filled, if it was empty: all that
-- was set is kept, and a new table is empty.
pub record Filling {A : Type 0} (mmu_on : Bool) (free : A → ℕ → Type 0) (s : PageTables A)
    (pg_dir : ℕ) (owner : ℕ → Option Place) (t i : ℕ) (o : ℕ → Option Place) (s' : PageTables A)
    : Type 0 where
  pub tree : IsTree mmu_on (free s'.pages) s'.mem pg_dir o
  pub grows : Grows owner o
  pub kept : Keeps owner s.mem s'.mem
  pub full : s'.mem (entry t i) ≢ 0
  pub fresh :
      s.mem (entry t i) ≡ 0
      → (j : ℕ) → j < 512
      → s'.mem (entry (next_table mmu_on s'.mem (entry t i)) j) ≡ 0
  pub old : s.mem (entry t i) ≢ 0 → s' ≡ s

-- What `fill_table` gives: nothing, for an empty entry, or the filled tree.
pub data Filled {A : Type 0} (mmu_on : Bool) (calloc : Calloc A) (free : A → ℕ → Type 0)
    (s : PageTables A) (pg_dir : ℕ) (owner : ℕ → Option Place) (t i : ℕ)
    : Option (PageTables A) → Type 0 where
  failed : s.mem (entry t i) ≡ 0 → Filled mmu_on calloc free s pg_dir owner t i none
  filled :
      (o : ℕ → Option Place) (s' : PageTables A)
      → Filling mmu_on free s pg_dir owner t i o s'
      → Filled mmu_on calloc free s pg_dir owner t i (some s')

-- A new zeroed page `p` is hung into the empty entry `i` of the table `t`.
module _ {A : Type 0} (mmu_on : Bool) (attrs : ℕ) (free : A → ℕ → Type 0) (s : PageTables A)
    (a' : A) (pg_dir : ℕ) (owner : ℕ → Option Place)
    (v : IsTree mmu_on (free s.pages) s.mem pg_dir owner) (t i p : ℕ) (q c : Place)
    (at : owner t ≡ some q) (is_child : child q i ≡ some c) (lt : i < 512)
    (is_free : free s.pages p) (not_now : free a' p → ⊥)
    (keeps : (u : ℕ) → free a' u → free s.pages u) (aligned_p : p % 4096 ≡ 0) (low : p < 2 ^ 64)
    (short : to_phys mmu_on p < 2 ^ 48) (aligned_phys : to_phys mmu_on p % 4096 ≡ 0)
    (is_attrs : IsAttrs attrs) where
  abbrev pub hung : ℕ → ℕ
  hung = put_word (zero_page s.mem p) (entry t i) (descriptor (to_phys mmu_on p) attrs)

  owner_p : owner p ≡ none
  owner_p = v.taken p is_free

  owned_apart : (u : ℕ) (r : Place) → owner u ≡ some r → u ≢ p
  owned_apart u r o e = not_both r o (ap owner e ∙ owner_p)

  hung_next : next_table mmu_on hung (entry t i) ≡ p
  hung_next =
      ap (λ (w : ℕ). to_virt mmu_on (get_phy_addr w))
        (put_word_self (zero_page s.mem p) (entry t i) (descriptor (to_phys mmu_on p) attrs))
      ∙ ap (to_virt mmu_on)
          (get_phy_addr-descriptor (to_phys mmu_on p) attrs is_attrs aligned_phys short)
      ∙ to_virt-to_phys mmu_on p low

  hung_page : (j : ℕ) → j < 512 → hung (entry p j) ≡ 0
  hung_page j lj =
      put_word_other (zero_page s.mem p) (entry t i) (descriptor (to_phys mmu_on p) attrs)
        (entry p j)
        (λ e.
          owned_apart t q at (sym (entry-injective p t j i aligned_p (v.aligned t q at) lj lt e).0))
      ∙ zero_page_inside s.mem p j lj

  -- an entry of an owned table other than the one filled
  hung_other :
      (u : ℕ) (r : Place) (j : ℕ)
      → owner u ≡ some r
      → j < 512
      → entry u j ≢ entry t i
      → hung (entry u j) ≡ s.mem (entry u j)
  hung_other u r j o lj ne =
      put_word_other (zero_page s.mem p) (entry t i) (descriptor (to_phys mmu_on p) attrs)
        (entry u j) ne
      ∙ zero_page_outside s.mem p u j aligned_p (v.aligned u r o) lj (owned_apart u r o)

  hung-hangs :
      (u : ℕ) (r : Place) (j : ℕ) (d : Place)
      → put_owner owner p c u ≡ some r
      → child r j ≡ some d
      → j < 512
      → hung (entry u j) ≢ 0
      → put_owner owner p c (next_table mmu_on hung (entry u j)) ≡ some d
  hung-hangs u r j d o is_child' lj ne = elim (Bool-cases (u == p)) [
    | inl y ↦
        let e : u ≡ p = ground (arith, y) in
        absurd (ne (ap (λ (x : ℕ). hung (entry x j)) e ∙ hung_page j lj))
    | inr z ↦
        let apart : u ≢ p = ground (arith, z) in
        let o' : owner u ≡ some r = sym (put_owner_other owner p c u apart) ∙ o in
        elim (Bool-cases (entry u j == entry t i)) [
          | inl same ↦
              let e : entry u j ≡ entry t i = ground (arith, same) in
              let (eu, ej) =
                entry-injective u t j i (v.aligned u r o') (v.aligned t q at) lj lt e in
              let er : r ≡ q = some_inj r q (sym o' ∙ ap owner eu ∙ at) in
              let ed : c ≡ d =
                some_inj c d (
                  sym is_child
                  ∙ ap (child q) (sym ej)
                  ∙ ap (λ x. child x j) (sym er)
                  ∙ is_child') in
              ap (λ (x : ℕ). put_owner owner p c (next_table mmu_on hung x)) e
              ∙ put_owner_self owner p c (next_table mmu_on hung (entry t i)) hung_next
              ∙ ap some ed
          | inr other ↦
              let kept = hung_other u r j o' lj (ground (arith, other)) in
              let below : owner (next_table mmu_on s.mem (entry u j)) ≡ some d =
                v.hangs u r j d o' is_child' lj (λ e. ne (kept ∙ e)) in
              ap (λ (w : ℕ). put_owner owner p c (to_virt mmu_on (get_phy_addr w))) kept
              ∙ put_owner_other owner p c (next_table mmu_on s.mem (entry u j))
                  (owned_apart (next_table mmu_on s.mem (entry u j)) d below)
              ∙ below
        ]
  ]

  pub hung-IsTree : IsTree mmu_on (free a') hung pg_dir (put_owner owner p c)
  hung-IsTree = record {
    root_at = put_owner_other owner p c pg_dir (owned_apart pg_dir root v.root_at) ∙ v.root_at;
    hangs = hung-hangs;
    aligned = λ u r o. elim (Bool-cases (u == p)) [
      | inl y ↦ let e : u ≡ p = ground (arith, y) in ap (λ (x : ℕ). x % 4096) e ∙ aligned_p
      | inr z ↦
          let apart : u ≢ p = ground (arith, z) in
          v.aligned u r (sym (put_owner_other owner p c u apart) ∙ o)
    ];
    taken = λ u f. elim (Bool-cases (u == p)) [
      | inl y ↦ let e : u ≡ p = ground (arith, y) in absurd (not_now (subst (free a') e f))
      | inr z ↦
          let apart : u ≢ p = ground (arith, z) in
          put_owner_other owner p c u apart ∙ v.taken u (keeps u f)
    ];
  }

  hung-Keeps : s.mem (entry t i) ≡ 0 → Keeps owner s.mem hung
  hung-Keeps empty u r j o lj ne = hung_other u r j o lj (λ e. ne (ap s.mem e ∙ empty))

  hung-Filled :
      (calloc : Calloc A)
      → s.mem (entry t i) ≡ 0
      → Filled mmu_on calloc free s pg_dir owner t i (some (record { mem = hung; pages = a' }))
  hung-Filled calloc empty =
      filled (put_owner owner p c) (record { mem = hung; pages = a' })
        (record {
          tree = hung-IsTree;
          grows = λ u r o. put_owner_other owner p c u (owned_apart u r o) ∙ o;
          kept = hung-Keeps empty;
          full = λ e. descriptor-nonzero (to_phys mmu_on p) attrs (
              sym (
                put_word_self (zero_page s.mem p) (entry t i) (descriptor (to_phys mmu_on p) attrs))
              ∙ e);
          fresh = λ z j lj. ap (λ (x : ℕ). hung (entry x j)) hung_next ∙ hung_page j lj;
          old = λ ne. absurd (ne empty);
        })

module _ {A : Type 0} (calloc : Calloc A) (mmu_on : Bool) (attrs : ℕ)
    (laws : CallocLaws mmu_on calloc) (is_attrs : IsAttrs attrs) (s : PageTables A) (pg_dir : ℕ)
    (owner : ℕ → Option Place) (v : IsTree mmu_on (laws.free s.pages) s.mem pg_dir owner) (t i : ℕ)
    (q c : Place) (at : owner t ≡ some q) (is_child : child q i ≡ some c) (lt : i < 512) where
  hang_table-Filled :
      (r : Option ℕ × A)
      → calloc s.pages ≡ r
      → s.mem (entry t i) ≡ 0
      → Filled mmu_on calloc laws.free s pg_dir owner t i
          (hang_table calloc mmu_on attrs (entry t i) s.mem r)
  unfolding hang_table
  hang_table-Filled (none, a') e empty = failed empty
  hang_table-Filled (some p, a') e empty =
      let (is_free, not_now, aligned_p, low, short) = laws.gives s.pages p a' e in
      let y : (p % 4096 == 0) ≡ true = ground (arith, aligned_p) in
      rw (y, hang_table)
        (hung-Filled mmu_on attrs laws.free s a' pg_dir owner v t i p q c at is_child lt is_free
          not_now (laws.keeps s.pages p a' e) aligned_p low short
          (to_phys-aligned mmu_on p aligned_p) is_attrs calloc empty)

  pub fill_table-Filled :
      Filled mmu_on calloc laws.free s pg_dir owner t i
        (fill_table calloc mmu_on attrs (entry t i) s)
  unfolding fill_table
  fill_table-Filled = elim (Bool-cases (s.mem (entry t i) == 0)) [
    | inl y ↦ rw (y, fill_table) (hang_table-Filled (calloc s.pages) refl (ground (arith, y)))
    | inr z ↦
        let full : s.mem (entry t i) ≢ 0 = ground (arith, z) in
        rw (z, fill_table)
          (filled owner s (record {
            tree = v;
            grows = λ u r o. o;
            kept = λ u r j o lj ne. refl;
            full = full;
            fresh = λ e. absurd (full e);
            old = λ ne. refl;
          }))
  ]
