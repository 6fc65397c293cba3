-- ===== src/PageTable/Tree.antt =====
-- When the page tables of mm/page_table.c are a tree: no table is reached in two ways.
use tout_os.Base.{
  ℕ, ◌+◌, ◌*◌, ◌/◌, ◌%◌, ◌^◌, ◌≤◌, ◌<◌, ◌≡◌, ◌≢◌, refl, ap, ◌∙◌, Bool, true, false, ◌&&◌, Option,
  none, some, leb, ltb, ◌==◌, if◌then◌else◌, bit_or, arith, bit_or-div, bit_or-mod, le-bit_or, ◌⊎◌,
}
use tout_os.PageTable.{
  get_phy_addr, to_virt, to_phys, descriptor, entry, next_table, Calloc, put_word, zero_page,
}

-- where a table hangs: it is the directory, or is behind one index or two
pub data Place : Type 0 where
  root : Place
  mid : ℕ → Place
  leaf : ℕ → ℕ → Place

-- the place of the table behind an index, for the layers that lead to tables
abbrev pub child : Place → ℕ → Option Place
child root i = some (mid i)
child (mid i) j = some (leaf i j)
child (leaf i j) k = none

-- What is relied on of `pg_calloc_func`, in terms of the pages that are still free: it gives a free
-- page that a descriptor can name, which is not free from then on, and frees nothing.
pub record CallocLaws {A : Type 0} (mmu_on : Bool) (calloc : Calloc A) : Type 1 where
  pub free : A → ℕ → Type 0
  pub gives :
      (a : A) (p : ℕ) (a' : A)
      → calloc a ≡ (some p, a')
      → free a p × (free a' p → ⊥) × (p % 4096 ≡ 0) × (p < 2 ^ 64) × (to_phys mmu_on p < 2 ^ 48)
  pub keeps : (a : A) (p : ℕ) (a' : A) → calloc a ≡ (some p, a') → (q : ℕ) → free a' q → free a q

-- `owner` says where each table hangs.
pub record IsTree (mmu_on : Bool) (free : ℕ → Type 0) (mem : ℕ → ℕ) (pg_dir : ℕ)
    (owner : ℕ → Option Place) : Type 0 where
  pub root_at : owner pg_dir ≡ some root
  pub hangs :
      (t : ℕ) (q : Place) (i : ℕ) (c : Place)
      → owner t ≡ some q
      → child q i ≡ some c
      → i < 512
      → mem (entry t i) ≢ 0
      → owner (next_table mmu_on mem (entry t i)) ≡ some c
  pub aligned : (t : ℕ) (q : Place) → owner t ≡ some q → t % 4096 ≡ 0
  pub taken : (t : ℕ) → free t → owner t ≡ none

-- Entries of two tables are different words, and so are two entries of one.
pub entry-injective :
    (t u i j : ℕ)
    → t % 4096 ≡ 0
    → u % 4096 ≡ 0
    → i < 512
    → j < 512
    → entry t i ≡ entry u j
    → (t ≡ u) × (i ≡ j)
entry-injective t u i j a b lt lt' e =
    (omega (arith, a, b, lt, lt', e), omega (arith, a, b, lt, lt', e))

-- attributes outside the bits of the address
abbrev pub IsAttrs : ℕ → Type 0
IsAttrs attrs = attrs / 2 ^ 12 % 2 ^ 36 ≡ 0

get_phy_addr-or : (a b : ℕ) → b / 2 ^ 12 % 2 ^ 36 ≡ 0 → get_phy_addr (bit_or a b) ≡ get_phy_addr a
get_phy_addr-or a b h =
    ap (λ (x : ℕ). x % 2 ^ 36 * 4096) (bit_or-div 12 a b)
    ∙ ap (λ (x : ℕ). x * 4096) (bit_or-mod 36 (a / 2 ^ 12) (b / 2 ^ 12) h)

-- The descriptor of a page names the page.
pub get_phy_addr-descriptor :
    (p attrs : ℕ)
    → IsAttrs attrs
    → p % 4096 ≡ 0
    → p < 2 ^ 48
    → get_phy_addr (descriptor p attrs) ≡ p
get_phy_addr-descriptor p attrs h a lt =
    get_phy_addr-or (bit_or (bit_or p attrs) 3) 1024 (omega arith)
    ∙ get_phy_addr-or (bit_or p attrs) 3 (omega arith)
    ∙ get_phy_addr-or p attrs h
    ∙ omega (arith, a, lt)

pub descriptor-nonzero : (p attrs : ℕ) → descriptor p attrs ≢ 0
descriptor-nonzero p attrs =
    let set : 1024 ≤ descriptor p attrs = le-bit_or (bit_or (bit_or p attrs) 3) 1024 in
    omega (arith, set)

pub to_virt-to_phys : (mmu_on : Bool) (p : ℕ) → p < 2 ^ 64 → to_virt mmu_on (to_phys mmu_on p) ≡ p
to_virt-to_phys true p lt = omega (arith, lt)
to_virt-to_phys false p lt = refl

-- below 2 ^ 48
pub to_phys-to_virt : (mmu_on : Bool) (p : ℕ) → p < 2 ^ 48 → to_phys mmu_on (to_virt mmu_on p) ≡ p
to_phys-to_virt true p lt = omega (arith, lt)
to_phys-to_virt false p lt = refl

pub to_phys-aligned : (mmu_on : Bool) (p : ℕ) → p % 4096 ≡ 0 → to_phys mmu_on p % 4096 ≡ 0
to_phys-aligned true p a = omega (arith, a)
to_phys-aligned false p a = a

pub get_phy_addr-lt : (d : ℕ) → get_phy_addr d < 2 ^ 48
get_phy_addr-lt d = omega arith

pub put_word_self : (mem : ℕ → ℕ) (a v : ℕ) → put_word mem a v a ≡ v
put_word_self mem a v = let y : (a == a) ≡ true = ground arith in rw (y, if◌then◌else◌)

pub put_word_other : (mem : ℕ → ℕ) (a v b : ℕ) → b ≢ a → put_word mem a v b ≡ mem b
put_word_other mem a v b ne = let z : (b == a) ≡ false = ground (arith, ne) in rw (z, if◌then◌else◌)

-- In the page only 0 is left, and elsewhere all is kept.
pub zero_page_inside : (mem : ℕ → ℕ) (p i : ℕ) → i < 512 → zero_page mem p (entry p i) ≡ 0
zero_page_inside mem p i lt =
    let y : (leb p (p + 8 * i) && ltb (p + 8 * i) (p + 4096)) ≡ true = ground (arith, lt) in
    rw (y, if◌then◌else◌)

pub zero_page_outside :
    (mem : ℕ → ℕ) (p t i : ℕ)
    → p % 4096 ≡ 0
    → t % 4096 ≡ 0
    → i < 512
    → t ≢ p
    → zero_page mem p (entry t i) ≡ mem (entry t i)
zero_page_outside mem p t i a b lt ne =
    let apart : (t + 8 * i < p) ⊎ (p + 4096 ≤ t + 8 * i) = omega (arith, a, b, lt, ne) in
    let z : (leb p (t + 8 * i) && ltb (t + 8 * i) (p + 4096)) ≡ false = ground (arith, apart) in
    rw (z, if◌then◌else◌)
