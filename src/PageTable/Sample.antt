-- ===== src/PageTable/Sample.antt =====
-- Tables of mm/page_table.c for the tests: an empty directory, and a directory with one page.
use tout_os.Base.{
  ℕ, ◌+◌, ◌*◌, ◌%◌, ◌≤◌, ◌≡◌, refl, ap, ◌∙◌, sym, subst, Bool, true, Option, none, some, ◌==◌,
  if◌then◌else◌, arith, Bool-cases, inl, inr,
}
use tout_os.PageTable.{page_offset, put_word, zero_page, entry, descriptor}
use tout_os.PageTable.Tree.{Place, root, mid, leaf, IsTree}
use tout_os.PageTable.Fill.{hung-IsTree}
use tout_os.PageTable.Walk.{IsMapped}
use tout_os.PageTable.Setup.{put_leaf-IsTree}

abbrev pub only_root : ℕ → ℕ → Option Place
only_root pg_dir t = if t == pg_dir then some root else none

none≢place : (q : Place) → none ≡ some q → ⊥
none≢place q e = cc

pub start-IsTree :
    (mmu_on : Bool) (free : ℕ → Type 0) (pg_dir : ℕ)
    → pg_dir % 4096 ≡ 0
    → (free pg_dir → ⊥)
    → IsTree mmu_on free (λ a. 0) pg_dir (only_root pg_dir)
start-IsTree mmu_on free pg_dir aligned_dir not_free = record {
  root_at = let y : (pg_dir == pg_dir) ≡ true = ground arith in rw (y, if◌then◌else◌) refl;
  hangs = λ t q i c o is_child lt ne. absurd (ne refl);
  aligned = λ t q o. elim (Bool-cases (t == pg_dir)) [
    | inl y ↦ let e : t ≡ pg_dir = ground (arith, y) in ap (λ (x : ℕ). x % 4096) e ∙ aligned_dir
    | inr z ↦
        let at : none ≡ some q = sym (rw (z, if◌then◌else◌) refl) ∙ o in absurd (none≢place q at)
  ];
  taken = λ t f. elim (Bool-cases (t == pg_dir)) [
    | inl y ↦ let e : t ≡ pg_dir = ground (arith, y) in absurd (not_free (subst free e f))
    | inr z ↦ rw (z, if◌then◌else◌) refl
  ];
}

-- Two tables are hung under the directory of a process, and a page into the second.
abbrev pub dir : ℕ
dir = page_offset + 0x40000000

abbrev pub FreePage : ℕ → ℕ → Type 0
FreePage n q = dir + 4096 * n ≤ q

abbrev pub dir_tree : IsTree true (FreePage 1) (λ a. 0) dir (only_root dir)
dir_tree = start-IsTree true (FreePage 1) dir refl (λ f. omega (arith, f))

abbrev pub one_table : ℕ → ℕ
one_table = put_word (zero_page (λ a. 0) (dir + 4096)) (entry dir 0) (descriptor 0x40001000 0x700)

pub one_tree :
    IsTree true
      (FreePage 2)
      one_table
      dir
      (λ u. if u == dir + 4096 then some (mid 0) else only_root dir u)
one_tree =
    hung-IsTree true 0x700 FreePage (record { mem = λ a. 0; pages = 1 }) 2 dir (only_root dir)
      dir_tree dir 0 (dir + 4096) root (mid 0) refl refl (omega arith) (omega arith)
      (λ f. omega (arith, f)) (λ u f. omega (arith, f)) refl (omega arith) (omega arith) refl refl

abbrev pub two_tables : ℕ → ℕ
two_tables =
    put_word (zero_page one_table (dir + 8192)) (entry (dir + 4096) 0) (descriptor 0x40002000 0x700)

abbrev pub two_owner : ℕ → Option Place
two_owner u =
    if u == dir + 8192
    then some (leaf 0 0)
    else if u == dir + 4096
    then some (mid 0)
    else only_root dir u

pub two_tree : IsTree true (FreePage 3) two_tables dir two_owner
two_tree =
    hung-IsTree true 0x700 FreePage (record { mem = one_table; pages = 2 }) 3 dir
      (λ u. if u == dir + 4096 then some (mid 0) else only_root dir u) one_tree (dir + 4096) 0
      (dir + 8192) (mid 0) (leaf 0 0) refl refl (omega arith) (omega arith) (λ f. omega (arith, f))
      (λ u f. omega (arith, f)) refl (omega arith) (omega arith) refl refl

abbrev pub with_page : ℕ → ℕ
with_page = put_word two_tables (entry (dir + 8192) 3) (descriptor 0x40010000 0x700)

pub with_page_tree : IsTree true (FreePage 3) with_page dir two_owner
with_page_tree =
    put_leaf-IsTree true (FreePage 3) two_tables dir two_owner two_tree (dir + 8192) 0 0 3
      (descriptor 0x40010000 0x700) refl (omega arith)

pub page_3-IsMapped : IsMapped true with_page dir 0x3000
page_3-IsMapped = record {
  full1 = λ e. omega (arith, e);
  full2 = λ e. omega (arith, e);
  full3 = λ e. omega (arith, e);
}
