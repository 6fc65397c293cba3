-- ===== src/UserPages/Range.antt =====
-- What `unmap_user_page_mapping` of kernel/sched.c does to a range of mapped pages.
use tout_os.Base.{
  ℕ, zero, suc, ◌+◌, ◌-◌, ◌*◌, ◌/◌, ◌%◌, ◌^◌, ◌≤◌, ◌<◌, ◌≡◌, refl, ap, ◌∙◌, sym, subst, ◌⊎◌, inl,
  inr, true, false, ◌||◌, not, Option, List, [], ◌∷◌, ◌==◌, if◌then◌else◌, pos, arith,
}
use tout_os.PageTable.{to_virt, walk_virt_addr, unmap_one_user_page}
use tout_os.PageTable.Tree.{Place, IsTree}
use tout_os.PageTable.Walk.{IsMapped}
use tout_os.PageTable.Unmap.{SamePage, unmap_one_user_page-Unmaps}
use tout_os.UserPages.{UnmapRun, with_freed, unmap_loop, unmap_user_page_mapping}

-- the pages that a range of addresses leads to
unfoldable pub pages_behind : ℕ → (ℕ → ℕ) → ℕ → ℕ → List ℕ
pages_behind zero mem pg_dir addr = []
pages_behind (suc n) mem pg_dir addr =
    to_virt true (walk_virt_addr true mem pg_dir addr) ∷ pages_behind n mem pg_dir (addr + 4096)

at_start : (addr : ℕ) → addr + 4096 * 0 ≡ addr
at_start addr = omega arith

one_on : (addr k : ℕ) → addr + 4096 * suc k ≡ addr + 4096 + 4096 * k
one_on addr k = omega arith

pages_behind-same :
    (n : ℕ) (mem m : ℕ → ℕ) (pg_dir addr : ℕ)
    → ((k : ℕ)
        → k < n
        → walk_virt_addr true m pg_dir (addr + 4096 * k)
          ≡ walk_virt_addr true mem pg_dir (addr + 4096 * k))
    → pages_behind n m pg_dir addr ≡ pages_behind n mem pg_dir addr
unfolding pages_behind
pages_behind-same zero mem m pg_dir addr same = refl
pages_behind-same (suc n) mem m pg_dir addr same =
    let Same : ℕ → Type 0 =
      λ w. walk_virt_addr true m pg_dir w ≡ walk_virt_addr true mem pg_dir w in
    let first : Same addr = subst Same (at_start addr) (same 0 (omega arith)) in
    let rest =
      pages_behind-same n mem m pg_dir (addr + 4096)
        (λ k lt. subst Same (one_on addr k) (same (suc k) (omega (arith, lt)))) in
    ap (λ (page : ℕ). to_virt true page ∷ pages_behind n m pg_dir (addr + 4096)) first
    ∙ ap (λ (pages : List ℕ). to_virt true (walk_virt_addr true mem pg_dir addr) ∷ pages) rest

-- The pages of a range are unmapped and handed out in their order, and the pages that are mapped
-- elsewhere stay.
pub record UnmapsRange (free : ℕ → Type 0) (mem : ℕ → ℕ) (pg_dir : ℕ) (owner : ℕ → Option Place)
    (n addr : ℕ) (r : UnmapRun) : Type 0 where
  pub tree : IsTree true free r.tables pg_dir owner
  pub given_back : r.freed ≡ pages_behind n mem pg_dir addr
  pub gone : (k : ℕ) → k < n → IsMapped true r.tables pg_dir (addr + 4096 * k) → ⊥
  pub none_new : (w : ℕ) → IsMapped true r.tables pg_dir w → IsMapped true mem pg_dir w
  pub others :
      (w : ℕ)
      → IsMapped true mem pg_dir w
      → ((k : ℕ) → k < n → SamePage w (addr + 4096 * k) → ⊥)
      → IsMapped true r.tables pg_dir w
        × (walk_virt_addr true r.tables pg_dir w ≡ walk_virt_addr true mem pg_dir w)

-- the pages of a range of less than 2 ^ 27 are apart
page_apart : (addr k : ℕ) → 1 ≤ k → k < 2 ^ 27 → SamePage (addr + 4096 * k) addr → ⊥
page_apart addr k lo hi e = omega (arith, lo, hi, e)

unmap_loop-UnmapsRange :
    (n : ℕ) (free : ℕ → Type 0) (mem : ℕ → ℕ) (pg_dir addr : ℕ) (owner : ℕ → Option Place)
    → n ≤ 2 ^ 27
    → IsTree true free mem pg_dir owner
    → ((k : ℕ) → k < n → IsMapped true mem pg_dir (addr + 4096 * k))
    → UnmapsRange free mem pg_dir owner n addr (unmap_loop n mem pg_dir addr)
unfolding unmap_loop pages_behind
unmap_loop-UnmapsRange zero free mem pg_dir addr owner few v all = record {
  tree = v;
  given_back = refl;
  gone = λ k lt. absurd (omega (arith, lt));
  none_new = λ w is. is;
  others = λ w is far. (is, refl);
}
unmap_loop-UnmapsRange (suc n) free mem pg_dir addr owner few v all =
    let first : IsMapped true mem pg_dir addr =
      subst (IsMapped true mem pg_dir) (at_start addr) (all 0 (omega arith)) in
    let one = unmap_one_user_page-Unmaps free mem pg_dir owner v addr first in
    let tables = (unmap_one_user_page mem pg_dir addr).tables in
    let kept = λ (k : ℕ) (lt : k < n).
      one.others (addr + 4096 + 4096 * k)
        (subst (IsMapped true mem pg_dir) (one_on addr k) (all (suc k) (omega (arith, lt))))
        (λ same.
          page_apart addr (suc k) (omega arith) (omega (arith, few, lt))
            (subst (λ (w : ℕ). SamePage w addr) (sym (one_on addr k)) same)) in
    let rest =
      unmap_loop-UnmapsRange n free tables pg_dir (addr + 4096) owner (omega (arith, few)) one.tree
        (λ k lt. (kept k lt).0) in
    subst
      (λ o.
        UnmapsRange free mem pg_dir owner (suc n) addr
          (with_freed o (unmap_loop n tables pg_dir (addr + 4096))))
      (sym one.given_back)
      (record {
        tree = rest.tree;
        given_back =
            ap (λ (pages : List ℕ). to_virt true (walk_virt_addr true mem pg_dir addr) ∷ pages)
              (rest.given_back
                ∙ pages_behind-same n mem tables pg_dir (addr + 4096) (λ k lt. (kept k lt).1));
        gone = λ k lt m.
            let split : (k ≡ 0) ⊎ (1 ≤ k) = omega arith in
            elim split [
              | inl z ↦
                  let here : addr + 4096 * k ≡ addr = omega (arith, z) in
                  one.gone
                    (subst (IsMapped true tables pg_dir) here (rest.none_new (addr + 4096 * k) m))
              | inr more ↦
                  let there : addr + 4096 * k ≡ addr + 4096 + 4096 * (k - 1) =
                    omega (arith, more) in
                  rest.gone (k - 1) (omega (arith, lt, more)) (
                    subst (IsMapped true (unmap_loop n tables pg_dir (addr + 4096)).tables pg_dir)
                      there m)
            ];
        none_new = λ w m. one.none_new w (rest.none_new w m);
        others = λ w is far.
            let (is', same) =
              one.others w is
                (λ e. far 0 (omega arith) (subst (SamePage w) (sym (at_start addr)) e)) in
            let (is'', same') = rest.others w is' (λ k lt e.
              far (suc k) (omega (arith, lt)) (subst (SamePage w) (sym (one_on addr k)) e)) in
            (is'', same' ∙ same);
      })

-- `unmap_user_page_mapping` of a range of pages that are all mapped in a tree, at most 2 ^ 27 of them and
-- not from address 0 on, succeeds: it gives back the pages that the range led to in their order, none of
-- the range is mapped any more, and every page outside it leads where it did.
pub unmap_user_page_mapping-UnmapsRange :
    (n : ℕ) (free : ℕ → Type 0) (mem : ℕ → ℕ) (pg_dir addr : ℕ) (owner : ℕ → Option Place)
    → n ≤ 2 ^ 27
    → 1 ≤ pg_dir
    → 1 ≤ addr
    → IsTree true free mem pg_dir owner
    → ((k : ℕ) → k < n → IsMapped true mem pg_dir (addr + 4096 * k))
    → ((unmap_user_page_mapping mem pg_dir addr (4096 * n)).0 ≡ pos 0)
      × UnmapsRange free mem pg_dir owner n addr
          (unmap_user_page_mapping mem pg_dir addr (4096 * n)).1
unfolding unmap_user_page_mapping
unmap_user_page_mapping-UnmapsRange n free mem pg_dir addr owner few some_dir some_addr v all =
    let z : ((pg_dir == 0) || ((addr == 0) || not (4096 * n % 4096 == 0))) ≡ false =
      ground (arith, some_dir, some_addr) in
    let pages : 4096 * n / 4096 ≡ n = omega arith in
    rw (z, pages, if◌then◌else◌)
      (refl, unmap_loop-UnmapsRange n free mem pg_dir addr owner few v all)
