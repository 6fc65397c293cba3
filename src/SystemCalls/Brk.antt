-- ===== src/SystemCalls/Brk.antt =====
-- What `sys_brk` of kernel/isr.c does to the break and to the area of the heap.
use tout_os.Base.{
  ℕ, ◌+◌, ◌-◌, ◌*◌, ◌/◌, ◌%◌, ◌^◌, ◌≤◌, ◌<◌, ◌≡◌, ◌≢◌, refl, ◌∙◌, sym, subst, true, false, ◌||◌,
  Option, some, [], ltb, ◌==◌, if◌then◌else◌, arith, Bool-cases, inl, inr,
}
use tout_os.Areas.{Area, Mm, find_area}
use tout_os.PageTable.Tree.{Place, IsTree}
use tout_os.PageTable.Walk.{IsMapped}
use tout_os.UserPages.Range.{UnmapsRange, unmap_user_page_mapping-UnmapsRange}
use tout_os.UserPages.{UnmapRun, unmap_user_page_mapping}
use tout_os.SystemCalls.{
  Heap, put_area, max_brk_addr, upper_page_addr, drop_blocks, shrink, set_brk, finish_brk, sys_brk,
}
use tout_os.SystemCalls.HeapArea.{IsHeap, Finished, finish_brk-Finished}

abbrev idle : (ℕ → ℕ) → UnmapRun
idle mem = record { tables = mem; freed = [] }

-- What `sys_brk` gives: an address outside the range leaves the break and the pages as they are, one
-- in it is the break afterwards, and the pages from it on are unmapped when there are fewer of them.
pub data BrkDone (free : ℕ → Type 0) (owner : ℕ → Option Place) (pg_dir addr : ℕ) (mm : Mm)
    (mem : ℕ → ℕ) : Option Heap → Type 0 where
  refused :
      (r : Heap)
      → IsHeap r.mm
      → r.mm.brk ≡ mm.brk
      → r.run ≡ idle mem
      → (start_brk_first : mm.start_brk ≤ addr → addr ≢ 0 → max_brk_addr < addr)
      → BrkDone free owner pg_dir addr mm mem (some r)
  grown :
      (r : Heap)
      → IsHeap r.mm
      → r.mm.brk ≡ addr
      → r.run ≡ idle mem
      → upper_page_addr mm.brk ≤ upper_page_addr addr
      → BrkDone free owner pg_dir addr mm mem (some r)
  shrunk :
      (r : Heap) (n : ℕ)
      → IsHeap r.mm
      → r.mm.brk ≡ addr
      → upper_page_addr addr + 4096 * n ≡ upper_page_addr mm.brk
      → 1 ≤ n
      → UnmapsRange free mem pg_dir owner n (upper_page_addr addr) r.run
      → BrkDone free owner pg_dir addr mm mem (some r)

Finished-IsHeap :
    (h r : Heap) → Finished h r → h.mm.start_brk ≤ h.mm.brk → h.mm.brk ≤ max_brk_addr → IsHeap r.mm
Finished-IsHeap h r f lo hi = record {
  low =
      subst (λ (b : ℕ). r.mm.start_brk ≤ b) (sym f.same_brk)
        (subst (λ (b : ℕ). b ≤ h.mm.brk) (sym f.same_start) lo);
  high = subst (λ (b : ℕ). b ≤ max_brk_addr) (sym f.same_brk) hi;
  covered = λ lt. f.covered (
      subst (λ (b : ℕ). b < h.mm.brk) f.same_start
        (subst (λ (b : ℕ). r.mm.start_brk < b) f.same_brk lt));
}

abbrev start_heap : Mm → (ℕ → ℕ) → Heap
start_heap mm mem = record { mm = mm; run = idle mem }

module _ (pg_dir addr : ℕ) (mm : Mm) (mem : ℕ → ℕ) where
  sys_brk-refused :
      ((addr == 0) || (ltb addr mm.start_brk || ltb max_brk_addr addr)) ≡ true
      → sys_brk true pg_dir addr mm mem ≡ finish_brk true (start_heap mm mem)
  unfolding sys_brk
  sys_brk-refused y = rw (sys_brk, y, if◌then◌else◌) refl

  module _ (z : ((addr == 0) || (ltb addr mm.start_brk || ltb max_brk_addr addr)) ≡ false) where
    sys_brk-grown :
        ltb (upper_page_addr addr) (upper_page_addr mm.brk) ≡ false
        → sys_brk true pg_dir addr mm mem ≡ finish_brk true (set_brk addr (start_heap mm mem))
    unfolding sys_brk
    sys_brk-grown z' = rw (sys_brk, z, z', if◌then◌else◌) refl

    sys_brk-shrunk :
        (h : Heap)
        → ltb (upper_page_addr addr) (upper_page_addr mm.brk) ≡ true
        → shrink pg_dir (upper_page_addr addr) (upper_page_addr mm.brk) mm mem ≡ some h
        → sys_brk true pg_dir addr mm mem ≡ finish_brk true (set_brk addr h)
    unfolding sys_brk
    sys_brk-shrunk h y e = rw (sys_brk, z, y, e, if◌then◌else◌) refl

  -- the heap after the pages from the new break on are unmapped
  abbrev shrunk_heap : Area → Heap
  shrunk_heap vma = record {
    mm = record mm {
      mmap = put_area mm.mmap mm.start_brk (record vma {
        pages_block_list =
            drop_blocks (upper_page_addr addr) (upper_page_addr mm.brk) vma.pages_block_list;
      });
    };
    run =
        (unmap_user_page_mapping mem pg_dir (upper_page_addr addr)
          (upper_page_addr mm.brk - upper_page_addr addr)).1;
  }

  shrink-some :
      (vma : Area)
      → find_area mm.mmap mm.start_brk ≡ some vma
      → shrink pg_dir (upper_page_addr addr) (upper_page_addr mm.brk) mm mem
        ≡ some (shrunk_heap vma)
  unfolding shrink
  shrink-some vma e = rw (shrink, e) refl

  -- the pages between the new break and the old one
  unmapped :
      (free : ℕ → Type 0) (owner : ℕ → Option Place)
      → 1 ≤ pg_dir
      → IsTree true free mem pg_dir owner
      → ((k : ℕ)
          → upper_page_addr addr + 4096 * k < upper_page_addr mm.brk
          → IsMapped true mem pg_dir (upper_page_addr addr + 4096 * k))
      → addr ≢ 0
      → addr ≤ max_brk_addr
      → mm.brk ≤ max_brk_addr
      → upper_page_addr addr < upper_page_addr mm.brk
      → (n : ℕ) × (upper_page_addr addr + 4096 * n ≡ upper_page_addr mm.brk)
        × (1 ≤ n)
        × UnmapsRange free mem pg_dir owner n
            (upper_page_addr addr)
            (unmap_user_page_mapping mem pg_dir
              (upper_page_addr addr)
              (upper_page_addr mm.brk - upper_page_addr addr)).1
  unmapped free owner some_dir tree all some_addr low high less =
      let size = upper_page_addr mm.brk - upper_page_addr addr in
      let whole : 4096 * (size / 4096) ≡ size = omega (arith, less) in
      let few : size / 4096 ≤ 2 ^ 27 = omega (arith, high) in
      let above : 1 ≤ upper_page_addr addr = omega (arith, some_addr, low) in
      (
        size / 4096,
        omega (arith, whole, less),
        omega (arith, whole, less),
        subst
            (λ (bytes : ℕ).
              UnmapsRange free mem pg_dir owner (size / 4096) (upper_page_addr addr)
                (unmap_user_page_mapping mem pg_dir (upper_page_addr addr) bytes).1)
            whole
            (unmap_user_page_mapping-UnmapsRange (size / 4096) free mem pg_dir
              (upper_page_addr addr) owner few some_dir above tree
              (λ k lt. all k (omega (arith, whole, lt, less)))).1,
      )

  -- `sys_brk` of a heap whose break is in its range, when the tables are a tree in which every page
  -- from the new break, if it is in the range, to the old one is mapped, ends, whatever the address,
  -- when there is memory for an area: the break stays in its range, and a heap that is not empty has an
  -- area up to the break. An address outside the range changes neither break nor pages, one inside is
  -- the new break, and when it takes pages away none of these is mapped any more, they are given back
  -- in their order, and every other page leads where it did.
  pub sys_brk-BrkDone :
      (free : ℕ → Type 0) (owner : ℕ → Option Place)
      → 1 ≤ pg_dir
      → IsTree true free mem pg_dir owner
      → (1 ≤ addr
          → mm.start_brk ≤ addr
          → (k : ℕ) → upper_page_addr addr + 4096 * k < upper_page_addr mm.brk
          → IsMapped true mem pg_dir (upper_page_addr addr + 4096 * k))
      → IsHeap mm
      → BrkDone free owner pg_dir addr mm mem (sys_brk true pg_dir addr mm mem)
  unfolding set_brk
  sys_brk-BrkDone free owner some_dir tree all v =
      elim (Bool-cases ((addr == 0) || (ltb addr mm.start_brk || ltb max_brk_addr addr))) [
        | inl y ↦
            let (r, e, f) = finish_brk-Finished (start_heap mm mem) in
            subst (BrkDone free owner pg_dir addr mm mem) (sym (sys_brk-refused y ∙ e)) (
              refused r (Finished-IsHeap (start_heap mm mem) r f v.low v.high) f.same_brk f.same_run
                (λ lo ne. ground (arith, y, lo, ne)))
        | inr z ↦
            let lo : mm.start_brk ≤ addr = ground (arith, z) in
            let hi : addr ≤ max_brk_addr = ground (arith, z) in
            let whole : addr % 2 ^ 32 ≡ addr = omega (arith, hi) in
            let low : mm.start_brk ≤ addr % 2 ^ 32 = omega (arith, whole, lo) in
            let high : addr % 2 ^ 32 ≤ max_brk_addr = omega (arith, whole, hi) in
            elim (Bool-cases (ltb (upper_page_addr addr) (upper_page_addr mm.brk))) [
              | inl y ↦
                  let less : upper_page_addr addr < upper_page_addr mm.brk = ground (arith, y) in
                  let above : mm.start_brk < mm.brk = omega (arith, less, lo, hi, v.high) in
                  let at = v.covered above in
                  let h = shrunk_heap at.area in
                  let (r, e, f) = finish_brk-Finished (set_brk addr h) in
                  let (n, span, some_page, gone) =
                    unmapped free owner some_dir tree (all (ground (arith, z)) lo)
                      (ground (arith, z)) hi v.high less in
                  subst (BrkDone free owner pg_dir addr mm mem)
                    (sym (sys_brk-shrunk z h y (shrink-some at.area at.is_found) ∙ e))
                    (shrunk r n (Finished-IsHeap (set_brk addr h) r f low high) (f.same_brk ∙ whole)
                      span some_page
                      (subst (UnmapsRange free mem pg_dir owner n (upper_page_addr addr))
                        (sym f.same_run) gone))
              | inr z' ↦
                  let h = start_heap mm mem in
                  let (r, e, f) = finish_brk-Finished (set_brk addr h) in
                  subst (BrkDone free owner pg_dir addr mm mem) (sym (sys_brk-grown z z' ∙ e)) (
                    grown r (Finished-IsHeap (set_brk addr h) r f low high) (f.same_brk ∙ whole)
                      f.same_run (ground (arith, z')))
            ]
      ]
