-- ===== src/Fork/Children.antt =====
-- One area of the child and all of them, in sys_fork of kernel/isr.c.
use tout_os.Base.{
  ℕ, ◌<◌, ◌≡◌, refl, sym, subst, inl, inr, ◌⊎◌, Bool, true, false, not, Option, none, some, List,
  [], ◌∷◌, map, ◌==◌, bit_and, sub64, if◌then◌else◌, arith, Bool-cases,
}
use tout_os.Pages.{Usage, get_free_pages, pages_of}
use tout_os.Pages.Laws.{Granted, refused, get_free_pages-Granted}
use tout_os.PageTable.{to_phys}
use tout_os.Clock.{get_order}
use tout_os.Areas.{Area, PagesBlock, vm_shared}
use tout_os.Exit.Held.{Held, Held-respects}
use tout_os.Fork.{
  Child, Copied, no_lma, child_area, then_block, copy_owned, copy_blocks, then_blocks, copy_area,
}
use tout_os.Fork.Order.{blocks_of}
use tout_os.Fork.Copy.{
  Kept, kept, given_up, fresh, with_pb, pages, blocks_of-fresh, IsRun, IsRun-back, child_area-cases,
  child_area-Kept, new_block-Kept,
}
use tout_os.Fork.Areas.{Kept-map, Granted-IsRun, IsGrown, copy_blocks-Kept}

-- The pages of the copy `b` of an area `a`: the same ones when they are shared, else new ones, in one block
-- for the whole area or in blocks at the addresses that the blocks of `a` have.
pub data PagesCopied (a b : Area) : Type 0 where
  shared_pages :
      (bit_and a.vm_flags vm_shared == 0) ≡ false
      → b.lma ≡ a.lma
      → b.pages_block_list ≡ []
      → PagesCopied a b
  owned_pages :
      (page : ℕ)
      → (bit_and a.vm_flags vm_shared == 0) ≡ true
      → (a.lma == no_lma) ≡ false
      → b.lma ≡ to_phys true page
      → b.pages_block_list ≡ pages a.vm_start page (get_order (sub64 a.vm_end a.vm_start)) ∷ []
      → PagesCopied a b
  touched_pages :
      (bit_and a.vm_flags vm_shared == 0) ≡ true
      → (a.lma == no_lma) ≡ true
      → b.lma ≡ no_lma
      → map (λ (p : PagesBlock). p.user_virt_addr) b.pages_block_list
        ≡ map (λ (p : PagesBlock). p.user_virt_addr) a.pages_block_list
      → PagesCopied a b

pub record IsCopy (a b : Area) : Type 0 where
  pub start_of : b.vm_start ≡ a.vm_start
  pub end_of : b.vm_end ≡ a.vm_end
  pub flags_of : b.vm_flags ≡ a.vm_flags
  pub pages_of : PagesCopied a b

module _ {M : Type 0} (alloc : M → Bool × M) (base : Usage) where
  then_block-Kept :
      (a : Area) (order : ℕ) (c : Child M) (v : Usage) (page : ℕ)
      → a.vm_start < a.vm_end
      → (bit_and a.vm_flags vm_shared == 0) ≡ true
      → Held base (blocks_of c.mm.mmap) c.usage
      → IsRun c.usage v page order
      → Kept base
          (λ m. m ≡ with_pb (fresh a (to_phys true page)) (pages a.vm_start page order) ∷ c.mm.mmap)
          (copy_owned alloc a order c (some page, v))
  then_block-Kept a order c v page some_bytes own h run =
      let lma = to_phys true page in
      let Result : Copied M → Type 0 = λ r.
        Kept base (λ m. m ≡ with_pb (fresh a lma) (pages a.vm_start page order) ∷ c.mm.mmap)
          (then_block alloc a page order v r) in
      elim (child_area-cases alloc base a lma (record c { usage = v })) [
        | inl e ↦ subst Result (sym e) (
            new_block-Kept alloc base c.mm (fresh a lma) c.mm.mmap (alloc c.memory).1 c.usage v page
              order run a.vm_start a.vm_start (omega (arith)) some_bytes own
              (subst (λ (l : List PagesBlock). Held base l c.usage)
                (sym (blocks_of-fresh a lma c.mm.mmap)) h))
        | inr e ↦
            let (r, gone, same) = IsRun-back c.usage v page order run in
            subst Result (sym e) (given_up r gone (Held-respects h same))
      ]

  copy_owned-Kept :
      (a : Area) (order : ℕ) (c : Child M)
      → a.vm_start < a.vm_end
      → (bit_and a.vm_flags vm_shared == 0) ≡ true
      → Held base (blocks_of c.mm.mmap) c.usage
      → (r : Option ℕ × Usage) → Granted c.usage (pages_of order) r
      → Kept base
          (λ m.
            (page : ℕ) × (m
              ≡ with_pb (fresh a (to_phys true page)) (pages a.vm_start page order) ∷ c.mm.mmap))
          (copy_owned alloc a order c r)
  copy_owned-Kept a order c some_bytes own h (none, _) (refused none_here) = given_up c.usage refl h
  copy_owned-Kept a order c some_bytes own h (some page, v) g =
      Kept-map (λ m same. (page, same))
        (then_block-Kept a order c v page some_bytes own h (Granted-IsRun c.usage v page order g))

  -- `setup_vma` and then the loop over the blocks of the parent's area
  then_blocks-Kept :
      (a : Area) (c : Child M)
      → (bit_and a.vm_flags vm_shared == 0) ≡ true
      → (a.pages_block_list ≡ []) ⊎ (a.vm_start < a.vm_end)
      → Held base (blocks_of c.mm.mmap) c.usage
      → Kept base
          (λ m. (b : Area) × (m ≡ b ∷ c.mm.mmap) × IsGrown (fresh a no_lma) a.pages_block_list b)
          (then_blocks alloc a (child_area alloc a no_lma c))
  unfolding copy_blocks
  then_blocks-Kept a c own room h =
      let f = fresh a no_lma in
      let Good : List PagesBlock → List Area → Type 0 =
        λ bs m. (b : Area) × (m ≡ b ∷ c.mm.mmap) × IsGrown f bs b in
      let Result : Copied M → Type 0 =
        λ r. Kept base (Good a.pages_block_list) (then_blocks alloc a r) in
      let held =
        subst (λ (l : List PagesBlock). Held base l c.usage)
          (sym (blocks_of-fresh a no_lma c.mm.mmap)) h in
      elim (child_area-cases alloc base a no_lma c) [
        | inl e ↦ subst Result (sym e) (elim room [
          | inl nothing ↦
              let d : Child M = record {
                mm = record c.mm { mmap = f ∷ c.mm.mmap };
                usage = c.usage;
                memory = (alloc c.memory).1;
              } in
              let Copies : List PagesBlock → Type 0 =
                λ bs. Kept base (Good bs) (copy_blocks alloc a.vm_start bs d) in
              subst Copies (sym nothing) (
                kept held (
                  f,
                  refl,
                  record {
                    start_of = refl;
                    end_of = refl;
                    flags_of = refl;
                    lma_of = refl;
                    blocks_at = refl;
                  },
                ))
          | inr some_bytes ↦
              copy_blocks-Kept alloc base a.vm_start c.mm.mmap a.pages_block_list c.mm f c.usage
                (alloc c.memory).1 (omega (arith)) some_bytes own held
        ])
        | inr e ↦ subst Result (sym e) (given_up c.usage refl h)
      ]

  -- What the copy of one area keeps, when the area has bytes or no pages to copy.
  pub copy_area-Kept :
      (a : Area) (c : Child M)
      → ((a.pages_block_list ≡ []) × (a.lma ≡ no_lma)) ⊎ (a.vm_start < a.vm_end)
      → Held base (blocks_of c.mm.mmap) c.usage
      → Kept base (λ m. (b : Area) × (m ≡ b ∷ c.mm.mmap) × IsCopy a b) (copy_area alloc a c)
  unfolding copy_area
  copy_area-Kept a c room h = elim (Bool-cases (bit_and a.vm_flags vm_shared == 0)) [
    | inr shared ↦
        rw (copy_area, shared, not, if◌then◌else◌)
          (Kept-map
            (λ m same. (
              fresh a a.lma,
              same,
              record {
                start_of = refl;
                end_of = refl;
                flags_of = refl;
                pages_of = shared_pages shared refl refl;
              },
            ))
            (child_area-Kept alloc base a a.lma c h))
    | inl own ↦ elim (Bool-cases (a.lma == no_lma)) [
      | inl touched ↦
          rw (copy_area, own, touched, not, if◌then◌else◌)
            (Kept-map
              (λ m grown.
                let (b, same, g) = grown in
                (
                  b,
                  same,
                  record {
                    start_of = g.start_of;
                    end_of = g.end_of;
                    flags_of = g.flags_of;
                    pages_of = touched_pages own touched g.lma_of g.blocks_at;
                  },
                ))
              (then_blocks-Kept a c own (elim room [ inl e ↦ inl e.0 | inr lt ↦ inr lt ]) h))
      | inr given ↦
          let some_bytes : a.vm_start < a.vm_end = elim room [
            | inl e ↦ let e1 = e.1 in ground (arith, given, e1)
            | inr lt ↦ lt
          ] in
          let order = get_order (sub64 a.vm_end a.vm_start) in
          rw (copy_area, own, given, not, if◌then◌else◌)
            (Kept-map
              (λ m made_of.
                let (page, same) = made_of in
                (
                  with_pb (fresh a (to_phys true page)) (pages a.vm_start page order),
                  same,
                  record {
                    start_of = refl;
                    end_of = refl;
                    flags_of = refl;
                    pages_of = owned_pages page own given refl refl;
                  },
                ))
              (copy_owned-Kept a order c some_bytes own h (get_free_pages order c.usage)
                (get_free_pages-Granted order c.usage)))
    ]
  ]
