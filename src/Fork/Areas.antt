-- ===== src/Fork/Areas.antt =====
-- The areas of the child in sys_fork of kernel/isr.c, one after the other.
use tout_os.Base.{
  ℕ, ◌≤◌, ◌<◌, ◌≡◌, refl, ap, ◌∙◌, sym, subst, Bool, true, Option, none, some, List, [], ◌∷◌, ◌++◌,
  map, ◌==◌, bit_and, append-nil, append_assoc,
}
use tout_os.Pages.{Usage, get_free_pages, pages_of}
use tout_os.Pages.Laws.{Granted, granted, refused, get_free_pages-Granted}
use tout_os.Areas.{Area, Mm, PagesBlock, vm_shared}
use tout_os.Exit.Held.{Held}
use tout_os.Fork.{Child, Copied, copied, fails, copy_page, copy_blocks}
use tout_os.Fork.Order.{blocks_of}
use tout_os.Fork.Copy.{Kept, kept, given_up, with_pb, pages, IsRun, new_block-Kept}

pub Kept-map :
    {M : Type 0} {base : Usage} {P Q : List Area → Type 0} {r : Copied M}
    → ((l : List Area) → P l → Q l)
    → Kept base P r
    → Kept base Q r
Kept-map f (kept {c} h good) = kept h (f c.mm.mmap good)
Kept-map f (given_up u e h) = given_up u e h

-- `b` is `a` with blocks for the same addresses as the list has
pub record IsGrown (a : Area) (l : List PagesBlock) (b : Area) : Type 0 where
  pub start_of : b.vm_start ≡ a.vm_start
  pub end_of : b.vm_end ≡ a.vm_end
  pub flags_of : b.vm_flags ≡ a.vm_flags
  pub lma_of : b.lma ≡ a.lma
  pub blocks_at :
      map (λ (p : PagesBlock). p.user_virt_addr) b.pages_block_list
      ≡ map (λ (p : PagesBlock). p.user_virt_addr) a.pages_block_list
        ++ map (λ (p : PagesBlock). p.user_virt_addr) l

addresses-append :
    (l m : List PagesBlock)
    → map (λ (p : PagesBlock). p.user_virt_addr) (l ++ m)
      ≡ map (λ (p : PagesBlock). p.user_virt_addr) l ++ map (λ (p : PagesBlock). p.user_virt_addr) m
addresses-append [] m = refl
addresses-append (p ∷ l) m = ap (λ (r : List ℕ). p.user_virt_addr ∷ r) (addresses-append l m)

IsGrown-more :
    (a : Area) (pb : PagesBlock) (page : ℕ) (rest : List PagesBlock) (b : Area)
    → IsGrown (with_pb a (pages pb.user_virt_addr page 0)) rest b
    → IsGrown a (pb ∷ rest) b
IsGrown-more a pb page rest b g = record {
  start_of = g.start_of;
  end_of = g.end_of;
  flags_of = g.flags_of;
  lma_of = g.lma_of;
  blocks_at =
      g.blocks_at
      ∙ ap (λ (l : List ℕ). l ++ map (λ (p : PagesBlock). p.user_virt_addr) rest)
          (addresses-append a.pages_block_list (pages pb.user_virt_addr page 0 ∷ []))
      ∙ append_assoc (map (λ (p : PagesBlock). p.user_virt_addr) a.pages_block_list)
          (pb.user_virt_addr ∷ []) (map (λ (p : PagesBlock). p.user_virt_addr) rest);
}

pub Granted-IsRun :
    (u v : Usage) (page order : ℕ)
    → Granted u (pages_of order) (some page, v)
    → IsRun u v page order
Granted-IsRun u v _ order (granted first hi free inside outside) = record {
  first = first;
  at = refl;
  fits = hi;
  free = λ j i. free j i.0 i.1;
  set = record { inside = λ j i. inside j i.0 i.1; outside = outside };
}

module _ {M : Type 0} (alloc : M → Bool × M) (base : Usage) where
  -- the child with the area `a` in front
  abbrev with_head : Mm → Area → List Area → Usage → M → Child M
  with_head mm a l u memory = record { mm = record mm { mmap = a ∷ l }; usage = u; memory = memory }

  module _ (vm_start : ℕ) (l : List Area) where
    copy_page-Kept :
        (pb : PagesBlock) (mm : Mm) (a : Area) (u : Usage) (memory : M)
        → a.vm_start ≤ vm_start
        → vm_start < a.vm_end
        → (bit_and a.vm_flags vm_shared == 0) ≡ true
        → Held base (blocks_of (a ∷ l)) u
        → (r : Option ℕ × Usage) → get_free_pages 0 u ≡ r
        → Granted u 1 r
        → Kept base
            (λ m. (page : ℕ) × (m ≡ with_pb a (pages pb.user_virt_addr page 0) ∷ l))
            (copy_page alloc vm_start pb (with_head mm a l u memory) r)
    copy_page-Kept pb mm a u memory lo hi own h (none, _) e (refused none_here) = given_up u refl h
    copy_page-Kept pb mm a u memory lo hi own h (some page, v) e g =
        Kept-map (λ m same. (page, same))
          (new_block-Kept alloc base mm a l memory u v page 0 (Granted-IsRun u v page 0 g) vm_start
            pb.user_virt_addr lo hi own h)

    -- One block, when the rest of the blocks goes well behind it.
    copy_blocks-more :
        (pb : PagesBlock) (rest : List PagesBlock) (mm : Mm) (a : Area) (u : Usage) (memory : M)
        (r : Copied M)
        → copy_page alloc vm_start pb (with_head mm a l u memory) (get_free_pages 0 u) ≡ r
        → ((page : ℕ) (d : Child M)
            → d.mm.mmap ≡ with_pb a (pages pb.user_virt_addr page 0) ∷ l
            → Held base (blocks_of d.mm.mmap) d.usage
            → Kept base
                (λ m. (b : Area) × (m ≡ b ∷ l) × IsGrown a (pb ∷ rest) b)
                (copy_blocks alloc vm_start rest d))
        → Kept base (λ m. (page : ℕ) × (m ≡ with_pb a (pages pb.user_virt_addr page 0) ∷ l)) r
        → Kept base
            (λ m. (b : Area) × (m ≡ b ∷ l) × IsGrown a (pb ∷ rest) b)
            (copy_blocks alloc vm_start (pb ∷ rest) (with_head mm a l u memory))
    unfolding copy_blocks
    copy_blocks-more pb rest mm a u memory (copied d) e go (kept h (page, at)) =
        rw (copy_blocks, e) (go page d at h)
    copy_blocks-more pb rest mm a u memory (fails mm' r) e go (given_up v done_v h) =
        rw (copy_blocks, e) (given_up v done_v h)

    -- what is known when the copy of the blocks goes on
    pub copy_blocks-Kept :
        (pbs : List PagesBlock) (mm : Mm) (a : Area) (u : Usage) (memory : M)
        → a.vm_start ≤ vm_start
        → vm_start < a.vm_end
        → (bit_and a.vm_flags vm_shared == 0) ≡ true
        → Held base (blocks_of (a ∷ l)) u
        → Kept base
            (λ m. (b : Area) × (m ≡ b ∷ l) × IsGrown a pbs b)
            (copy_blocks alloc vm_start pbs (with_head mm a l u memory))
    unfolding copy_blocks
    copy_blocks-Kept [] mm a u memory lo hi own h = kept h (
      a,
      refl,
      record {
        start_of = refl;
        end_of = refl;
        flags_of = refl;
        lma_of = refl;
        blocks_at = sym (append-nil _);
      },
    )
    copy_blocks-Kept (pb ∷ rest) mm a u memory lo hi own h =
        copy_blocks-more pb rest mm a u memory
          (copy_page alloc vm_start pb (with_head mm a l u memory) (get_free_pages 0 u)) refl
          (λ page d at h'.
            let a' = with_pb a (pages pb.user_virt_addr page 0) in
            let Rest : List Area → Type 0 = λ m.
              Kept base (λ n. (b : Area) × (n ≡ b ∷ l) × IsGrown a (pb ∷ rest) b)
                (copy_blocks alloc vm_start rest (record d { mm = record d.mm { mmap = m } })) in
            subst Rest (sym at) (
              Kept-map (λ m found. (found.0, found.1, IsGrown-more a pb page rest found.0 found.2))
                (copy_blocks-Kept rest d.mm a' d.usage d.memory lo hi own
                  (subst (λ (m : List Area). Held base (blocks_of m) d.usage) at h'))))
          (copy_page-Kept pb mm a u memory lo hi own h (get_free_pages 0 u) refl
            (get_free_pages-Granted 0 u))
