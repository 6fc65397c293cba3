-- ===== src/MemPool/Client.antt =====
-- A client of mm/mm.c: it asks for memory, writes into what it holds and gives it back, in any order.
use tout_os.Base.{
  ℕ, ◌+◌, ◌<◌, ◌^◌, ◌≡◌, ap, ◌∙◌, sym, subst, Option, none, some, List, ◌==◌, if◌then◌else◌,
}
use tout_os.MemPool.{Memory, MemPool, Sbrk, alloc_mem, free_mem}
use tout_os.MemPool.Blocks.{Block, live_from}
use tout_os.MemPool.Pool.{SbrkLaws, IsPool}
use tout_os.MemPool.Alloc.{Allocated, placed, refused_null, alloc_mem-Allocated}
use tout_os.MemPool.Free.{free_mem-Freed}
use tout_os.MemPool.User.{WritesOnly, user_write-IsPool}

-- the pool, and the addresses that the client has got and not given back, with the lengths it asked for
pub record Client (S : Type 0) : Type 0 where
  pub pool : MemPool S
  pub held : ℕ → Option ℕ

abbrev holds : (ℕ → Option ℕ) → ℕ → Option ℕ → ℕ → Option ℕ
holds held u x a = if a == u then x else held a

module _ {S : Type 0} {sbrk : Sbrk S} (laws : SbrkLaws sbrk) where
  -- what a client may do: it frees an address that it holds, and writes into its bytes
  pub data ClientStep : Client S → Client S → Type 0 where
    allocates :
        {c : Client S} {q : MemPool S} (k size u : ℕ)
        → 0 < size
        → size + 7 < 2 ^ 64
        → laws.budget c.pool.brk < k
        → alloc_mem sbrk k c.pool size ≡ some (some u, q)
        → ClientStep c (record { pool = q; held = holds c.held u (some size) })
    gets_null :
        {c : Client S} {q : MemPool S} (k size : ℕ)
        → 0 < size
        → size + 7 < 2 ^ 64
        → laws.budget c.pool.brk < k
        → alloc_mem sbrk k c.pool size ≡ some (none, q)
        → ClientStep c (record { pool = q; held = c.held })
    frees :
        {c : Client S} {q : MemPool S} (u n : ℕ)
        → c.held u ≡ some n
        → free_mem c.pool (some u) ≡ some q
        → ClientStep c (record { pool = q; held = holds c.held u none })
    writes :
        {c : Client S} (u n : ℕ) (mem : Memory)
        → c.held u ≡ some n
        → WritesOnly c.pool.mem mem u n
        → ClientStep c (record { pool = record c.pool { mem = mem }; held = c.held })

  pub data Reach (c : Client S) : Client S → Type 0 where
    here : Reach c c
    next : {d e : Client S} → Reach c d → ClientStep d e → Reach c e

  -- The blocks in use are what the client holds.
  pub record IsServed (c : Client S) : Type 0 where
    pub blocks : List Block
    pub valid : IsPool laws c.pool blocks
    pub view : (a : ℕ) → live_from c.pool.start blocks a ≡ c.held a

  placed-IsServed :
      (c : Client S) (bs : List Block) (size u : ℕ) (q : MemPool S)
      → ((a : ℕ) → live_from c.pool.start bs a ≡ c.held a)
      → Allocated laws c.pool size bs (some (some u, q))
      → IsServed (record { pool = q; held = holds c.held u (some size) })
  placed-IsServed c bs size u q view (placed _ cs v fresh now lo hi total) = record {
    blocks = cs;
    valid = v;
    view = λ a. now a ∙ ap (λ x. if a == u then some size else x) (view a);
  }

  null-IsServed :
      (c : Client S) (bs : List Block) (size : ℕ) (q : MemPool S)
      → ((a : ℕ) → live_from c.pool.start bs a ≡ c.held a)
      → Allocated laws c.pool size bs (some (none, q))
      → IsServed (record { pool = q; held = c.held })
  null-IsServed c bs size q view (refused_null cs v none_fits now total) = record {
    blocks = cs;
    valid = v;
    view = λ a. now a ∙ view a;
  }

  some_inj : (p q : MemPool S) → some p ≡ some q → p ≡ q
  some_inj p q e = cc

  ClientStep-IsServed : {c d : Client S} → ClientStep c d → IsServed c → IsServed d
  ClientStep-IsServed (allocates {c = c} {q = q} k size u pos small enough e) s =
      placed-IsServed c s.blocks size u q s.view (
        subst (Allocated laws c.pool size s.blocks) e
          (alloc_mem-Allocated laws k c.pool size s.blocks s.valid pos small enough))
  ClientStep-IsServed (gets_null {c = c} {q = q} k size pos small enough e) s =
      null-IsServed c s.blocks size q s.view (
        subst (Allocated laws c.pool size s.blocks) e
          (alloc_mem-Allocated laws k c.pool size s.blocks s.valid pos small enough))
  ClientStep-IsServed (frees {c = c} {q = q} u n has e) s =
      let f = free_mem-Freed laws c.pool s.blocks u n s.valid (s.view u ∙ has) in
      let same : f.after ≡ q = some_inj f.after q (sym f.made ∙ e) in
      subst (λ p. IsServed (record { pool = p; held = holds c.held u none })) same
        (record {
          blocks = f.blocks;
          valid = f.valid;
          view = λ a. f.view a ∙ ap (λ x. if a == u then none else x) (s.view a);
        })
  ClientStep-IsServed (writes {c = c} u n mem has only) s = record {
    blocks = s.blocks;
    valid = user_write-IsPool laws c.pool s.blocks mem u n s.valid (s.view u ∙ has) only;
    view = s.view;
  }

  pub Reach-IsServed : {c d : Client S} → Reach c d → IsServed c → IsServed d
  Reach-IsServed here s = s
  Reach-IsServed (next r st) s = ClientStep-IsServed st (Reach-IsServed r s)
