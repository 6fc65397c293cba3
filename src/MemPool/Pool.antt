-- ===== src/MemPool/Pool.antt =====
-- The invariant of a pool of mm/mm.c, what it asks of `sbrk_func`, and `enlarge_mem_pool`.
use tout_os.Base.{
  ℕ, ◌+◌, ◌-◌, ◌≤◌, ◌<◌, ◌^◌, ◌≡◌, refl, ap, ◌∙◌, sym, subst, inl, inr, Bool, true, false, Option,
  none, some, List, [], arith, Option-cases,
}
use tout_os.MemPool.{
  MemPool, Sbrk, header_size, tail_size, init_free_blk, merge_free_blk, enlarge_mem_pool,
}
use tout_os.MemPool.Blocks.{
  Block, free_block, Chain, none_left, Front, none_before, rev_append, Front-same, live_from,
  live_before, live-zip, unzip-Front, Chain-wide, rev_append-twice,
}
use tout_os.MemPool.Format.{init_free_blk-outside, init_free_blk-BlockAt}
use tout_os.MemPool.Merge.{Merged, merge_free_blk-Merged, merged, Merged-Chain, Merged-live}

-- What the allocator relies on: a successful call returns the old break and moves it by the
-- increment, inside the address space, and there is a budget that runs out.
pub record SbrkLaws {S : Type 0} (sbrk : Sbrk S) : Type 1 where
  pub Sane : S → Type 0
  pub break_of : S → ℕ
  pub budget : S → ℕ
  pub refuses :
      (s : S) (n : ℕ)
      → Sane s
      → (sbrk s n).0 ≡ none
      → Sane (sbrk s n).1 × (break_of (sbrk s n).1 ≡ break_of s)
  pub gives :
      (s : S) (n a : ℕ)
      → Sane s
      → 0 < n
      → (sbrk s n).0 ≡ some a
      → (a ≡ break_of s)
        × Sane (sbrk s n).1
        × (break_of (sbrk s n).1 ≡ a + n)
        × (a + n < 2 ^ 64)
        × (budget (sbrk s n).1 < budget s)

module _ {S : Type 0} {sbrk : Sbrk S} (laws : SbrkLaws sbrk) where
  -- The blocks `bs` fill the pool, which ends at the break.
  pub record IsPool (pool : MemPool S) (bs : List Block) : Type 0 where
    pub chain : Chain pool.mem pool.stop pool.start bs
    pub above : header_size + tail_size ≤ pool.start
    pub below : pool.stop < 2 ^ 64
    pub not_empty : pool.start < pool.stop
    pub sane : laws.Sane pool.brk
    pub at_break : laws.break_of pool.brk ≡ pool.stop

  -- the pool after its `sbrk_func` has refused or given
  pub data Enlarged (pool : MemPool S) (bs : List Block) : Option (Bool × MemPool S) → Type 0 where
    refused :
        {q : MemPool S}
        → IsPool q bs
        → q.start ≡ pool.start
        → q.total_length ≡ pool.total_length
        → (sbrk pool.brk (pool.stop - pool.start)).0 ≡ none
        → Enlarged pool bs (some (false, q))
    grown :
        {q : MemPool S} (cs : List Block)
        → IsPool q cs
        → q.start ≡ pool.start
        → q.total_length ≡ pool.total_length
        → ((a : ℕ) → live_from q.start cs a ≡ live_from pool.start bs a)
        → laws.budget q.brk < laws.budget pool.brk
        → Enlarged pool bs (some (true, q))

  -- the pool that `merge_free_blk` is called on
  abbrev larger : MemPool S → ℕ → S → MemPool S
  larger p a brk =
      let increment = p.stop - p.start in
      record p { stop = p.stop + increment; mem = init_free_blk p.mem a increment; brk = brk }

  module _ (pool : MemPool S) (bs : List Block) (v : IsPool pool bs) where
    enlarge-refused :
        (sbrk pool.brk (pool.stop - pool.start)).0 ≡ none
        → enlarge_mem_pool sbrk pool
          ≡ some (false, record pool { brk = (sbrk pool.brk (pool.stop - pool.start)).1 })
    unfolding enlarge_mem_pool
    enlarge-refused e = rw (e, enlarge_mem_pool)

    enlarge-given :
        (a : ℕ) {q : MemPool S}
        → (sbrk pool.brk (pool.stop - pool.start)).0 ≡ some a
        → merge_free_blk (larger pool a (sbrk pool.brk (pool.stop - pool.start)).1) a ≡ some q
        → enlarge_mem_pool sbrk pool ≡ some (true, q)
    unfolding enlarge_mem_pool
    enlarge-given a e m = rw (e, m, enlarge_mem_pool)

    enlarge-grown :
        (a : ℕ) (s : S)
        → header_size + tail_size ≤ pool.stop - pool.start
        → a ≡ pool.stop
        → Merged
            (larger pool a s)
            a
            (free_block (pool.stop - pool.start))
            (rev_append bs [])
            []
            (merge_free_blk (larger pool a s) a)
    enlarge-grown a s wide e =
        let n = pool.stop - pool.start in
        let f : Front (init_free_blk pool.mem a n) pool.start pool.stop (rev_append bs []) =
          Front-same (λ x lo hi. init_free_blk-outside pool.mem a n x wide (inl (omega arith)))
            (unzip-Front none_before v.chain) in
        merge_free_blk-Merged (larger pool a s) (omega (arith, v.above))
          (subst (λ x. Front (init_free_blk pool.mem a n) pool.start x (rev_append bs [])) (sym e)
            f)
          (init_free_blk-BlockAt pool.mem a n wide) refl (omega arith) none_left

    grown-live :
        (a x : ℕ)
        → a ≡ pool.stop
        → live_before a (rev_append bs []) (live_from (a + (pool.stop - pool.start)) []) x
          ≡ live_from pool.start bs x
    unfolding live_from rev_append
    grown-live a x e =
        ap (λ y. live_before y (rev_append bs []) (live_from y []) x) e
        ∙ sym (live-zip [] x (unzip-Front none_before v.chain))
        ∙ ap (λ cs. live_from pool.start cs x) (rev_append-twice bs [])

    pub enlarge_mem_pool-Enlarged : Enlarged pool bs (enlarge_mem_pool sbrk pool)
    enlarge_mem_pool-Enlarged = elim (Option-cases (sbrk pool.brk (pool.stop - pool.start)).0) [
      | inl e ↦
          let (sane, break) = laws.refuses pool.brk (pool.stop - pool.start) v.sane e in
          rw (enlarge-refused e) (
            refused
              (record {
                chain = v.chain;
                above = v.above;
                below = v.below;
                not_empty = v.not_empty;
                sane = sane;
                at_break = break ∙ v.at_break;
              })
              refl refl e)
      | inr (a, e) ↦
          let n = pool.stop - pool.start in
          let s = (sbrk pool.brk n).1 in
          let wide = Chain-wide v.chain v.not_empty in
          let (at, sane, break, high, less) =
            laws.gives pool.brk n a v.sane (omega (arith, v.not_empty)) e in
          let a' : a ≡ pool.stop = at ∙ v.at_break in
          let m = enlarge-grown a s (omega arith) a' in
          rw (enlarge-given a e m.made) (
            grown (merged (larger pool a s) m)
              (record {
                chain = Merged-Chain (larger pool a s) m;
                above = v.above;
                below = omega arith;
                not_empty = omega (arith, v.not_empty);
                sane = sane;
                at_break = omega arith;
              })
              refl refl (λ x. Merged-live (larger pool a s) m x ∙ grown-live a x a') less)
    ]
