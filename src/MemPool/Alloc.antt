-- ===== src/MemPool/Alloc.antt =====
-- `find_a_free_blk`, `get_mem_blk` and `alloc_mem` of mm/mm.c.
use tout_os.Base.{
  ℕ, zero, suc, ◌+◌, ◌-◌, ◌*◌, ◌/◌, ◌≤◌, ◌<◌, ◌^◌, ◌≡◌, refl, ap, ◌∙◌, sym, subst, Bool, false,
  Option, none, some, List, [], ◌∷◌, ◌==◌, if◌then◌else◌, arith, add64,
}
use tout_os.MemPool.{
  Memory, MemPool, Sbrk, header_size, tail_size, store, find_loop, fuel, enlarge_mem_pool,
  find_a_free_blk, mark_mem_blk, get_mem_blk, alloc_mem,
}
use tout_os.MemPool.Blocks.{
  Block, BlockAt, Chain, none_left, one_left, Front, none_before, rev_append, Chain-le, Front-le,
  Chain-same, Front-same, live_from, live-zip, zip-Chain, live_before-at, live_before-above,
  live_from-none,
}
use tout_os.MemPool.Search.{Fits, NoneFits, Found, hit, miss, find_loop-Found}
use tout_os.MemPool.Mark.{Marked, mark_mem_blk-Marked, used_block, set_user_len-BlockAt}
use tout_os.MemPool.Pool.{SbrkLaws, IsPool, Enlarged, refused, grown, enlarge_mem_pool-Enlarged}

module _ {S : Type 0} {sbrk : Sbrk S} (laws : SbrkLaws sbrk) where
  -- what `find_a_free_blk` comes back with
  pub data Got (pool : MemPool S) (size : ℕ) (bs : List Block)
      : Option (Option ℕ × MemPool S) → Type 0 where
    got :
        {q : MemPool S} {p r : ℕ} {b : Block} {fs cs : List Block}
        → IsPool laws q (rev_append fs (b ∷ cs))
        → Front q.mem q.start p fs
        → BlockAt q.mem p b
        → r ≡ p + b.len
        → Chain q.mem q.stop r cs
        → Fits size b
        → q.start ≡ pool.start
        → q.total_length ≡ pool.total_length
        → ((a : ℕ) → live_from q.start (rev_append fs (b ∷ cs)) a ≡ live_from pool.start bs a)
        → Got pool size bs (some (some p, q))
    nothing :
        {q : MemPool S} {cs : List Block}
        → IsPool laws q cs
        → NoneFits size cs
        → q.start ≡ pool.start
        → q.total_length ≡ pool.total_length
        → ((a : ℕ) → live_from q.start cs a ≡ live_from pool.start bs a)
        → Got pool size bs (some (none, q))

  -- the same pool, seen from the one before an enlargement
  Got-grown :
      {pool q : MemPool S} {size : ℕ} {bs cs : List Block} {out : Option (Option ℕ × MemPool S)}
      → q.start ≡ pool.start
      → q.total_length ≡ pool.total_length
      → ((a : ℕ) → live_from q.start cs a ≡ live_from pool.start bs a)
      → Got q size cs out
      → Got pool size bs out
  Got-grown s t l (got v f at e c fits s' t' l') =
      got v f at e c fits (s' ∙ s) (t' ∙ t) (λ a. l' a ∙ l a)
  Got-grown s t l (nothing v n s' t' l') = nothing v n (s' ∙ s) (t' ∙ t) (λ a. l' a ∙ l a)

  search_from-Found :
      (pool : MemPool S) (size : ℕ) {p : ℕ} {bs : List Block}
      → Chain pool.mem pool.stop p bs
      → p ≡ pool.start
      → p < pool.stop
      → pool.stop < 2 ^ 64
      → Found pool size bs (find_loop (fuel pool) pool size (some p))
  unfolding rev_append fuel
  search_from-Found pool size none_left s lt high = absurd (omega arith)
  search_from-Found pool size (one_left at e c) s lt high =
      find_loop-Found pool (suc (pool.stop - pool.start)) size
        (subst (λ x. Front pool.mem pool.start x []) (sym s) none_before) at e c tt (omega arith)
        high

  search-Found :
      (pool : MemPool S) (size : ℕ) {bs : List Block}
      → IsPool laws pool bs
      → Found pool size bs (find_loop (fuel pool) pool size (some pool.start))
  search-Found pool size v = search_from-Found pool size v.chain refl v.not_empty v.below

  -- One round: a hit is the result, a miss enlarges the pool.
  after_search :
      (k : ℕ) (pool : MemPool S) (size : ℕ) (bs : List Block) {found : Option (Option ℕ)}
      → IsPool laws pool bs
      → ((q : MemPool S) (cs : List Block)
          → IsPool laws q cs
          → laws.budget q.brk < laws.budget pool.brk
          → Got q size cs (find_a_free_blk sbrk k q size))
      → find_loop (fuel pool) pool size (some pool.start) ≡ found
      → Found pool size bs found
      → {out : Option (Bool × MemPool S)} → enlarge_mem_pool sbrk pool ≡ out
      → Enlarged laws pool bs out
      → Got pool size bs (find_a_free_blk sbrk (suc k) pool size)
  unfolding find_a_free_blk
  after_search k pool size bs v again i (hit f at e c fits first all) j large =
      rw (i, find_a_free_blk)
        (got (subst (IsPool laws pool) (sym all) v) f at e c fits refl refl
          (λ a. ap (λ xs. live_from pool.start xs a) all))
  after_search k pool size bs v again i (miss none_fits) j (grown {q} cs w s t l less) =
      rw (i, j, find_a_free_blk) (Got-grown s t l (again q cs w less))
  after_search k pool size bs v again i (miss none_fits) j (refused w s t e) =
      rw (i, j, find_a_free_blk) (nothing w none_fits s t (λ a. ap (λ x. live_from x bs a) s))

  -- The search ends: the budget of `sbrk_func` bounds the enlargements.
  find_a_free_blk-Got :
      (k : ℕ) (pool : MemPool S) (size : ℕ) (bs : List Block)
      → IsPool laws pool bs
      → laws.budget pool.brk < k
      → Got pool size bs (find_a_free_blk sbrk k pool size)
  find_a_free_blk-Got zero pool size bs v lt = absurd (omega arith)
  find_a_free_blk-Got (suc k) pool size bs v lt =
      after_search k pool size bs v (λ q cs w less. find_a_free_blk-Got k q size cs w (omega arith))
        refl (search-Found pool size v) refl (enlarge_mem_pool-Enlarged laws pool bs v)

  -- What `alloc_mem` does for a client: NULL changes nothing a client sees, and says that no block
  -- is large enough; an address was not in use, and is the one new entry of the view.
  pub data Allocated (pool : MemPool S) (size : ℕ) (bs : List Block)
      : Option (Option ℕ × MemPool S) → Type 0 where
    placed :
        {q : MemPool S} (u : ℕ) (cs : List Block)
        → IsPool laws q cs
        → live_from pool.start bs u ≡ none
        → ((a : ℕ)
            → live_from q.start cs a ≡ (if a == u then some size else live_from pool.start bs a))
        → q.start + header_size ≤ u
        → u + size + tail_size ≤ q.stop
        → q.total_length ≡ add64 pool.total_length size
        → Allocated pool size bs (some (some u, q))
    refused_null :
        {q : MemPool S} (cs : List Block)
        → IsPool laws q cs
        → NoneFits (add64 size 7 / 8 * 8) cs
        → ((a : ℕ) → live_from q.start cs a ≡ live_from pool.start bs a)
        → q.total_length ≡ pool.total_length
        → Allocated pool size bs (some (none, q))

  module _ {q : MemPool S} {p r : ℕ} {b : Block} {fs cs : List Block}
      (v : IsPool laws q (rev_append fs (b ∷ cs))) (f : Front q.mem q.start p fs)
      (at : BlockAt q.mem p b) (e : r ≡ p + b.len) (c : Chain q.mem q.stop r cs)
      (unused : b.used ≡ false) where
    was_live : (a : ℕ) → live_from p (b ∷ cs) a ≡ live_from r cs a
    unfolding live_from
    was_live a = rw (unused, e)

    fresh : live_from q.start (rev_append fs (b ∷ cs)) (p + header_size) ≡ none
    fresh =
        live-zip (b ∷ cs) (p + header_size) f
        ∙ live_before-above (live_from p (b ∷ cs)) (p + header_size) f (omega arith)
        ∙ was_live (p + header_size)
        ∙ live_from-none (p + header_size) c (omega (arith, at.big))

    module _ (asked size : ℕ) (m : Marked q p asked b fs cs (mark_mem_blk q p asked))
        (le : size ≤ asked) where
      abbrev final_mem : Memory
      final_mem = store m.mem (p + 24) size

      abbrev final_blocks : List Block
      final_blocks = rev_append fs (used_block m.len size ∷ m.rest)

      final-Front : Front final_mem q.start p fs
      final-Front = Front-same (λ a lo hi. ground arith) m.front

      final-BlockAt : BlockAt final_mem p (used_block m.len size)
      final-BlockAt = set_user_len-BlockAt size m.block le

      final-Chain : Chain final_mem q.stop q.start final_blocks
      final-Chain = zip-Chain final-Front (
          one_left final-BlockAt refl (Chain-same (λ a lo hi. ground (arith, m.block.big)) m.chain))

      final-live :
          (a : ℕ)
          → live_from q.start final_blocks a ≡ (
              if a == p + header_size
              then some size
              else live_from q.start (rev_append fs (b ∷ cs)) a)
      unfolding live_from
      final-live a =
          live-zip (used_block m.len size ∷ m.rest) a final-Front
          ∙ live_before-at (live_from p (b ∷ cs)) _ (some size) (p + header_size) a f (omega arith)
              (λ x.
                ap (λ (y : Option ℕ). if x == p + header_size then some size else y)
                  (sym (m.same x) ∙ ap (λ y. live_from y cs x) (sym e) ∙ sym (was_live x)))
          ∙ ap (λ (y : Option ℕ). if a == p + header_size then some size else y)
              (sym (live-zip (b ∷ cs) a f))

  alloc_mem-hit :
      (k : ℕ) (pool : MemPool S) (size : ℕ) {q : MemPool S} {p : ℕ} {b : Block} {fs cs : List Block}
      → 0 < size
      → find_a_free_blk sbrk k pool (add64 size 7 / 8 * 8) ≡ some (some p, q)
      → (m : Marked q p (add64 size 7 / 8 * 8) b fs cs (mark_mem_blk q p (add64 size 7 / 8 * 8)))
      → alloc_mem sbrk k pool size
        ≡ some (
          some (p + header_size),
          record q { mem = store m.mem (p + 24) size; total_length = add64 q.total_length size },
        )
  unfolding alloc_mem get_mem_blk
  alloc_mem-hit k pool size h i m =
      let z : (size == 0) ≡ false = ground arith in
      rw (z, i, m.made, m.block.use_at.1, alloc_mem, get_mem_blk)

  alloc_mem-miss :
      (k : ℕ) (pool : MemPool S) (size : ℕ) {q : MemPool S}
      → 0 < size
      → find_a_free_blk sbrk k pool (add64 size 7 / 8 * 8) ≡ some (none, q)
      → alloc_mem sbrk k pool size ≡ some (none, q)
  unfolding alloc_mem get_mem_blk
  alloc_mem-miss k pool size h i =
      let z : (size == 0) ≡ false = ground arith in rw (z, i, alloc_mem, get_mem_blk)

  alloc_from-Got :
      (k : ℕ) (pool : MemPool S) (size : ℕ) (bs : List Block)
      → 0 < size
      → size + 7 < 2 ^ 64
      → {out : Option (Option ℕ × MemPool S)}
      → find_a_free_blk sbrk k pool (add64 size 7 / 8 * 8) ≡ out
      → Got pool (add64 size 7 / 8 * 8) bs out
      → Allocated pool size bs (alloc_mem sbrk k pool size)
  alloc_from-Got k pool size bs pos small i (nothing {q} {cs} v none_fits s t l) =
      rw (alloc_mem-miss k pool size pos i) (refused_null cs v none_fits l t)
  alloc_from-Got k pool size bs pos small i (got {q} {p} {r} {b} {fs} {cs} v f at e c fits s t l) =
      let asked = add64 size 7 / 8 * 8 in
      let le : size ≤ asked = omega arith in
      let low = Front-le f in
      let high = Chain-le c in
      let m =
        mark_mem_blk-Marked q asked f at (subst (λ x. Chain q.mem q.stop x cs) e c) fits.1 fits.0
          (omega (arith, v.above, v.below)) in
      rw (alloc_mem-hit k pool size pos i m) (
        placed (p + header_size) (final_blocks v f at e c fits.0 asked size m le)
          (record {
            chain = final-Chain v f at e c fits.0 asked size m le;
            above = v.above;
            below = v.below;
            not_empty = v.not_empty;
            sane = v.sane;
            at_break = v.at_break;
          })
          (sym (l (p + header_size)) ∙ fresh v f at e c fits.0)
          (λ a.
            final-live v f at e c fits.0 asked size m le a
            ∙ ap (λ (y : Option ℕ). if a == p + header_size then some size else y) (l a))
          (omega arith) (omega (arith, m.block.fits refl, Chain-le m.chain))
          (ap (λ x. add64 x size) t))

  -- On a pool `alloc_mem` of a length that does not wrap keeps the invariant and returns, within the
  -- fuel that the budget of `sbrk_func` sets: an address that was not in use, inside the pool with
  -- all its bytes, which becomes the one new entry of the view and adds to `total_length`; or NULL,
  -- where no block of the pool is large enough and the view is as before.
  pub alloc_mem-Allocated :
      (k : ℕ) (pool : MemPool S) (size : ℕ) (bs : List Block)
      → IsPool laws pool bs
      → 0 < size
      → size + 7 < 2 ^ 64
      → laws.budget pool.brk < k
      → Allocated pool size bs (alloc_mem sbrk k pool size)
  alloc_mem-Allocated k pool size bs v pos small lt =
      alloc_from-Got k pool size bs pos small refl
        (find_a_free_blk-Got k pool (add64 size 7 / 8 * 8) bs v lt)
