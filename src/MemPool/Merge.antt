-- ===== src/MemPool/Merge.antt =====
-- `merge_free_blk` of mm/mm.c: a free block and its free neighbours become one.
use tout_os.Base.{
  ℕ, zero, suc, ◌+◌, ◌-◌, ◌≤◌, ◌<◌, ◌≡◌, refl, ap, ◌∙◌, sym, ◌⊎◌, inl, inr, Bool, true, false,
  Option, none, some, List, [], ◌∷◌, if◌then◌else◌, arith, Bool-cases,
}
use tout_os.MemPool.{
  Memory, MemPool, header_size, tail_size, in_use, blk_len, prev_mem_blk, next_mem_blk, is_blk_free,
  prev_loop, next_loop, merge_free_blk, fuel, init_free_blk,
}
use tout_os.MemPool.Blocks.{
  Block, free_block, BlockAt, UseAt, Chain, none_left, one_left, Front, none_before, one_before,
  Chain-le, Front-le, Chain-same, Front-same, live_from, live_before, with_block, live_before-congr,
  HeadUsed, Live, rev_append, zip-Chain, live-zip,
}
use tout_os.MemPool.Format.{init_free_blk-outside, init_free_blk-BlockAt, init_free_blk-in_use}

-- a block is free when its list entry is
pub is_blk_free-eq :
    {mem : Memory} {p : ℕ} {b : Block} (u : Bool)
    → b.used ≡ u
    → BlockAt mem p b
    → is_blk_free mem p ≡ (if u then false else true)
unfolding is_blk_free
is_blk_free-eq {mem} {p} {b} true e at =
    let w : UseAt mem p true b.user_len = rw e at at.use_at in ground (arith, w.0)
is_blk_free-eq {mem} {p} {b} false e at =
    let w : UseAt mem p false b.user_len = rw e at at.use_at in ground (arith, w)

module _ {S : Type 0} (pool : MemPool S) where
  prev_mem_blk-none : tail_size ≤ pool.start → prev_mem_blk pool pool.start ≡ none
  unfolding prev_mem_blk
  prev_mem_blk-none h = ground arith

  pub prev_mem_blk-some :
      {p q : ℕ} {b : Block}
      → BlockAt pool.mem p b
      → q ≡ p + b.len
      → pool.start ≤ p
      → prev_mem_blk pool q ≡ some p
  unfolding prev_mem_blk
  prev_mem_blk-some {p} {q} {b} at e h = rw e (ground (arith, at.tail, at.big))

  -- what the backward loop finds
  record Before (p : ℕ) (fs : List Block) (out : Option ℕ) : Type 0 where
    at : ℕ
    rest : List Block
    found : out ≡ some at
    front : Front pool.mem pool.start at rest
    below : (at ≡ p) ⊎ (at + header_size + tail_size ≤ p)
    same : (l : Live) (a : ℕ) → live_before p fs l a ≡ live_before at rest l a
    used : HeadUsed rest

  Before-one :
      {p q : ℕ} {b : Block} {bs : List Block} (out : Option ℕ)
      → b.used ≡ false
      → q ≡ p + b.len
      → header_size + tail_size ≤ b.len
      → Before p bs out
      → Before q (b ∷ bs) out
  unfolding live_before
  Before-one {p} {q} {b} {bs} out u e big f =
      let e' : q - b.len ≡ p = omega arith in
      record {
        at = f.at;
        rest = f.rest;
        found = f.found;
        front = f.front;
        below = inr (omega (arith, f.below));
        same = λ l a.
            ap (λ x. live_before x bs (with_block x b l) a) e'
            ∙ live_before-congr p bs (with_block p b l) l a (ground (arith, u))
            ∙ f.same l a;
        used = f.used;
      }

  prev_loop-Before :
      (k : ℕ) {p : ℕ} {fs : List Block}
      → tail_size ≤ pool.start
      → Front pool.mem pool.start p fs
      → p < pool.start + k
      → Before p fs (prev_loop k pool (prev_mem_blk pool p) p)
  unfolding prev_loop
  prev_loop-Before zero h f lt = absurd (omega (arith, Front-le f))
  prev_loop-Before (suc k) h none_before lt = record {
    at = pool.start;
    rest = [];
    found = rw (prev_mem_blk-none h);
    front = none_before;
    below = inl refl;
    same = λ l a. refl;
    used = tt;
  }
  prev_loop-Before (suc k) h (one_before {p} {q} {b} {bs} f at e) lt =
      rw (prev_mem_blk-some at e (Front-le f)) (elim (Bool-cases b.used) [
        | inl u ↦
            rw (is_blk_free-eq true u at, prev_loop)
              (record {
                at = q;
                rest = b ∷ bs;
                found = refl;
                front = one_before f at e;
                below = inl refl;
                same = λ l a. refl;
                used = u;
              })
        | inr u ↦
            rw (is_blk_free-eq false u at, prev_loop)
              (Before-one (prev_loop k pool (prev_mem_blk pool p) p) u e at.big
                (prev_loop-Before k h f (omega (arith, at.big))))
      ])

  pub next_mem_blk-some :
      {m r : ℕ} {b : Block}
      → BlockAt pool.mem m b
      → r ≡ m + b.len
      → r < pool.stop
      → next_mem_blk pool m ≡ some r
  unfolding next_mem_blk
  next_mem_blk-some at e h = ground (arith, at.size)

  pub next_mem_blk-none :
      {m : ℕ} {b : Block}
      → BlockAt pool.mem m b
      → pool.stop ≡ m + b.len
      → next_mem_blk pool m ≡ none
  unfolding next_mem_blk
  next_mem_blk-none at e = ground (arith, at.size)

  -- what the forward loop finds
  record After (r : ℕ) (bs : List Block) (out : Option ℕ) : Type 0 where
    at : ℕ
    end : ℕ
    rest : List Block
    found : out ≡ some at
    ends : at + blk_len pool.mem at ≡ end
    chain : Chain pool.mem pool.stop end rest
    above : r ≤ end
    same : (a : ℕ) → live_from r bs a ≡ live_from end rest a
    used : HeadUsed rest

  After-one :
      {p r : ℕ} {b : Block} {bs : List Block} (out : Option ℕ)
      → b.used ≡ false
      → r ≡ p + b.len
      → After r bs out
      → After p (b ∷ bs) out
  unfolding live_from
  After-one {p} {r} {b} {bs} out u e f = record {
    at = f.at;
    end = f.end;
    rest = f.rest;
    found = f.found;
    ends = f.ends;
    chain = f.chain;
    above = omega (arith, f.above);
    same = λ a. ground (arith, u, f.same a);
    used = f.used;
  }

  next_loop-After :
      (k : ℕ) {m r : ℕ} {b : Block} {bs : List Block}
      → BlockAt pool.mem m b
      → r ≡ m + b.len
      → Chain pool.mem pool.stop r bs
      → pool.stop < r + k
      → After r bs (next_loop k pool (next_mem_blk pool m) m)
  unfolding next_loop
  next_loop-After zero at e c lt = absurd (omega (arith, Chain-le c))
  next_loop-After (suc k) {m} at e none_left lt = rw (next_mem_blk-none at e) (record {
    at = m;
    end = pool.stop;
    rest = [];
    found = refl;
    ends = omega (arith, at.size);
    chain = none_left;
    above = omega arith;
    same = λ a. refl;
    used = tt;
  })
  next_loop-After (suc k) {m} at e (one_left {p} {r} {b} {bs} at' e' c) lt =
      rw (next_mem_blk-some at e (omega (arith, at'.big, Chain-le c))) (elim (Bool-cases b.used) [
        | inl u ↦
            rw (is_blk_free-eq true u at', next_loop)
              (record {
                at = m;
                end = p;
                rest = b ∷ bs;
                found = refl;
                ends = omega (arith, at.size);
                chain = one_left at' e' c;
                above = omega arith;
                same = λ a. refl;
                used = u;
              })
        | inr u ↦
            rw (is_blk_free-eq false u at', next_loop)
              (After-one (next_loop k pool (next_mem_blk pool p) p) u e'
                (next_loop-After k at' e' c (omega (arith, at'.big))))
      ])

  -- what `merge_free_blk` does at the free block `b` at `p`
  pub record Merged (p : ℕ) (b : Block) (fs bs : List Block) (out : Option (MemPool S))
      : Type 0 where
    pub mem : Memory
    pub at : ℕ
    pub end : ℕ
    pub before : List Block
    pub after : List Block
    pub made : out ≡ some (record pool { mem = mem })
    pub front : Front mem pool.start at before
    pub block : BlockAt mem at (free_block (end - at))
    pub chain : Chain mem pool.stop end after
    pub order : at + header_size + tail_size ≤ end
    pub cleared : in_use mem p ≡ 0
    pub same_before : (l : Live) (a : ℕ) → live_before p fs l a ≡ live_before at before l a
    pub same_after : (a : ℕ) → live_from (p + b.len) bs a ≡ live_from end after a
    pub used_before : HeadUsed before
    pub used_after : HeadUsed after

  module _ (p : ℕ) (start_free : is_blk_free pool.mem p ≡ true) where
    prev_loop-start :
        prev_loop (fuel pool) pool (some p) p
        ≡ prev_loop (pool.stop - pool.start) pool (prev_mem_blk pool p) p
    unfolding prev_loop fuel
    prev_loop-start = rw (start_free, prev_loop)

    next_loop-start :
        next_loop (fuel pool) pool (some p) p
        ≡ next_loop (pool.stop - pool.start) pool (next_mem_blk pool p) p
    unfolding next_loop fuel
    next_loop-start = rw (start_free, next_loop)

    merge_free_blk-eq :
        (q m e : ℕ)
        → prev_loop (pool.stop - pool.start) pool (prev_mem_blk pool p) p ≡ some q
        → next_loop (pool.stop - pool.start) pool (next_mem_blk pool p) p ≡ some m
        → m + blk_len pool.mem m ≡ e
        → merge_free_blk pool p ≡ some (record pool { mem = init_free_blk pool.mem q (e - q) })
    unfolding merge_free_blk
    merge_free_blk-eq q m e i j k = rw (prev_loop-start ∙ i, next_loop-start ∙ j, k, merge_free_blk)

  pub merge_free_blk-Merged :
      {p r : ℕ} {b : Block} {fs bs : List Block}
      → tail_size ≤ pool.start
      → Front pool.mem pool.start p fs
      → BlockAt pool.mem p b
      → b.used ≡ false
      → r ≡ p + b.len
      → Chain pool.mem pool.stop r bs
      → Merged p b fs bs (merge_free_blk pool p)
  merge_free_blk-Merged {p} {r} {b} {fs} {bs} h f at u e c =
      let low = Front-le f in
      let high = Chain-le c in
      let s = prev_loop-Before (pool.stop - pool.start) h f (omega (arith, at.big)) in
      let t = next_loop-After (pool.stop - pool.start) at e c (omega (arith, at.big)) in
      let wide : header_size + tail_size ≤ t.end - s.at = omega (arith, s.below, t.above, at.big) in
      let mem' = init_free_blk pool.mem s.at (t.end - s.at) in
      record {
        mem = mem';
        at = s.at;
        end = t.end;
        before = s.rest;
        after = t.rest;
        made =
            merge_free_blk-eq p (is_blk_free-eq false u at) s.at t.at t.end s.found t.found t.ends;
        front =
            Front-same
              (λ a lo hi. init_free_blk-outside pool.mem s.at (t.end - s.at) a wide (inl hi))
              s.front;
        block = init_free_blk-BlockAt pool.mem s.at (t.end - s.at) wide;
        chain =
            Chain-same
              (λ a lo hi.
                init_free_blk-outside pool.mem s.at (t.end - s.at) a wide
                  (inr (omega (arith, wide))))
              t.chain;
        order = omega (arith, wide);
        cleared =
            init_free_blk-in_use pool.mem s.at (t.end - s.at) p s.below
              (omega (arith, s.below, t.above, at.big));
        same_before = s.same;
        same_after = λ a. ap (λ x. live_from x bs a) (sym e) ∙ t.same a;
        used_before = s.used;
        used_after = t.used;
      }

  -- the blocks after a merge
  abbrev pub merged :
      {p : ℕ} {b : Block} {fs bs : List Block} {out : Option (MemPool S)}
      → Merged p b fs bs out
      → List Block
  merged m = rev_append m.before (free_block (m.end - m.at) ∷ m.after)

  pub Merged-Chain :
      {p : ℕ} {b : Block} {fs bs : List Block} {out : Option (MemPool S)} (m : Merged p b fs bs out)
      → Chain m.mem pool.stop pool.start (merged m)
  Merged-Chain m = zip-Chain m.front (one_left m.block (omega (arith, m.order)) m.chain)

  -- A merge changes nothing that a client sees.
  pub Merged-live :
      {p : ℕ} {b : Block} {fs bs : List Block} {out : Option (MemPool S)} (m : Merged p b fs bs out)
      (a : ℕ)
      → live_from pool.start (merged m) a ≡ live_before p fs (live_from (p + b.len) bs) a
  unfolding live_from
  Merged-live {p} {b} {fs} {bs} m a =
      live-zip (free_block (m.end - m.at) ∷ m.after) a m.front
      ∙ live_before-congr m.at m.before _ (live_from (p + b.len) bs) a
          (ap (λ x. live_from x m.after a) (omega (arith, m.order)) ∙ sym (m.same_after a))
      ∙ sym (m.same_before (live_from (p + b.len) bs) a)
