-- ===== src/MemPool/Mark.antt =====
-- `mark_mem_blk` and `split_mem_blk` of mm/mm.c: a free block that is large enough becomes a block
-- in use, and what is left over a free one.
use tout_os.Base.{
  ℕ, ◌+◌, ◌-◌, ◌≤◌, ◌<◌, ◌^◌, ◌≡◌, refl, ap, ◌∙◌, subst, ◌⊎◌, inl, inr, true, false, Option, some,
  List, ◌∷◌, ltb, leb, arith, Bool-cases, add64, sub64,
}
use tout_os.MemPool.{
  Memory, MemPool, header_size, tail_size, next_mem_blk, should_split, split_mem_blk, mark_mem_blk,
  init_free_blk, store,
}
use tout_os.MemPool.Blocks.{
  Block, free_block, UseAt, BlockAt, BlockAt-same, Chain, one_left, Front, Chain-le, Chain-same,
  Front-same, live_from,
}
use tout_os.MemPool.Format.{init_free_blk-outside, init_free_blk-BlockAt}

abbrev pub used_block : ℕ → ℕ → Block
used_block n size = record { len = n; used = true; user_len = size }

-- the stores of `mark_mem_blk`
abbrev mark_stores : Memory → ℕ → ℕ → Memory
mark_stores mem p size =
    store (store (store mem (p + 4) 1) (p + 16) (p + header_size)) (p + 24) size

mark_stores-BlockAt :
    {mem : Memory} {p n : ℕ} (size : ℕ)
    → BlockAt mem p (free_block n)
    → size + header_size + tail_size ≤ n
    → BlockAt (mark_stores mem p size) p (used_block n size)
mark_stores-BlockAt size at h = record {
  magic = ground (arith, at.magic);
  use_at = ground arith;
  size = ground (arith, at.size);
  tail = ground (arith, at.tail, at.big);
  big = at.big;
  fits = λ e. omega arith;
}

mark_stores-outside :
    (mem : Memory) (p size a : ℕ)
    → (a < p) ⊎ (p + header_size ≤ a)
    → mark_stores mem p size a ≡ mem a
mark_stores-outside mem p size a o = ground arith

free-BlockAt :
    {mem : Memory} {p : ℕ} {b : Block}
    → b.used ≡ false
    → BlockAt mem p b
    → BlockAt mem p (free_block b.len)
free-BlockAt {mem} {p} {b} u at = record {
  magic = at.magic;
  use_at = subst (λ x. UseAt mem p x b.user_len) u at.use_at;
  size = at.size;
  tail = at.tail;
  big = at.big;
  fits = λ e. cc;
}

should_split-eq :
    {mem : Memory} {p : ℕ} {b : Block} (size : ℕ)
    → BlockAt mem p b
    → size + header_size + tail_size ≤ b.len
    → b.len + 40 < 2 ^ 64
    → should_split mem p size ≡ ltb (size + 80) b.len
unfolding should_split
should_split-eq size at h k = rw at.size (ground arith)

module _ {S : Type 0} (pool : MemPool S) where
  -- the memory after a split
  abbrev split_mem : ℕ → ℕ → ℕ → Memory
  split_mem p size n =
      init_free_blk (init_free_blk pool.mem p (size + 40)) (p + (size + 40)) (n - (size + 40))

  split_mem_blk-eq :
      {p : ℕ} {b : Block} (size : ℕ)
      → BlockAt pool.mem p b
      → size + 80 < b.len
      → b.len < 2 ^ 64
      → p + b.len ≤ pool.stop
      → split_mem_blk pool p size ≡ some (record pool { mem = split_mem p size b.len })
  unfolding split_mem_blk next_mem_blk
  split_mem_blk-eq {p} {b} size at h k l =
      let n : add64 (add64 header_size size) tail_size ≡ size + 40 = omega arith in
      let first = init_free_blk-BlockAt pool.mem p (size + 40) (omega arith) in
      let m : sub64 b.len (size + 40) ≡ b.len - (size + 40) = omega arith in
      let t : leb pool.stop (p + (size + 40)) ≡ false = ground arith in
      rw (n, first.size, t, at.size, n, m, split_mem_blk, next_mem_blk)

  -- the state that `mark_mem_blk` leaves, for a block `b` at `p` with `bs` behind it
  pub record Marked (p size : ℕ) (b : Block) (fs bs : List Block) (out : Option (MemPool S))
      : Type 0 where
    pub mem : Memory
    pub len : ℕ
    pub rest : List Block
    pub made : out ≡ some (record pool { mem = mem })
    pub front : Front mem pool.start p fs
    pub block : BlockAt mem p (used_block len size)
    pub chain : Chain mem pool.stop (p + len) rest
    pub same : (a : ℕ) → live_from (p + b.len) bs a ≡ live_from (p + len) rest a

  module _ {p : ℕ} {b : Block} {fs bs : List Block} (size : ℕ) (f : Front pool.mem pool.start p fs)
      (at : BlockAt pool.mem p b) (c : Chain pool.mem pool.stop (p + b.len) bs)
      (enough : size + header_size + tail_size ≤ b.len) (unused : b.used ≡ false)
      (small : b.len + 40 < 2 ^ 64) where
    mark_whole : (ltb (size + 80) b.len) ≡ false → Marked p size b fs bs (mark_mem_blk pool p size)
    unfolding mark_mem_blk
    mark_whole t =
        let whole : BlockAt pool.mem p (free_block b.len) = free-BlockAt unused at in
        record {
          mem = mark_stores pool.mem p size;
          len = b.len;
          rest = bs;
          made = rw (should_split-eq size at enough small, t, mark_mem_blk);
          front = Front-same (λ a lo hi. mark_stores-outside pool.mem p size a (inl hi)) f;
          block = mark_stores-BlockAt size whole enough;
          chain =
              Chain-same
                (λ a lo hi. mark_stores-outside pool.mem p size a (inr (omega (arith, at.big)))) c;
          same = λ a. refl;
        }

    split-outside :
        ltb (size + 80) b.len ≡ true
        → (a : ℕ) → (a < p) ⊎ (p + b.len ≤ a)
        → mark_stores (split_mem p size b.len) p size a ≡ pool.mem a
    split-outside t a (inl lo) =
        mark_stores-outside (split_mem p size b.len) p size a (inl lo)
        ∙ init_free_blk-outside _ (p + (size + 40)) (b.len - (size + 40)) a (ground (arith, t))
            (inl (omega arith))
        ∙ init_free_blk-outside pool.mem p (size + 40) a (omega arith) (inl lo)
    split-outside t a (inr hi) =
        mark_stores-outside (split_mem p size b.len) p size a (inr (omega arith))
        ∙ init_free_blk-outside _ (p + (size + 40)) (b.len - (size + 40)) a (ground (arith, t))
            (inr (ground (arith, t)))
        ∙ init_free_blk-outside pool.mem p (size + 40) a (omega arith) (inr (omega arith))

    mark_split : (ltb (size + 80) b.len) ≡ true → Marked p size b fs bs (mark_mem_blk pool p size)
    unfolding mark_mem_blk live_from
    mark_split t =
        let n = size + 40 in
        let q = p + n in
        let wide : header_size + tail_size ≤ b.len - n = ground (arith, t) in
        let least : header_size + tail_size ≤ n = omega arith in
        let one = init_free_blk pool.mem p n in
        let two = init_free_blk one q (b.len - n) in
        let first : BlockAt two p (free_block n) =
          BlockAt-same (λ a lo hi. init_free_blk-outside one q (b.len - n) a wide (inl hi))
            (init_free_blk-BlockAt pool.mem p n least) in
        let second : BlockAt two q (free_block (b.len - n)) =
          init_free_blk-BlockAt one q (b.len - n) wide in
        let outside : (a : ℕ) → (a < p) ⊎ (p + b.len ≤ a) → mark_stores two p size a ≡ pool.mem a =
          λ a o. split-outside t a o in
        record {
          mem = mark_stores two p size;
          len = n;
          rest = free_block (b.len - n) ∷ bs;
          made = rw (
            should_split-eq size at enough small,
            t,
            split_mem_blk-eq size at (ground (arith, t)) (omega arith) (Chain-le c),
            mark_mem_blk,
          );
          front = Front-same (λ a lo hi. outside a (inl hi)) f;
          block = mark_stores-BlockAt size first (omega arith);
          chain =
              one_left
                (BlockAt-same (λ a lo hi. mark_stores-outside two p size a (inr (omega arith)))
                  second)
                (omega (arith, wide)) (Chain-same (λ a lo hi. outside a (inr lo)) c);
          same = λ a. ap (λ x. live_from x bs a) (omega (arith, wide));
        }

  pub mark_mem_blk-Marked :
      {p : ℕ} {b : Block} {fs bs : List Block} (size : ℕ)
      → Front pool.mem pool.start p fs
      → BlockAt pool.mem p b
      → Chain pool.mem pool.stop (p + b.len) bs
      → size + header_size + tail_size ≤ b.len
      → b.used ≡ false
      → b.len + 40 < 2 ^ 64
      → Marked p size b fs bs (mark_mem_blk pool p size)
  mark_mem_blk-Marked {b} size f at c e u s = elim (Bool-cases (ltb (size + 80) b.len)) [
    | inl t ↦ mark_split size f at c e u s t
    | inr t ↦ mark_whole size f at c e u s t
  ]

-- `alloc_mem` writes the length asked for over the rounded one.
pub set_user_len-BlockAt :
    {mem : Memory} {p n s : ℕ} (size : ℕ)
    → BlockAt mem p (used_block n s)
    → size ≤ s
    → BlockAt (store mem (p + 24) size) p (used_block n size)
set_user_len-BlockAt size at h = record {
  magic = ground (arith, at.magic);
  use_at = ground (arith, at.use_at.0, at.use_at.1);
  size = ground (arith, at.size);
  tail = ground (arith, at.tail, at.big);
  big = at.big;
  fits = λ e. omega (arith, at.fits refl);
}
