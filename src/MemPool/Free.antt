-- ===== src/MemPool/Free.antt =====
-- `free_mem` of mm/mm.c, and what the view of a pool means for memory.
use tout_os.Base.{
  ℕ, ◌+◌, ◌-◌, ◌≤◌, ◌<◌, ◌≡◌, refl, ap, ◌∙◌, sym, subst, ◌⊎◌, inl, inr, true, Option, none, some,
  List, ◌∷◌, ltb, ◌==◌, ◌&&◌, if◌then◌else◌, arith, Bool-cases, sub64,
}
use tout_os.MemPool.{
  Memory, MemPool, Sbrk, header_size, tail_size, store, mem_blk_ok, free_mem_blk, free_mem,
  merge_free_blk, user_len, in_use,
}
use tout_os.MemPool.Blocks.{
  Block, UseAt, free_block, BlockAt, Chain, none_left, one_left, Front, none_before, one_before,
  rev_append, Chain-same, Front-same, live_from, live-zip, live_before-at, live_from-none,
}
use tout_os.MemPool.Merge.{merge_free_blk-Merged, merged, Merged-Chain, Merged-live}
use tout_os.MemPool.Pool.{SbrkLaws, IsPool}

-- the block that a live address belongs to
pub data Owner (mem : Memory) (s q u n : ℕ) (all : List Block) : Type 0 where
  owner :
      {p r : ℕ} {b : Block} {fs bs : List Block}
      → Front mem s p fs
      → BlockAt mem p b
      → r ≡ p + b.len
      → Chain mem q r bs
      → b.used ≡ true
      → u ≡ p + header_size
      → b.user_len ≡ n
      → rev_append fs (b ∷ bs) ≡ all
      → Owner mem s q u n all

-- An address in use belongs to the first block or to a later one.
live_from-cases :
    (p r u n : ℕ) (b : Block) (bs : List Block)
    → r ≡ p + b.len
    → live_from p (b ∷ bs) u ≡ some n
    → ((b.used ≡ true) × (u ≡ p + header_size) × (b.user_len ≡ n)) ⊎ (live_from r bs u ≡ some n)
unfolding live_from
live_from-cases p r u n b bs e h = elim (Bool-cases (b.used && (u == p + header_size))) [
  | inl y ↦ inl (ground (arith, y), ground (arith, y), ground (arith, y, h))
  | inr off ↦ inr (subst (λ x. live_from x bs u ≡ some n) (sym e) (ground (arith, off, h)))
]

live_from-ge :
    {mem : Memory} {q p : ℕ} {bs : List Block} (u n : ℕ)
    → Chain mem q p bs
    → live_from p bs u ≡ some n
    → p + header_size ≤ u
live_from-ge {p} u n c h = elim (Bool-cases (ltb u (p + header_size))) [
  | inl y ↦ absurd (ground (arith, h, live_from-none u c (ground (arith, y))))
  | inr z ↦ ground (arith, z)
]

pub live-Owner :
    {mem : Memory} {s q p : ℕ} {fs bs : List Block} (u n : ℕ)
    → Front mem s p fs
    → Chain mem q p bs
    → live_from p bs u ≡ some n
    → Owner mem s q u n (rev_append fs bs)
unfolding live_from rev_append
live-Owner u n f none_left h = absurd (cc)
live-Owner u n f (one_left {p} {r} {b} {bs} at e c) h = elim (live_from-cases p r u n b bs e h) [
  | inl (y, i, j) ↦ owner f at e c y i j refl
  | inr l ↦ live-Owner u n (one_before f at e) c l
]

-- Two addresses in use have no byte in common, nor a byte with the headers and tails between them.
pub live-disjoint :
    {mem : Memory} {q p : ℕ} {bs : List Block} (u v m n : ℕ)
    → Chain mem q p bs
    → live_from p bs u ≡ some m
    → live_from p bs v ≡ some n
    → u < v
    → u + m + tail_size + header_size ≤ v
unfolding live_from
live-disjoint u v m n none_left h k lt = absurd (cc)
live-disjoint u v m n (one_left {p} {r} {b} {bs} at e c) h k lt =
    elim (live_from-cases p r u m b bs e h) [
      | inl (y, i, j) ↦ elim (live_from-cases p r v n b bs e k) [
        | inl (y', i', j') ↦ absurd (omega arith)
        | inr l' ↦ omega (arith, at.fits y, live_from-ge v n c l')
      ]
      | inr l ↦ elim (live_from-cases p r v n b bs e k) [
        | inl (y', i', j') ↦ absurd (omega (arith, live_from-ge u m c l, at.big))
        | inr l' ↦ live-disjoint u v m n c l l' lt
      ]
    ]

mem_blk_ok-used :
    {mem : Memory} {p : ℕ} {b : Block}
    → b.used ≡ true
    → BlockAt mem p b
    → (mem_blk_ok mem p ≡ true) × (user_len mem p ≡ b.user_len)
unfolding mem_blk_ok
mem_blk_ok-used {mem} {p} {b} u at =
    let w : UseAt mem p true b.user_len = subst (λ x. UseAt mem p x b.user_len) u at.use_at in
    (ground (arith, at.magic, w.0), w.2)

-- the header after `p->in_use = 0`
clear_use-BlockAt :
    {mem : Memory} {p : ℕ} {b : Block}
    → BlockAt mem p b
    → BlockAt (store mem (p + 4) 0) p (free_block b.len)
clear_use-BlockAt at = record {
  magic = ground (arith, at.magic);
  use_at = ground arith;
  size = ground (arith, at.size);
  tail = ground (arith, at.tail, at.big);
  big = at.big;
  fits = λ e. cc;
}

-- the view of the blocks behind `b` is that of `b` and them without the address of `b`
without_block :
    {mem : Memory} {q r u : ℕ} {bs : List Block} (p : ℕ) (b : Block) (x : ℕ)
    → Chain mem q r bs
    → r ≡ p + b.len
    → header_size + tail_size ≤ b.len
    → u ≡ p + header_size
    → live_from (p + b.len) bs x ≡ (if x == u then none else live_from p (b ∷ bs) x)
unfolding live_from
without_block {u} {bs} p b x c e big i = elim (Bool-cases (x == u)) [
  | inl y ↦
      rw y
        (subst (λ z. live_from z bs x ≡ none) e (live_from-none x c (ground (arith, y, i, e, big))))
  | inr z ↦ rw z (ground (arith, z, i))
]

module _ {S : Type 0} {sbrk : Sbrk S} (laws : SbrkLaws sbrk) where
  -- What `free_mem` does at an address in use: it leaves the view, and its length leaves
  -- `total_length`; a second free of the address is refused.
  pub record Freed (pool : MemPool S) (bs : List Block) (u n : ℕ) : Type 0 where
    pub after : MemPool S
    pub blocks : List Block
    pub made : free_mem pool (some u) ≡ some after
    pub valid : IsPool laws after blocks
    pub view :
        (a : ℕ)
        → live_from after.start blocks a ≡ (if a == u then none else live_from pool.start bs a)
    pub total : after.total_length ≡ sub64 pool.total_length n
    pub again : free_mem after (some u) ≡ some after

  -- the pool that `merge_free_blk` is called on
  abbrev unused : MemPool S → ℕ → ℕ → MemPool S
  unused pool p n = record pool {
    mem = store pool.mem (p + 4) 0;
    total_length = sub64 pool.total_length n;
  }

  free_mem-ok :
      (pool : MemPool S) (p n : ℕ) {q : MemPool S}
      → mem_blk_ok pool.mem p ≡ true
      → user_len pool.mem p ≡ n
      → merge_free_blk (unused pool p n) p ≡ some q
      → free_mem pool (some (p + header_size)) ≡ some q
  unfolding free_mem free_mem_blk
  free_mem-ok pool p n i j k =
      let e : p + header_size - header_size ≡ p = omega arith in
      rw (e, i, j, k, free_mem, free_mem_blk)

  free_mem-refuses :
      (pool : MemPool S) (p : ℕ)
      → in_use pool.mem p ≡ 0
      → free_mem pool (some (p + header_size)) ≡ some pool
  unfolding free_mem mem_blk_ok
  free_mem-refuses pool p i =
      let e : p + header_size - header_size ≡ p = omega arith in
      rw (e, free_mem, mem_blk_ok) (ground (arith, i))

  free_from-Owner :
      (pool : MemPool S) (bs : List Block) (u n : ℕ)
      → IsPool laws pool bs
      → Owner pool.mem pool.start pool.stop u n bs
      → Freed pool bs u n
  unfolding live_from
  free_from-Owner pool all u n v (owner {p} {r} {b} {fs} {bs} f at e c used i j whole) =
      let q = unused pool p n in
      let ok = mem_blk_ok-used used at in
      let m =
        merge_free_blk-Merged q (omega (arith, v.above)) (Front-same (λ a lo hi. ground arith) f)
          (clear_use-BlockAt at) refl e (Chain-same (λ a lo hi. ground (arith, at.big)) c) in
      record {
        after = record q { mem = m.mem };
        blocks = merged q m;
        made = rw i (free_mem-ok pool p n ok.0 (ok.1 ∙ j) m.made);
        valid = record {
          chain = Merged-Chain q m;
          above = v.above;
          below = v.below;
          not_empty = v.not_empty;
          sane = v.sane;
          at_break = v.at_break;
        };
        view = λ a.
            Merged-live q m a
            ∙ live_before-at (live_from p (b ∷ bs)) (live_from (p + b.len) bs) none u a f
                (omega arith) (λ x. without_block p b x c e at.big i)
            ∙ ap (λ (y : Option ℕ). if a == u then none else y)
                (sym (live-zip (b ∷ bs) a f) ∙ ap (λ cs. live_from pool.start cs a) whole);
        total = refl;
        again = rw i (free_mem-refuses (record q { mem = m.mem }) p m.cleared);
      }

  -- On a pool `free_mem` at an address in use ends, keeps the invariant, takes exactly that address
  -- out of the view and its length out of `total_length`, and refuses the address from then on.
  pub free_mem-Freed :
      (pool : MemPool S) (bs : List Block) (u n : ℕ)
      → IsPool laws pool bs
      → live_from pool.start bs u ≡ some n
      → Freed pool bs u n
  unfolding rev_append
  free_mem-Freed pool bs u n v h =
      free_from-Owner pool bs u n v (live-Owner u n none_before v.chain h)
