-- ===== src/MemPool/Search.antt =====
-- The first-fit search of `find_a_free_blk` of mm/mm.c through the blocks of a pool.
use tout_os.Base.{
  ℕ, zero, suc, ◌+◌, ◌≤◌, ◌<◌, ◌^◌, ◌≡◌, refl, inl, inr, Bool, true, false, Option, none, some,
  List, [], ◌∷◌, leb, ◌&&◌, if◌then◌else◌, arith, Bool-cases,
}
use tout_os.MemPool.{Memory, MemPool, header_size, tail_size, big_mem_blk, is_blk_free, find_loop}
use tout_os.MemPool.Blocks.{
  Block, BlockAt, Chain, none_left, one_left, Front, one_before, rev_append, Chain-le,
}
use tout_os.MemPool.Merge.{is_blk_free-eq, next_mem_blk-some, next_mem_blk-none}

-- a block that can take `size` bytes
abbrev pub Fits : ℕ → Block → Type 0
Fits size b = (b.used ≡ false) × (size + header_size + tail_size ≤ b.len)

-- no block of the list can
abbrev pub NoneFits : ℕ → List Block → Type 0
NoneFits size [] = Unit
NoneFits size (b ∷ bs) = (Fits size b → ⊥) × NoneFits size bs

pub big_mem_blk-eq :
    {mem : Memory} {p : ℕ} {b : Block} (size : ℕ)
    → BlockAt mem p b
    → b.len < 2 ^ 64
    → big_mem_blk mem p size ≡ leb (size + header_size + tail_size) b.len
unfolding big_mem_blk
big_mem_blk-eq size at h = rw at.size (ground (arith, at.big))

-- the test of the search
abbrev fits_test : ℕ → Block → Bool
fits_test size b = if b.used then false else leb (size + header_size + tail_size) b.len

test-eq :
    {mem : Memory} {p : ℕ} {b : Block} (size : ℕ)
    → BlockAt mem p b
    → b.len < 2 ^ 64
    → (is_blk_free mem p && big_mem_blk mem p size) ≡ fits_test size b
test-eq {b} size at h = elim (Bool-cases b.used) [
  | inl u ↦ rw (is_blk_free-eq true u at, u)
  | inr u ↦ rw (is_blk_free-eq false u at, u, big_mem_blk-eq size at h)
]

unfit : (size : ℕ) (b : Block) → fits_test size b ≡ false → Fits size b → ⊥
unfit size b h f = ground (arith, f.0, f.1)

NoneFits-zip :
    (size : ℕ) (fs bs : List Block)
    → NoneFits size fs
    → NoneFits size bs
    → NoneFits size (rev_append fs bs)
unfolding rev_append
NoneFits-zip size [] bs h k = k
NoneFits-zip size (b ∷ fs) bs h k = NoneFits-zip size fs (b ∷ bs) h.1 (h.0, k)

module _ {S : Type 0} (pool : MemPool S) where
  -- what the search through `all` finds: the first block that fits, or none
  pub data Found (size : ℕ) (all : List Block) : Option (Option ℕ) → Type 0 where
    hit :
        {p r : ℕ} {b : Block} {fs bs : List Block}
        → Front pool.mem pool.start p fs
        → BlockAt pool.mem p b
        → r ≡ p + b.len
        → Chain pool.mem pool.stop r bs
        → Fits size b
        → NoneFits size fs
        → rev_append fs (b ∷ bs) ≡ all
        → Found size all (some (some p))
    miss : NoneFits size all → Found size all (some none)

  find_loop-none : (k size : ℕ) → 0 < k → find_loop k pool size none ≡ some none
  unfolding find_loop
  find_loop-none zero size h = absurd (omega arith)
  find_loop-none (suc k) size h = refl

  pub find_loop-Found :
      (k size : ℕ) {p r : ℕ} {b : Block} {fs bs : List Block}
      → Front pool.mem pool.start p fs
      → BlockAt pool.mem p b
      → r ≡ p + b.len
      → Chain pool.mem pool.stop r bs
      → NoneFits size fs
      → pool.stop < p + k
      → pool.stop < 2 ^ 64
      → Found size (rev_append fs (b ∷ bs)) (find_loop k pool size (some p))
  unfolding find_loop rev_append
  find_loop-Found zero size f at e c nf lt w = absurd (omega (arith, Chain-le c))
  find_loop-Found (suc k) size {p} {r} {b} {fs} f at e none_left nf lt w =
      let small : b.len < 2 ^ 64 = omega arith in
      elim (Bool-cases (fits_test size b)) [
        | inl y ↦
            rw (test-eq size at small, y, find_loop)
              (hit f at e none_left (ground (arith, y)) nf refl)
        | inr n ↦
            rw (test-eq size at small, n, find_loop)
              (rw (next_mem_blk-none pool at e) (
                rw (find_loop-none k size (omega (arith, at.big)))
                  (miss (NoneFits-zip size fs (b ∷ []) nf (unfit size b n, tt)))))
      ]
  find_loop-Found (suc k) size {p} {r} {b} {fs} f at e (one_left at' e' c) nf lt w =
      let small : b.len < 2 ^ 64 = omega (arith, Chain-le c) in
      elim (Bool-cases (fits_test size b)) [
        | inl y ↦
            rw (test-eq size at small, y, find_loop)
              (hit f at e (one_left at' e' c) (ground (arith, y)) nf refl)
        | inr n ↦
            rw (test-eq size at small, n, find_loop)
              (rw (next_mem_blk-some pool at e (omega (arith, at'.big, Chain-le c))) (
                find_loop-Found k size (one_before f at e) at' e' c (unfit size b n, nf)
                  (omega (arith, at.big)) w))
      ]
