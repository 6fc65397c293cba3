-- ===== src/MemPool/User.antt =====
-- What a client of mm/mm.c may write.
use tout_os.Base.{
  ℕ, ◌+◌, ◌-◌, ◌≤◌, ◌<◌, ◌≡◌, ◌∙◌, sym, subst, ◌⊎◌, inl, inr, Bool, true, false, some, List, arith,
}
use tout_os.MemPool.{Memory, MemPool, Sbrk, header_size, tail_size}
use tout_os.MemPool.Blocks.{
  Block, UseAt, BlockAt, Chain, one_left, none_before, rev_append, Chain-same, Front-same,
  live_from, zip-Chain,
}
use tout_os.MemPool.Free.{Owner, owner, live-Owner}
use tout_os.MemPool.Pool.{SbrkLaws, IsPool}

-- `mem'` differs from `mem` at most on the `n` bytes from `u` on
abbrev pub WritesOnly : Memory → Memory → ℕ → ℕ → Type 0
WritesOnly mem mem' u n = (a : ℕ) → (a < u) ⊎ (u + n ≤ a) → mem' a ≡ mem a

write-BlockAt :
    {mem mem' : Memory} {p u : ℕ} {b : Block}
    → BlockAt mem p b
    → b.used ≡ true
    → u ≡ p + header_size
    → WritesOnly mem mem' u b.user_len
    → BlockAt mem' p b
write-BlockAt {mem} {mem'} {p} {u} {b} at used i same = record {
  magic = same p (inl (omega arith)) ∙ at.magic;
  use_at = same_use b.used b.user_len (λ a lo. same a (inl (omega arith))) at.use_at;
  size = same (p + 8) (inl (omega arith)) ∙ at.size;
  tail = same (p + b.len - tail_size) (inr (omega (arith, at.fits used))) ∙ at.tail;
  big = at.big;
  fits = at.fits;
}
  where
    same_use :
        (x : Bool) (n : ℕ)
        → ((a : ℕ) → a < p + header_size → mem' a ≡ mem a)
        → UseAt mem p x n
        → UseAt mem' p x n
    same_use false n e h = e (p + 4) (omega arith) ∙ h
    same_use true n e h = (
      e (p + 4) (omega arith) ∙ h.0,
      e (p + 16) (omega arith) ∙ h.1,
      e (p + 24) (omega arith) ∙ h.2,
    )

write-Chain :
    {mem mem' : Memory} {s q u n : ℕ} {bs : List Block}
    → Owner mem s q u n bs
    → WritesOnly mem mem' u n
    → Chain mem' q s bs
write-Chain {mem} {mem'} {s} {q} {u} {n} (owner {p} {r} {b} {fs} {bs} f at e c used i j whole)
      same =
    subst (Chain mem' q s) whole (
      zip-Chain (Front-same (λ a lo hi. same a (inl (omega arith))) f) (
        one_left (write-BlockAt at used i (subst (λ x. WritesOnly mem mem' u x) (sym j) same)) e
          (Chain-same (λ a lo hi. same a (inr (omega (arith, at.fits used)))) c)))

module _ {S : Type 0} {sbrk : Sbrk S} (laws : SbrkLaws sbrk) where
  -- Whatever a client writes to the bytes of an address in use, the pool stays one with the same
  -- blocks.
  pub user_write-IsPool :
      (pool : MemPool S) (bs : List Block) (mem' : Memory) (u n : ℕ)
      → IsPool laws pool bs
      → live_from pool.start bs u ≡ some n
      → WritesOnly pool.mem mem' u n
      → IsPool laws (record pool { mem = mem' }) bs
  unfolding rev_append
  user_write-IsPool pool bs mem' u n v h same = record {
    chain = write-Chain (live-Owner u n none_before v.chain h) same;
    above = v.above;
    below = v.below;
    not_empty = v.not_empty;
    sane = v.sane;
    at_break = v.at_break;
  }
