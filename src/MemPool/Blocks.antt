-- ===== src/MemPool/Blocks.antt =====
-- The blocks of a pool of mm/mm.c as a list, and how they lie in memory.
use tout_os.Base.{
  ℕ, ◌+◌, ◌-◌, ◌≤◌, ◌<◌, ◌≡◌, refl, ap, ◌∙◌, subst, inl, inr, Bool, true, false, Option, none, some,
  List, [], ◌∷◌, ◌==◌, ◌&&◌, if◌then◌else◌, arith, Bool-cases,
}
use tout_os.MemPool.{
  Memory, mem_blk_magic, header_size, tail_size, magic_num, in_use, blk_len, user_start, user_len,
}

-- `user_len` is meant only of a block in use.
pub record Block : Type 0 where
  pub len : ℕ
  pub used : Bool
  pub user_len : ℕ

abbrev pub free_block : ℕ → Block
free_block n = record { len = n; used = false; user_len = 0 }

-- what the header at `p` says of the use of the block
abbrev pub UseAt : Memory → ℕ → Bool → ℕ → Type 0
UseAt mem p false n = in_use mem p ≡ 0
UseAt mem p true n =
    (in_use mem p ≡ 1) × (user_start mem p ≡ p + header_size) × (user_len mem p ≡ n)

pub record BlockAt (mem : Memory) (p : ℕ) (b : Block) : Type 0 where
  pub magic : magic_num mem p ≡ mem_blk_magic
  pub use_at : UseAt mem p b.used b.user_len
  pub size : blk_len mem p ≡ b.len
  pub tail : mem (p + b.len - tail_size) ≡ p
  pub big : header_size + tail_size ≤ b.len
  pub fits : b.used ≡ true → b.user_len + header_size + tail_size ≤ b.len

-- the blocks `bs` fill the memory from `p` to `q`
pub data Chain (mem : Memory) (q : ℕ) : ℕ → List Block → Type 0 where
  none_left : Chain mem q q []
  one_left :
      {p r : ℕ} {b : Block} {bs : List Block}
      → BlockAt mem p b
      → r ≡ p + b.len
      → Chain mem q r bs
      → Chain mem q p (b ∷ bs)

-- the same from `p` back to `s`, the nearest block first
pub data Front (mem : Memory) (s : ℕ) : ℕ → List Block → Type 0 where
  none_before : Front mem s s []
  one_before :
      {p q : ℕ} {b : Block} {bs : List Block}
      → Front mem s p bs
      → BlockAt mem p b
      → q ≡ p + b.len
      → Front mem s q (b ∷ bs)

-- two memories agree from `p` up to `q`
abbrev pub SameOn : Memory → Memory → ℕ → ℕ → Type 0
SameOn mem mem' p q = (a : ℕ) → p ≤ a → a < q → mem' a ≡ mem a

pub BlockAt-same :
    {mem mem' : Memory} {p : ℕ} {b : Block}
    → SameOn mem mem' p (p + b.len)
    → BlockAt mem p b
    → BlockAt mem' p b
BlockAt-same {mem} {mem'} {p} {b} same at = record {
  magic = same p (omega arith) (omega (arith, at.big)) ∙ at.magic;
  use_at = use_same b.used b.user_len at.use_at;
  size = same (p + 8) (omega arith) (omega (arith, at.big)) ∙ at.size;
  tail = same (p + b.len - tail_size) (omega (arith, at.big)) (omega (arith, at.big)) ∙ at.tail;
  big = at.big;
  fits = at.fits;
}
  where
    use_same : (u : Bool) (n : ℕ) → UseAt mem p u n → UseAt mem' p u n
    use_same false n h = same (p + 4) (omega arith) (omega (arith, at.big)) ∙ h
    use_same true n h = (
      same (p + 4) (omega arith) (omega (arith, at.big)) ∙ h.0,
      same (p + 16) (omega arith) (omega (arith, at.big)) ∙ h.1,
      same (p + 24) (omega arith) (omega (arith, at.big)) ∙ h.2,
    )

pub Chain-le : {mem : Memory} {q p : ℕ} {bs : List Block} → Chain mem q p bs → p ≤ q
Chain-le none_left = omega arith
Chain-le (one_left at e c) = omega (arith, Chain-le c)

pub Front-le : {mem : Memory} {s p : ℕ} {bs : List Block} → Front mem s p bs → s ≤ p
Front-le none_before = omega arith
Front-le (one_before f at e) = omega (arith, Front-le f)

pub Chain-same :
    {mem mem' : Memory} {q p : ℕ} {bs : List Block}
    → SameOn mem mem' p q
    → Chain mem q p bs
    → Chain mem' q p bs
Chain-same same none_left = none_left
Chain-same same (one_left at e c) =
    one_left (BlockAt-same (λ a lo hi. same a lo (omega (arith, Chain-le c))) at) e
      (Chain-same (λ a lo hi. same a (omega arith) hi) c)

pub Front-same :
    {mem mem' : Memory} {s p : ℕ} {bs : List Block}
    → SameOn mem mem' s p
    → Front mem s p bs
    → Front mem' s p bs
Front-same same none_before = none_before
Front-same same (one_before f at e) =
    one_before (Front-same (λ a lo hi. same a lo (omega arith)) f)
      (BlockAt-same (λ a lo hi. same a (omega (arith, Front-le f)) (omega arith)) at) e

-- The blocks before `p` and those from `p` on make up one chain.
unfoldable pub rev_append : List Block → List Block → List Block
rev_append [] bs = bs
rev_append (b ∷ fs) bs = rev_append fs (b ∷ bs)

pub zip-Chain :
    {mem : Memory} {s p q : ℕ} {fs bs : List Block}
    → Front mem s p fs
    → Chain mem q p bs
    → Chain mem q s (rev_append fs bs)
unfolding rev_append
zip-Chain none_before c = c
zip-Chain (one_before f at e) c = zip-Chain f (one_left at e c)

-- What a client sees: for each address handed out, the length asked for.
abbrev pub Live : Type 0
Live = ℕ → Option ℕ

-- what the block at `p` adds to a view
abbrev pub with_block : ℕ → Block → Live → Live
with_block p b l a = if b.used && (a == p + header_size) then some b.user_len else l a

unfoldable pub live_from : ℕ → List Block → Live
live_from p [] a = none
live_from p (b ∷ bs) a = with_block p b (live_from (p + b.len) bs) a

unfoldable pub live_before : ℕ → List Block → Live → Live
live_before p [] l a = l a
live_before p (b ∷ fs) l a = live_before (p - b.len) fs (with_block (p - b.len) b l) a

pub live-zip :
    {mem : Memory} {s p : ℕ} {fs : List Block} (bs : List Block) (a : ℕ)
    → Front mem s p fs
    → live_from s (rev_append fs bs) a ≡ live_before p fs (live_from p bs) a
unfolding rev_append live_from live_before
live-zip bs a none_before = refl
live-zip bs a (one_before {p} {q} {b} {bs = fs} f at e) =
    let e' : q - b.len ≡ p = omega arith in rw (e', e) (live-zip (b ∷ bs) a f)

pub live_before-congr :
    (p : ℕ) (fs : List Block) (l m : Live) (a : ℕ)
    → l a ≡ m a
    → live_before p fs l a ≡ live_before p fs m a
unfolding live_before
live_before-congr p [] l m a h = h
live_before-congr p (b ∷ fs) l m a h = live_before-congr (p - b.len) fs _ _ a (ground (arith, h))

-- the first block of the list, if any, is in use
abbrev pub HeadUsed : List Block → Type 0
HeadUsed [] = Unit
HeadUsed (b ∷ bs) = b.used ≡ true

-- Blocks further on say nothing of an address below their first user byte, and blocks before `p`
-- nothing of one behind `p`.
pub live_from-none :
    {mem : Memory} {q p : ℕ} {bs : List Block} (a : ℕ)
    → Chain mem q p bs
    → a < p + header_size
    → live_from p bs a ≡ none
unfolding live_from
live_from-none a none_left h = refl
live_from-none {q} a (one_left {p} {r} {b} {bs} at e c) h =
    ground
      (arith, subst (λ x. live_from x bs a ≡ none) e (live_from-none a c (omega (arith, at.big))))

pub live_before-above :
    {mem : Memory} {s p : ℕ} {fs : List Block} (l : Live) (a : ℕ)
    → Front mem s p fs
    → p ≤ a
    → live_before p fs l a ≡ l a
unfolding live_before
live_before-above l a none_before h = refl
live_before-above l a (one_before {p} {q} {b} {bs} f at e) h =
    let e' : q - b.len ≡ p = omega arith in
    ap (λ x. live_before x bs (with_block x b l) a) e'
    ∙ live_before-above (with_block p b l) a f (omega arith)
    ∙ ground (arith, at.big)

-- An address that a view gives to the block at `p` is in no other block.
pub live_before-at :
    {mem : Memory} {s p : ℕ} {fs : List Block} (l m : Live) (n : Option ℕ) (u a : ℕ)
    → Front mem s p fs
    → p ≤ u
    → ((x : ℕ) → m x ≡ (if x == u then n else l x))
    → live_before p fs m a ≡ (if a == u then n else live_before p fs l a)
live_before-at {p} {fs} l m n u a f h same = elim (Bool-cases (a == u)) [
  | inl e ↦ rw e (live_before-above m a f (ground (arith, e)) ∙ rw (same a, e))
  | inr e ↦ rw e (live_before-congr p fs m l a (rw (same a, e)))
]

pub unzip-Front :
    {mem : Memory} {s q p : ℕ} {fs bs : List Block}
    → Front mem s p fs
    → Chain mem q p bs
    → Front mem s q (rev_append bs fs)
unfolding rev_append
unzip-Front f none_left = f
unzip-Front f (one_left at e c) = unzip-Front (one_before f at e) c

pub rev_append-twice : (bs fs : List Block) → rev_append (rev_append bs fs) [] ≡ rev_append fs bs
unfolding rev_append
rev_append-twice [] fs = refl
rev_append-twice (b ∷ bs) fs = rev_append-twice bs (b ∷ fs)

pub Chain-wide :
    {mem : Memory} {q p : ℕ} {bs : List Block}
    → Chain mem q p bs
    → p < q
    → p + header_size + tail_size ≤ q
Chain-wide none_left h = absurd (omega arith)
Chain-wide (one_left at e c) h = omega (arith, at.big, Chain-le c)
