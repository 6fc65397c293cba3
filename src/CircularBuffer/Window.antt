-- ===== src/CircularBuffer/Window.antt =====
-- The bytes that a circular buffer holds, and what the two copy loops of lib/circular_buffer.c do
-- to them.
use tout_os.Base.{
  ℕ, zero, suc, ◌+◌, ◌-◌, ◌<◌, ◌≤◌, ◌≡◌, refl, ap, ◌∙◌, ◌≢◌, List, [], ◌∷◌, ◌++◌, length, get_or,
  set, length-set, take, drop, ltb, if◌then◌else◌, arith, append_assoc, append-nil, sym,
  get_or-set_self, get_or-set_ne,
}
use native.Mathlib.Nat.{add-zero, sub-zero}
use tout_os.CircularBuffer.{next, write_loop, read_loop}

-- `n` steps on from offset `h`, for at most one round
abbrev pub advance : ℕ → ℕ → ℕ → ℕ
advance size h n = if ltb (h + n) size then h + n else h + n - size

pub next-lt : (size h : ℕ) → h < size → next size h < size
next-lt size h p = ground arith

pub advance-lt : (size h n : ℕ) → h < size → n ≤ size → advance size h n < size
advance-lt size h n p q = ground arith

pub advance-next :
    (size h n : ℕ) → h < size → n < size → advance size (next size h) n ≡ advance size h (n + 1)
advance-next size h n p q = ground arith

pub next-advance :
    (size h n : ℕ) → h < size → n < size → next size (advance size h n) ≡ advance size h (n + 1)
next-advance size h n p q = ground arith

pub advance-zero : (size h : ℕ) → h < size → advance size h 0 ≡ h
advance-zero size h p = ground arith

advance-ne : (size h m : ℕ) → h < size → 0 < m → m < size → advance size h m ≢ h
advance-ne size h m p q r = ground arith

module _ (size : ℕ) where
  -- the `n` bytes from offset `h` on
  abbrev pub window : List ℕ → ℕ → ℕ → List ℕ
  window buffer h zero = []
  window buffer h (suc n) = get_or buffer h 0 ∷ window buffer (next size h) n

  pub length-window : (buffer : List ℕ) (h n : ℕ) → length (window buffer h n) ≡ n
  length-window buffer h zero = refl
  length-window buffer h (suc n) = ap suc (length-window buffer (next size h) n)

  -- A write behind the window leaves it as it is.
  pub window-set :
      (buffer : List ℕ) (v h n m : ℕ)
      → h < size
      → n ≤ m
      → m < size
      → window (set buffer (advance size h m) v) h n ≡ window buffer h n
  window-set buffer v h zero m p q r = refl
  window-set buffer v h (suc n) m p q r =
      let e : advance size (next size h) (m - 1) ≡ advance size h m = ground arith in
      ground (
        arith,
        get_or-set_ne buffer (advance size h m) h v 0 (advance-ne size h m p (omega arith) r),
        rw e at (
            window-set buffer v (next size h) n (m - 1) (next-lt size h p) (omega arith)
              (omega arith)),
      )

  pub window-suc :
      (buffer : List ℕ) (h n : ℕ)
      → h < size
      → n < size
      → window buffer h (suc n) ≡ window buffer h n ++ (get_or buffer (advance size h n) 0 ∷ [])
  window-suc buffer h zero p q = rw (advance-zero size h p)
  window-suc buffer h (suc n) p q =
      let e : advance size (next size h) n ≡ advance size h (suc n) = ground arith in
      ap (λ l. get_or buffer h 0 ∷ l)
        (rw e at (window-suc buffer (next size h) n (next-lt size h p) (omega arith)))

  -- A write just behind the window adds that byte to it.
  pub window-push :
      (buffer : List ℕ) (v h n : ℕ)
      → h < size
      → size ≤ length buffer
      → n < size
      → window (set buffer (advance size h n) v) h (suc n) ≡ window buffer h n ++ (v ∷ [])
  window-push buffer v h n p q r = rw (
    window-suc (set buffer (advance size h n) v) h n p r,
    window-set buffer v h n n p (omega arith) r,
    get_or-set_self buffer (advance size h n) v 0 (ground arith),
  )

  -- what the copy loop of a write has done, begun behind a window of `n` bytes
  pub record Wrote (buffer cs : List ℕ) (h n : ℕ) (out : List ℕ × ℕ) : Type 0 where
    pub bytes : window out.0 h (n + length cs) ≡ window buffer h n ++ cs
    pub wp : out.1 ≡ advance size h (n + length cs)
    pub room : length out.0 ≡ length buffer

  Wrote-cons :
      (cs buffer : List ℕ) (h n c : ℕ)
      → h < size
      → size ≤ length buffer
      → n < size
      → {out : List ℕ × ℕ} → Wrote (set buffer (advance size h n) c) cs h (suc n) out
      → Wrote buffer (c ∷ cs) h n out
  Wrote-cons cs buffer h n c p q r {out} w =
      let e : suc n + length cs ≡ n + suc (length cs) = omega arith in
      record {
        bytes =
            ap (λ k. window out.0 h k) (sym e)
            ∙ w.bytes
            ∙ ap (λ l. l ++ cs) (window-push buffer c h n p q r)
            ∙ rw append_assoc;
        wp = ground (arith, w.wp);
        room = w.room ∙ length-set buffer (advance size h n) c;
      }

  pub write_loop-Wrote :
      (cs buffer : List ℕ) (h n : ℕ)
      → h < size
      → size ≤ length buffer
      → n + length cs < size
      → Wrote buffer cs h n (write_loop size cs buffer (advance size h n))
  unfolding write_loop
  write_loop-Wrote [] buffer h n p q r = record {
    bytes = rw (append-nil, add-zero);
    wp = rw add-zero;
    room = refl;
  }
  write_loop-Wrote (c ∷ cs) buffer h n p q r =
      let b = set buffer (advance size h n) c in
      let same = length-set buffer (advance size h n) c in
      let e : next size (advance size h n) ≡ advance size h (suc n) = ground arith in
      rw e (
        Wrote-cons cs buffer h n c p q (omega arith)
          (write_loop-Wrote cs b h (suc n) p (omega arith) (omega arith)))

  -- The copy loop of a read returns the window and stops behind it.
  pub read_loop-window :
      (buffer : List ℕ) (h n : ℕ)
      → h < size
      → n < size
      → read_loop size buffer n h ≡ (window buffer h n, advance size h n)
  unfolding read_loop
  read_loop-window buffer h zero p q = rw (advance-zero size h p)
  read_loop-window buffer h (suc n) p q =
      let e : advance size (next size h) n ≡ advance size h (suc n) = ground arith in
      rw (read_loop-window buffer (next size h) n (next-lt size h p) (omega arith), e)

  pub take-window :
      (buffer : List ℕ) (h k n : ℕ) → k ≤ n → take k (window buffer h n) ≡ window buffer h k
  take-window buffer h zero n q = refl
  take-window buffer h (suc k) zero q = absurd (omega arith)
  take-window buffer h (suc k) (suc n) q =
      ap (λ l. get_or buffer h 0 ∷ l) (take-window buffer (next size h) k n (omega arith))

  pub drop-window :
      (buffer : List ℕ) (h k n : ℕ)
      → h < size
      → n < size
      → k ≤ n
      → drop k (window buffer h n) ≡ window buffer (advance size h k) (n - k)
  drop-window buffer h zero n p r q = rw (advance-zero size h p, sub-zero)
  drop-window buffer h (suc k) zero p r q = absurd (omega arith)
  drop-window buffer h (suc k) (suc n) p r q =
      let e : advance size (next size h) k ≡ advance size h (suc k) = ground arith in
      let d : n - k ≡ suc n - suc k = omega arith in
      rw (drop-window buffer (next size h) k n (next-lt size h p) (omega arith) (omega arith), e, d)
