-- ===== src/Strings/Compare.antt =====
-- The comparisons of include/string.h against equality and against each other.
use tout_os.Base.{
  ℕ, zero, suc, ◌+◌, ◌≡◌, ◌↔◌, refl, ap, ◌∙◌, sym, subst, inl, inr, Bool, true, false, true≢false,
  List, [], ◌∷◌, ◌==◌, ltb, if◌then◌else◌, ℤ, pos, negsuc, take, arith, Bool-cases,
}
use tout_os.Strings.{strcmp, strncmp}

-- `strncmp` of two strings is `strcmp` of their first `n` bytes.
pub strncmp-take : (s1 s2 : List ℕ) (n : ℕ) → strncmp s1 s2 n ≡ strcmp (take n s1) (take n s2)
unfolding strncmp strcmp
strncmp-take s1 s2 zero = refl
strncmp-take [] [] (suc n) = refl
strncmp-take [] (y ∷ ys) (suc n) = refl
strncmp-take (x ∷ xs) [] (suc n) = refl
strncmp-take (x ∷ xs) (y ∷ ys) (suc n) = elim (Bool-cases (x == y)) [
  | inl e ↦ rw (e, strncmp, strcmp) (strncmp-take xs ys n)
  | inr z ↦ rw (z, strncmp, strcmp) refl
]

-- the sign of a result, turned round
abbrev pub opposite : ℤ → ℤ
opposite (pos zero) = pos 0
opposite (pos (suc n)) = negsuc n
opposite (negsuc n) = pos (n + 1)

abbrev is_zero : ℤ → Bool
is_zero (pos zero) = true
is_zero (pos (suc n)) = false
is_zero (negsuc n) = false

strcmp-same : (s : List ℕ) → strcmp s s ≡ pos 0
unfolding strcmp
strcmp-same [] = refl
strcmp-same (x ∷ xs) = let y : (x == x) ≡ true = ground arith in rw (y, strcmp) (strcmp-same xs)

strcmp-opposite : (s1 s2 : List ℕ) → strcmp s2 s1 ≡ opposite (strcmp s1 s2)
unfolding strcmp
strcmp-opposite [] [] = refl
strcmp-opposite [] (y ∷ ys) = refl
strcmp-opposite (x ∷ xs) [] = refl
strcmp-opposite (x ∷ xs) (y ∷ ys) = elim (Bool-cases (x == y)) [
  | inl e ↦
      let e' : (y == x) ≡ true = ground (arith, e) in rw (e, e', strcmp) (strcmp-opposite xs ys)
  | inr z ↦
      let z' : (y == x) ≡ false = ground (arith, z) in
      elim (Bool-cases (ltb x y)) [
        | inl lt ↦
            let ge : ltb y x ≡ false = ground (arith, lt) in
            rw (z, z', lt, ge, strcmp, if◌then◌else◌) refl
        | inr ge ↦
            let lt : ltb y x ≡ true = ground (arith, ge, z) in
            rw (z, z', lt, ge, strcmp, if◌then◌else◌) refl
      ]
]

strcmp-equal :
    (x y : ℕ) (xs ys : List ℕ) → (x == y) ≡ true → strcmp (x ∷ xs) (y ∷ ys) ≡ strcmp xs ys
unfolding strcmp
strcmp-equal x y xs ys e = rw (e, strcmp) refl

strcmp-unequal :
    (x y : ℕ) (xs ys : List ℕ) → (x == y) ≡ false → is_zero (strcmp (x ∷ xs) (y ∷ ys)) ≡ false
unfolding strcmp
strcmp-unequal x y xs ys z = elim (Bool-cases (ltb x y)) [
  | inl lt ↦ rw (z, lt, strcmp, if◌then◌else◌) refl
  | inr ge ↦ rw (z, ge, strcmp, if◌then◌else◌) refl
]

strcmp-zero : (s1 s2 : List ℕ) → strcmp s1 s2 ≡ pos 0 → s1 ≡ s2
unfolding strcmp
strcmp-zero [] [] e = refl
strcmp-zero [] (y ∷ ys) e = absurd (true≢false (sym (ap is_zero e)))
strcmp-zero (x ∷ xs) [] e = absurd (true≢false (sym (ap is_zero e)))
strcmp-zero (x ∷ xs) (y ∷ ys) e = elim (Bool-cases (x == y)) [
  | inl same ↦
      let at : x ≡ y = ground (arith, same) in
      let rest : strcmp xs ys ≡ pos 0 = sym (strcmp-equal x y xs ys same) ∙ e in
      ap (λ z. z ∷ xs) at ∙ ap (λ zs. y ∷ zs) (strcmp-zero xs ys rest)
  | inr z ↦ absurd (true≢false (sym (ap is_zero e) ∙ strcmp-unequal x y xs ys z))
]

-- `strcmp` gives 0 exactly for equal strings, and with the strings exchanged the opposite result.
pub strcmp-equality :
    (s1 s2 : List ℕ)
    → ((strcmp s1 s2 ≡ pos 0) ↔ (s1 ≡ s2)) × (strcmp s2 s1 ≡ opposite (strcmp s1 s2))
strcmp-equality s1 s2 = (
  (strcmp-zero s1 s2, λ e. subst (λ s. strcmp s1 s ≡ pos 0) e (strcmp-same s1)),
  strcmp-opposite s1 s2,
)
