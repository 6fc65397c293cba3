-- ===== src/Strings.antt =====
-- The string functions of include/string.h. A string is the list of its bytes before the NUL, and
-- char is unsigned, as it is on ARM. The lengths are below 2 ^ 31, as strlen and strchr count in an int.
pub mod Compare
mod Tests
use tout_os.Base.{
  ℕ, zero, suc, ◌+◌, Bool, true, false, Option, none, some, List, [], ◌∷◌, ◌==◌, ltb, if◌then◌else◌,
  ℤ, pos, negsuc, minus_one, set,
}

-- the loop of `strchr` at index `i`
unfoldable pub strchr_loop : List ℕ → ℕ → ℕ → Option ℕ
strchr_loop [] c i = none
strchr_loop (x ∷ xs) c i = elim (x == c) [ true ↦ some i | false ↦ strchr_loop xs c (i + 1) ]

-- the index, or `none` for NULL; the argument is `none` for NULL
unfoldable pub strchr : Option (List ℕ) → ℕ → Option ℕ
strchr none c = none
strchr (some s) c = strchr_loop s c 0

unfoldable pub strcmp : List ℕ → List ℕ → ℤ
strcmp [] [] = pos 0
strcmp [] (y ∷ ys) = minus_one
strcmp (x ∷ xs) [] = pos 1
strcmp (x ∷ xs) (y ∷ ys) = elim (x == y) [
  | true ↦ strcmp xs ys
  | false ↦ if ltb x y then minus_one else pos 1
]

unfoldable pub strncmp : List ℕ → List ℕ → ℕ → ℤ
strncmp s1 s2 zero = pos 0
strncmp [] [] (suc n) = pos 0
strncmp [] (y ∷ ys) (suc n) = minus_one
strncmp (x ∷ xs) [] (suc n) = pos 1
strncmp (x ∷ xs) (y ∷ ys) (suc n) = elim (x == y) [
  | true ↦ strncmp xs ys n
  | false ↦ if ltb x y then minus_one else pos 1
]

-- the loop of `strlen` at index `i`
unfoldable pub strlen_loop : List ℕ → ℕ → ℕ
strlen_loop [] i = i
strlen_loop (x ∷ xs) i = strlen_loop xs (i + 1)

unfoldable pub strlen : List ℕ → ℕ
strlen s = strlen_loop s 0

-- The loop of `strcpy` at index `i`, into the bytes `dest`, with the NUL at the end.
unfoldable pub strcpy_loop : List ℕ → List ℕ → ℕ → List ℕ
strcpy_loop dest [] i = set dest i 0
strcpy_loop dest (x ∷ xs) i = strcpy_loop (set dest i x) xs (i + 1)

unfoldable pub strcpy : List ℕ → List ℕ → List ℕ
strcpy dest src = strcpy_loop dest src 0

-- The two loops of `strncpy` at index `i`, with `k` bytes left.
unfoldable pub pad_loop : List ℕ → ℕ → ℕ → List ℕ
pad_loop dest i zero = dest
pad_loop dest i (suc k) = pad_loop (set dest i 0) (i + 1) k

unfoldable pub copy_loop : List ℕ → List ℕ → ℕ → ℕ → List ℕ
copy_loop dest src i zero = dest
copy_loop dest [] i (suc k) = pad_loop dest i (suc k)
copy_loop dest (x ∷ xs) i (suc k) = copy_loop (set dest i x) xs (i + 1) k

unfoldable pub strncpy : List ℕ → List ℕ → ℕ → List ℕ
strncpy dest src n = copy_loop dest src 0 n
