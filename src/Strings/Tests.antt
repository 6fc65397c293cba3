-- ===== src/Strings/Tests.antt =====
-- Runs of the string functions of include/string.h, and their theorems at concrete inputs.
use tout_os.Base.{ℕ, List, [], ◌∷◌, ◌≡◌, refl, some, take}
use tout_os.Strings.{strchr, strchr_loop, strcmp, strncmp, strncpy, copy_loop, pad_loop}
use tout_os.Strings.Compare.{strncmp-take}

abbrev tick_name : List ℕ
tick_name = 116 ∷ 105 ∷ 99 ∷ 107 ∷ []

abbrev time_name : List ℕ
time_name = 116 ∷ 105 ∷ 109 ∷ 101 ∷ []

find_c : strchr (some tick_name) 99 ≡ some 2
unfolding strchr strchr_loop
find_c = refl

padded : strncpy (9 ∷ 9 ∷ 9 ∷ 9 ∷ []) (7 ∷ []) 3 ≡ 7 ∷ 0 ∷ 0 ∷ 9 ∷ []
unfolding strncpy copy_loop pad_loop
padded = refl

strncmp-take_example : strncmp tick_name time_name 2 ≡ strcmp (take 2 tick_name) (take 2 time_name)
strncmp-take_example = strncmp-take tick_name time_name 2
