-- ===== src/Bytes/Tests.antt =====
-- Byte areas and strings, and the theorems at them.
use sysres_os.Base.{ℕ, ◌≡◌, refl, ◌==◌, some, if◌then◌else◌, arith}
use sysres_os.Bytes.{Memory, memmove, strcmp}
use sysres_os.Bytes.Copy.{moved, memmove-moved}
use sysres_os.Bytes.Compare.{IsString, Ordered, strcmp_lem}

-- "ab" at address 0, "aab" at address 8.
abbrev text : Memory
text x =
    if x == 0
    then 97
    else if x == 1
    then 98
    else if x == 8
    then 97
    else if x == 9
    then 97
    else if x == 10
    then 98
    else 0

ab_IsString : IsString text 0 2
ab_IsString = record { chars = λ k h. ground arith; end = refl }

aab_IsString : IsString text 8 3
aab_IsString = record { chars = λ k h. ground arith; end = refl }

memmove-moved_example : memmove 1 0 3 text 2 ≡ moved 1 0 3 text 2
memmove-moved_example = memmove-moved 1 0 3 text 2

strcmp_lem_example : (r : ℕ) × (strcmp 3 0 8 text ≡ some r) × Ordered text 0 0 8 2 3 r
strcmp_lem_example = strcmp_lem text 0 8 2 3 ab_IsString aab_IsString 3 (omega arith)
