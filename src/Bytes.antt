-- ===== src/Bytes.antt =====
-- src/libk/string.c over a memory of bytes. A pointer is an address that does not wrap around inside
-- the object it points into. A loop that ends at a NUL has fuel, and `none` is a loop out of fuel.
pub mod Copy
pub mod Compare
mod Tests
use sysres_os.Base.{
  ℕ, zero, suc, ◌+◌, ◌%◌, Bool, true, false, not, ◌&&◌, ltb, ◌==◌, if◌then◌else◌, Option, none,
  some, minus_one32,
}
use sysres_os.Proc.Run.{update}

-- The byte at each address.
abbrev pub Memory : Type 0
Memory = ℕ → ℕ

-- `for (size_t i=0; i<size; i++) dst[i] = src[i];` from index `i` on.
unfoldable pub copy_up : (rounds i dst src : ℕ) → Memory → Memory
copy_up zero i dst src m = m
copy_up (suc rounds) i dst src m = copy_up rounds (i + 1) dst src (update m (dst + i) (m (src + i)))

-- `for (size_t i=size; i--;) dst[i] = src[i];`
unfoldable pub copy_down : (size dst src : ℕ) → Memory → Memory
copy_down zero dst src m = m
copy_down (suc i) dst src m = copy_down i dst src (update m (dst + i) (m (src + i)))

unfoldable pub memcpy : (dst src size : ℕ) → Memory → Memory
memcpy dst src size m = copy_up size 0 dst src m

unfoldable pub memmove : (dst src size : ℕ) → Memory → Memory
memmove dst src size m = if ltb dst src then copy_up size 0 dst src m else copy_down size dst src m

unfoldable pub fill : (rounds i dst v : ℕ) → Memory → Memory
fill zero i dst v m = m
fill (suc rounds) i dst v m = fill rounds (i + 1) dst v (update m (dst + i) (v % 256))

unfoldable pub memset : (dst v size : ℕ) → Memory → Memory
memset dst v size m = fill size 0 dst v m

-- What a comparison returns for two bytes that differ.
abbrev pub sign : ℕ → ℕ → ℕ
sign a b = if ltb a b then minus_one32 else 1

unfoldable pub compare_from : (rounds i a b : ℕ) → Memory → ℕ
compare_from zero i a b m = 0
compare_from (suc rounds) i a b m =
    let rest = compare_from rounds (i + 1) a b m in
    if not (m (a + i) == m (b + i)) then sign (m (a + i)) (m (b + i)) else rest

unfoldable pub memcmp : (a b size : ℕ) → Memory → ℕ
memcmp a b size m = compare_from size 0 a b m

unfoldable pub length_from : (fuel len str : ℕ) → Memory → Option ℕ
length_from zero len str m = none
length_from (suc fuel) len str m =
    let rest = length_from fuel (len + 1) str m in
    if not (m (str + len) == 0) then rest else some len

unfoldable pub strlen : (fuel str : ℕ) → Memory → Option ℕ
strlen fuel str m = length_from fuel 0 str m

unfoldable pub strcmp_from : (fuel i str1 str2 : ℕ) → Memory → Option ℕ
strcmp_from zero i str1 str2 m = none
strcmp_from (suc fuel) i str1 str2 m =
    let rest = strcmp_from fuel (i + 1) str1 str2 m in
    let a = m (str1 + i) in
    let b = m (str2 + i) in
    if not (a == 0) && not (b == 0)
    then (if not (a == b) then some (sign a b) else rest)
    else if not (a == b)
    then some (if a == 0 then minus_one32 else 1)
    else some 0

unfoldable pub strcmp : (fuel str1 str2 : ℕ) → Memory → Option ℕ
strcmp fuel str1 str2 m = strcmp_from fuel 0 str1 str2 m
