-- ===== src/Bytes/Copy.antt =====
-- `memmove`, `memcpy` and `memset`.
use sysres_os.Base.{
  ℕ, zero, suc, ◌+◌, ◌-◌, ◌%◌, ◌≤◌, ◌≡◌, ◌&&◌, ltb, leb, if◌then◌else◌, arith, inl, ◌⊎◌,
}
use sysres_os.Proc.Run.{update}
use sysres_os.Bytes.{Memory, copy_up, copy_down, memcpy, memmove, fill, memset}

-- Memory in which the bytes from `dst` on are those that `m` has from `src` on.
abbrev pub moved : (dst src size : ℕ) → Memory → Memory
moved dst src size m x = if leb dst x && ltb x (dst + size) then m (src + (x - dst)) else m x

copy_up_lem :
    (rounds i dst src : ℕ) (m : Memory)
    → (dst ≤ src) ⊎ (src + i + rounds ≤ dst + i)
    → (x : ℕ)
    → copy_up rounds i dst src m x
      ≡ (if leb (dst + i) x && ltb x (dst + i + rounds) then m (src + (x - dst)) else m x)
unfolding copy_up
copy_up_lem zero i dst src m apart x = ground arith
copy_up_lem (suc rounds) i dst src m apart x =
    ground (
      arith,
      copy_up_lem rounds (i + 1) dst src (update m (dst + i) (m (src + i))) (ground arith) x,
    )

copy_down_lem :
    (size dst src : ℕ) (m : Memory)
    → src ≤ dst
    → (x : ℕ) → copy_down size dst src m x ≡ moved dst src size m x
unfolding copy_down
copy_down_lem zero dst src m below x = ground arith
copy_down_lem (suc i) dst src m below x =
    ground (arith, copy_down_lem i dst src (update m (dst + i) (m (src + i))) below x)

-- `memmove` copies the bytes that the source had before the call, also where the two areas overlap,
-- and changes no other byte.
pub memmove-moved :
    (dst src size : ℕ) (m : Memory) (x : ℕ) → memmove dst src size m x ≡ moved dst src size m x
unfolding memmove
memmove-moved dst src size m x = ground (
  arith,
  (λ (h : dst ≤ src). copy_up_lem size 0 dst src m (inl h) x),
  (λ (h : src ≤ dst). copy_down_lem size dst src m h x),
)

-- `memcpy` copies the bytes of the source and changes no other byte, if the destination does not begin
-- inside the source.
pub memcpy-moved :
    (dst src size : ℕ) (m : Memory)
    → (dst ≤ src) ⊎ (src + size ≤ dst)
    → (x : ℕ) → memcpy dst src size m x ≡ moved dst src size m x
unfolding memcpy
memcpy-moved dst src size m apart x = ground (arith, copy_up_lem size 0 dst src m (ground arith) x)

fill_lem :
    (rounds i dst v : ℕ) (m : Memory) (x : ℕ)
    → fill rounds i dst v m x
      ≡ (if leb (dst + i) x && ltb x (dst + i + rounds) then v % 256 else m x)
unfolding fill
fill_lem zero i dst v m x = ground arith
fill_lem (suc rounds) i dst v m x =
    ground (arith, fill_lem rounds (i + 1) dst v (update m (dst + i) (v % 256)) x)

-- `memset` writes the low byte of the value to each of `size` bytes, and to no other.
pub memset_lem :
    (dst v size : ℕ) (m : Memory) (x : ℕ)
    → memset dst v size m x ≡ (if leb dst x && ltb x (dst + size) then v % 256 else m x)
unfolding memset
memset_lem dst v size m x = ground (arith, fill_lem size 0 dst v m x)
