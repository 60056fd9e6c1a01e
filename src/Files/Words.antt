-- ===== src/Files/Words.antt =====
-- Big-endian words in a little-endian memory.
use sysres_os.Base.{
  ℕ, ◌+◌, ◌*◌, ◌/◌, ◌%◌, ◌^◌, ◌<◌, ◌≡◌, bit_and, bit_or, u32, arith, and_field, or_above, lt_int,
  if◌then◌else◌,
}
use sysres_os.Bytes.{Memory}
use sysres_os.Proc.Run.{update}

unfoldable pub switch_endianness : ℕ → ℕ
switch_endianness n =
    bit_or
      (bit_or (bit_or (bit_and (n / 2 ^ 24) 0x000000ff) (bit_and (n / 2 ^ 8) 0x0000ff00))
        (bit_and (n * 2 ^ 8 % u32) 0x00ff0000))
      (bit_and (n * 2 ^ 24 % u32) 0xff000000)

-- A `uint32_t` at an address, loaded and stored.
abbrev pub load : Memory → ℕ → ℕ
load m a = m a + m (a + 1) * 2 ^ 8 + m (a + 2) * 2 ^ 16 + m (a + 3) * 2 ^ 24

abbrev pub stored : (address value : ℕ) → Memory → Memory
stored address value m =
    update
      (update (update (update m address (value % 256)) (address + 1) (value / 2 ^ 8 % 256))
        (address + 2) (value / 2 ^ 16 % 256))
      (address + 3) (value / 2 ^ 24 % 256)

unfoldable pub min : ℕ → ℕ → ℕ
min a b = if lt_int b a then b else a

abbrev byte : (k n : ℕ) → ℕ
byte k n = n / 2 ^ (8 * k) % 256

-- The bytes of the word in the opposite order.
pub switch_lem :
    (n : ℕ)
    → n < u32
    → switch_endianness n
      ≡ n % 256 * 2 ^ 24 + n / 2 ^ 8 % 256 * 2 ^ 16 + n / 2 ^ 16 % 256 * 2 ^ 8 + n / 2 ^ 24 % 256
unfolding switch_endianness
switch_lem n small =
    let a = n / 2 ^ 24 % 256 in
    let b = n / 2 ^ 16 % 256 in
    let c = n / 2 ^ 8 % 256 in
    let d = n % 256 in
    let p : bit_and (n / 2 ^ 24) 0x000000ff ≡ a = omega (arith, and_field 8 0 (n / 2 ^ 24)) in
    let q : bit_and (n / 2 ^ 8) 0x0000ff00 ≡ b * 2 ^ 8 = omega (arith, and_field 8 8 (n / 2 ^ 8)) in
    let r : bit_and (n * 2 ^ 8 % u32) 0x00ff0000 ≡ c * 2 ^ 16 =
      omega (arith, and_field 8 16 (n * 2 ^ 8 % u32)) in
    let s : bit_and (n * 2 ^ 24 % u32) 0xff000000 ≡ d * 2 ^ 24 =
      omega (arith, and_field 8 24 (n * 2 ^ 24 % u32)) in
    let x : bit_or a (b * 2 ^ 8) ≡ b * 2 ^ 8 + a = or_above 8 b a (omega arith) in
    let y : bit_or (b * 2 ^ 8 + a) (c * 2 ^ 16) ≡ c * 2 ^ 16 + (b * 2 ^ 8 + a) =
      or_above 16 c (b * 2 ^ 8 + a) (omega arith) in
    let z : bit_or (c * 2 ^ 16 + (b * 2 ^ 8 + a)) (d * 2 ^ 24)
        ≡ d * 2 ^ 24 + (c * 2 ^ 16 + (b * 2 ^ 8 + a)) =
      or_above 24 d (c * 2 ^ 16 + (b * 2 ^ 8 + a)) (omega arith) in
    rw (p, q, r, s, x, y, z) (omega arith)

-- A word read after it is written is the word: the order of the bytes is switched on both ways.
pub switch_endianness-switch_endianness :
    (n : ℕ) → n < u32 → switch_endianness (switch_endianness n) ≡ n
switch_endianness-switch_endianness n small =
    let once = switch_lem n small in
    omega (arith, once, switch_lem (switch_endianness n) (omega (arith, once)))
