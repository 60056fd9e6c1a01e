-- ===== src/Base/Bits.antt =====
-- Bit operations on native numbers: a mask of consecutive ones, and fields that do not overlap.
use Prim.Native.Nat.{
  ℕ, zero, suc, ◌+◌, ◌-◌, ◌*◌, ◌/◌, ◌%◌, ◌^◌, ◌≤◌, ◌<◌, min, max, digits, bit_and, bit_or,
  bit_and-bitwise, bit_or-bitwise,
}
use mathlib.Core.Path.{◌≡◌, refl, sym, ◌∙◌, ap}
use native.Mathlib.Omega.{arith, div_any, pow_step}
use native.Mathlib.Nat.{mod-lt}

-- The lowest digit apart, for any operation on digits.
module _ (z : ℕ → ℕ) (f : ℕ → ℕ → ℕ) where
  more_digits : (n m a b : ℕ) → a ≤ n → a ≤ m → digits z f n a b ≡ digits z f m a b
  more_digits n zero zero b h k = start n
    where
      start : (n : ℕ) → digits z f n zero b ≡ z b
      start zero = refl
      start (suc n) = refl
  more_digits zero (suc m) zero b h k = refl
  more_digits (suc n) (suc m) zero b h k = refl
  more_digits zero m (suc a) b h k = absurd (omega arith)
  more_digits (suc n) zero (suc a) b h k = absurd (omega arith)
  more_digits (suc n) (suc m) (suc a) b h k =
      ap (λ (x : ℕ). x * 2 + f (suc a % 2) (b % 2))
        (more_digits n m (suc a / 2) (b / 2) (omega arith) (omega arith))

  lowest_digit :
      (a b : ℕ)
      → z b ≡ z (b / 2) * 2 + f 0 (b % 2)
      → digits z f a a b ≡ digits z f (a / 2) (a / 2) (b / 2) * 2 + f (a % 2) (b % 2)
  lowest_digit zero b h = h
  lowest_digit (suc a) b h =
      ap (λ (x : ℕ). x * 2 + f (suc a % 2) (b % 2))
        (more_digits a (suc a / 2) (suc a / 2) (b / 2) (omega arith) (omega arith))

and_step : (a b : ℕ) → bit_and a b ≡ bit_and (a / 2) (b / 2) * 2 + min (a % 2) (b % 2)
and_step a b = omega (
  arith,
  bit_and-bitwise a b,
  bit_and-bitwise (a / 2) (b / 2),
  lowest_digit (λ x. 0) min a b (omega arith),
)

pub or_step : (a b : ℕ) → bit_or a b ≡ bit_or (a / 2) (b / 2) * 2 + max (a % 2) (b % 2)
or_step a b = omega (
  arith,
  bit_or-bitwise a b,
  bit_or-bitwise (a / 2) (b / 2),
  lowest_digit (λ x. x) max a b (omega arith),
)

zero_or : (b : ℕ) → bit_or 0 b ≡ b
zero_or b = bit_or-bitwise 0 b

zero_and : (b : ℕ) → bit_and 0 b ≡ 0
zero_and b = bit_and-bitwise 0 b

or_zero_below : (n a : ℕ) → a ≤ n → bit_or a 0 ≡ a
or_zero_below n zero h = refl
or_zero_below zero (suc a) h = absurd (omega arith)
or_zero_below (suc n) (suc a) h =
    omega (arith, or_step (suc a) 0, or_zero_below n (suc a / 2) (omega arith))

and_zero_below : (n a : ℕ) → a ≤ n → bit_and a 0 ≡ 0
and_zero_below n zero h = refl
and_zero_below zero (suc a) h = absurd (omega arith)
and_zero_below (suc n) (suc a) h =
    omega (arith, and_step (suc a) 0, and_zero_below n (suc a / 2) (omega arith))

times_two : (a p : ℕ) → a * (2 * p) ≡ a * p * 2
times_two a p = grind arith

double : (a k : ℕ) → a * 2 ^ suc k ≡ a * 2 ^ k * 2
double a k = rw (pow_step 2 k) (times_two a (2 ^ k))

pub power_pos : (k : ℕ) → 0 < 2 ^ k
power_pos zero = omega arith
power_pos (suc k) = omega (arith, pow_step 2 k, power_pos k)

-- An or of two numbers that are split at the same digit.
pub or_split :
    (k a b c d : ℕ)
    → b < 2 ^ k
    → d < 2 ^ k
    → bit_or (a * 2 ^ k + b) (c * 2 ^ k + d) ≡ bit_or a c * 2 ^ k + bit_or b d
or_split zero a b c d h g =
    let e : a * 2 ^ zero + b ≡ a = omega arith in
    let f : c * 2 ^ zero + d ≡ c = omega arith in
    let z : b ≡ 0 = omega arith in
    let y : d ≡ 0 = omega arith in
    omega (
      arith,
      ap (λ (v : ℕ). bit_or v (c * 2 ^ zero + d)) e,
      ap (λ (v : ℕ). bit_or a v) f,
      ap (λ (v : ℕ). bit_or v d) z,
      zero_or d,
    )
or_split (suc k) a b c d h g =
    let two : 2 ^ suc k ≡ 2 * 2 ^ k = pow_step 2 k in
    let e : a * 2 ^ suc k ≡ a * 2 ^ k * 2 = double a k in
    let f : c * 2 ^ suc k ≡ c * 2 ^ k * 2 = double c k in
    let r : bit_or a c * 2 ^ suc k ≡ bit_or a c * 2 ^ k * 2 = double (bit_or a c) k in
    let half : (a * 2 ^ suc k + b) / 2 ≡ a * 2 ^ k + b / 2 = omega (arith, e) in
    let half_second : (c * 2 ^ suc k + d) / 2 ≡ c * 2 ^ k + d / 2 = omega (arith, f) in
    omega (
      arith,
      or_step (a * 2 ^ suc k + b) (c * 2 ^ suc k + d),
      or_step b d,
      ap (λ (v : ℕ). bit_or v ((c * 2 ^ suc k + d) / 2)) half,
      ap (λ (v : ℕ). bit_or (a * 2 ^ k + b / 2) v) half_second,
      or_split k a (b / 2) c (d / 2) (omega (arith, two)) (omega (arith, two)),
      e,
      f,
      r,
    )

pub or_zero : (a : ℕ) → bit_or a 0 ≡ a
or_zero a = or_zero_below a a (omega arith)

-- An or of parts that do not overlap is a sum: below, and between, the other's digits.
pub or_below : (k a b : ℕ) → b < 2 ^ k → bit_or (a * 2 ^ k) b ≡ a * 2 ^ k + b
or_below k a b h =
    let pos = power_pos k in
    let split = or_split k a 0 0 b pos h in
    let e : a * 2 ^ k + 0 ≡ a * 2 ^ k = omega arith in
    let f : 0 * 2 ^ k + b ≡ b = omega arith in
    omega (
      arith,
      split,
      ap (λ (v : ℕ). bit_or v (0 * 2 ^ k + b)) e,
      ap (λ (v : ℕ). bit_or (a * 2 ^ k) v) f,
      ap (λ (v : ℕ). v * 2 ^ k) (or_zero a),
      zero_or b,
    )

pub or_above : (k a b : ℕ) → b < 2 ^ k → bit_or b (a * 2 ^ k) ≡ a * 2 ^ k + b
or_above k a b h =
    let split = or_split k 0 b a 0 h (power_pos k) in
    let e : 0 * 2 ^ k + b ≡ b = omega arith in
    let f : a * 2 ^ k + 0 ≡ a * 2 ^ k = omega arith in
    omega (
      arith,
      split,
      ap (λ (v : ℕ). bit_or v (a * 2 ^ k + 0)) e,
      ap (λ (v : ℕ). bit_or b v) f,
      ap (λ (v : ℕ). v * 2 ^ k) (zero_or a),
      or_zero b,
    )

pub or_between :
    (j k a b v : ℕ)
    → b < 2 ^ j
    → b < 2 ^ k
    → v * 2 ^ j < 2 ^ k
    → bit_or (a * 2 ^ k + b) (v * 2 ^ j) ≡ a * 2 ^ k + v * 2 ^ j + b
or_between j k a b v h g l =
    let split = or_split k a b 0 (v * 2 ^ j) g l in
    let e : 0 * 2 ^ k + v * 2 ^ j ≡ v * 2 ^ j = omega arith in
    omega (
      arith,
      split,
      ap (λ (x : ℕ). bit_or (a * 2 ^ k + b) x) e,
      ap (λ (x : ℕ). x * 2 ^ k) (or_zero a),
      or_above j v b h,
    )

-- The low digits.
and_low : (k a b : ℕ) → b < 2 ^ k → bit_and (a * 2 ^ k + b) (2 ^ k - 1) ≡ b
and_low zero a b h =
    let e : 2 ^ zero - 1 ≡ 0 = omega arith in
    omega (
      arith,
      ap (λ (x : ℕ). bit_and (a * 2 ^ zero + b) x) e,
      and_zero_below (a * 2 ^ zero + b) (a * 2 ^ zero + b) (omega arith),
    )
and_low (suc k) a b h =
    let two : 2 ^ suc k ≡ 2 * 2 ^ k = pow_step 2 k in
    let e : a * 2 ^ suc k ≡ a * 2 ^ k * 2 = double a k in
    let half : (a * 2 ^ suc k + b) / 2 ≡ a * 2 ^ k + b / 2 = omega (arith, e) in
    let ones : (2 ^ suc k - 1) / 2 ≡ 2 ^ k - 1 = omega (arith, two) in
    omega (
      arith,
      and_step (a * 2 ^ suc k + b) (2 ^ suc k - 1),
      ap (λ (x : ℕ). bit_and x ((2 ^ suc k - 1) / 2)) half,
      ap (λ (x : ℕ). bit_and (a * 2 ^ k + b / 2) x) ones,
      and_low k a (b / 2) (omega (arith, two)),
      e,
      two,
    )

-- A mask without its low digits.
and_shift : (t x y c : ℕ) → c < 2 ^ t → bit_and (x * 2 ^ t + c) (y * 2 ^ t) ≡ bit_and x y * 2 ^ t
and_shift zero x y c h =
    let e : x * 2 ^ zero + c ≡ x = omega arith in
    let d : y * 2 ^ zero ≡ y = omega arith in
    omega (arith, ap (λ (v : ℕ). bit_and v (y * 2 ^ zero)) e, ap (λ (v : ℕ). bit_and x v) d)
and_shift (suc t) x y c h =
    let two : 2 ^ suc t ≡ 2 * 2 ^ t = pow_step 2 t in
    let e : x * 2 ^ suc t ≡ x * 2 ^ t * 2 = double x t in
    let d : y * 2 ^ suc t ≡ y * 2 ^ t * 2 = double y t in
    let r : bit_and x y * 2 ^ suc t ≡ bit_and x y * 2 ^ t * 2 = double (bit_and x y) t in
    let half : (x * 2 ^ suc t + c) / 2 ≡ x * 2 ^ t + c / 2 = omega (arith, e) in
    let half_mask : y * 2 ^ suc t / 2 ≡ y * 2 ^ t = omega (arith, d) in
    omega (
      arith,
      and_step (x * 2 ^ suc t + c) (y * 2 ^ suc t),
      ap (λ (v : ℕ). bit_and v (y * 2 ^ suc t / 2)) half,
      ap (λ (v : ℕ). bit_and (x * 2 ^ t + c / 2) v) half_mask,
      and_shift t x y (c / 2) (omega (arith, two)),
      d,
      r,
    )

pub and_split :
    (k a b c d : ℕ)
    → b < 2 ^ k
    → d < 2 ^ k
    → bit_and (a * 2 ^ k + b) (c * 2 ^ k + d) ≡ bit_and a c * 2 ^ k + bit_and b d
and_split zero a b c d h g =
    let e : a * 2 ^ zero + b ≡ a = omega arith in
    let f : c * 2 ^ zero + d ≡ c = omega arith in
    let z : b ≡ 0 = omega arith in
    omega (
      arith,
      ap (λ (v : ℕ). bit_and v (c * 2 ^ zero + d)) e,
      ap (λ (v : ℕ). bit_and a v) f,
      ap (λ (v : ℕ). bit_and v d) z,
      zero_and d,
    )
and_split (suc k) a b c d h g =
    let two : 2 ^ suc k ≡ 2 * 2 ^ k = pow_step 2 k in
    let e : a * 2 ^ suc k ≡ a * 2 ^ k * 2 = double a k in
    let f : c * 2 ^ suc k ≡ c * 2 ^ k * 2 = double c k in
    let half : (a * 2 ^ suc k + b) / 2 ≡ a * 2 ^ k + b / 2 = omega (arith, e) in
    let half_second : (c * 2 ^ suc k + d) / 2 ≡ c * 2 ^ k + d / 2 = omega (arith, f) in
    omega (
      arith,
      and_step (a * 2 ^ suc k + b) (c * 2 ^ suc k + d),
      and_step b d,
      ap (λ (v : ℕ). bit_and v ((c * 2 ^ suc k + d) / 2)) half,
      ap (λ (v : ℕ). bit_and (a * 2 ^ k + b / 2) v) half_second,
      and_split k a (b / 2) c (d / 2) (omega (arith, two)) (omega (arith, two)),
      e,
      f,
      double (bit_and a c) k,
    )

pub or_lt : (k a b : ℕ) → a < 2 ^ k → b < 2 ^ k → bit_or a b < 2 ^ k
or_lt zero a b h g =
    let z : a ≡ 0 = omega arith in omega (arith, ap (λ (v : ℕ). bit_or v b) z, zero_or b)
or_lt (suc k) a b h g =
    let two : 2 ^ suc k ≡ 2 * 2 ^ k = pow_step 2 k in
    omega
      (arith, or_step a b, or_lt k (a / 2) (b / 2) (omega (arith, two)) (omega (arith, two)), two)

-- A mask of `k` ones above `t` zeros keeps a field.
pub and_field : (k t x : ℕ) → bit_and x ((2 ^ k - 1) * 2 ^ t) ≡ x / 2 ^ t % 2 ^ k * 2 ^ t
and_field k t x =
    let y = x / 2 ^ t in
    let whole : y * 2 ^ t + x % 2 ^ t ≡ x = grind (arith, div_any x (2 ^ t)) in
    let part : y / 2 ^ k * 2 ^ k + y % 2 ^ k ≡ y = grind (arith, div_any y (2 ^ k)) in
    ap (λ (v : ℕ). bit_and v ((2 ^ k - 1) * 2 ^ t)) (sym whole)
    ∙ and_shift t y (2 ^ k - 1) (x % 2 ^ t) (mod-lt x (power_pos t))
    ∙ ap (λ (v : ℕ). bit_and v (2 ^ k - 1) * 2 ^ t) (sym part)
    ∙ ap (λ (v : ℕ). v * 2 ^ t) (and_low k (y / 2 ^ k) (y % 2 ^ k) (mod-lt y (power_pos k)))
