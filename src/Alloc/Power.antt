-- ===== src/Alloc/Power.antt =====
-- `next_power_of_2` of src/memory/alloc.c: the smearing of the highest one.
use native.Mathlib.Omega.{pow_step}
use native.Mathlib.Nat.{le-div_iff_mul-le, div-lt_iff_lt-mul, div-eq_of_lt, pow-le-pow_right}
use sysres_os.Base.{
  ℕ, zero, suc, ◌+◌, ◌-◌, ◌*◌, ◌/◌, ◌^◌, ◌≤◌, ◌<◌, ◌≡◌, refl, ap, sym, ◌∙◌, inl, inr, arith, bit_or,
  ltb, Bool-cases, or_split, or_zero, or_lt, power_pos, or_step, sub64,
}
use sysres_os.Alloc.{smear, next_power_of_2}

pow-add : (j m : ℕ) → 2 ^ (j + m) ≡ 2 ^ j * 2 ^ m
pow-add zero m =
    let none_added : zero + m ≡ m = omega arith in ap (λ (v : ℕ). 2 ^ v) none_added ∙ omega arith
pow-add (suc j) m =
    let step : suc j + m ≡ suc (j + m) = omega arith in
    ap (λ (v : ℕ). 2 ^ v) step ∙ grind (arith, pow_step 2 (j + m), pow_step 2 j, pow-add j m)

one_less : (a b : ℕ) → 0 < a → (a - 1) * b + b ≡ a * b
one_less zero b h = absurd (omega arith)
one_less (suc a) b h =
    let e : suc a - 1 ≡ a = omega arith in ap (λ (v : ℕ). v * b + b) e ∙ grind arith

-- An or is at least each part.
or_ge : (n a b : ℕ) → b ≤ n → b ≤ bit_or a b
or_ge n a zero h = omega arith
or_ge zero a (suc b) h = absurd (omega arith)
or_ge (suc n) a (suc b) h =
    omega (arith, or_step a (suc b), or_ge n (a / 2) (suc b / 2) (omega arith))

-- Of `w` digits, the highest `j` are ones.
abbrev Topped : (w j x : ℕ) → Type 0
Topped w j x = (2 ^ w ≤ x + 2 ^ (w - j)) × (x < 2 ^ w)

-- `m` digits below the ones, of which `y` has `n` digits below its own.
module _ (w j m x n : ℕ) (wide : w ≡ j + m) (top : Topped w j x) (near : 2 ^ m ≤ x / 2 ^ j + 2 ^ n)
    (small : x / 2 ^ j < 2 ^ m) where
  whole : 2 ^ w ≡ 2 ^ j * 2 ^ m
  whole = ap (λ (v : ℕ). 2 ^ v) wide ∙ pow-add j m

  below : w - j ≡ m
  below = omega (arith, wide)

  abbrev rest : ℕ
  rest = x - (2 ^ j - 1) * 2 ^ m

  ones : (2 ^ j - 1) * 2 ^ m + 2 ^ m ≡ 2 ^ w
  ones = one_less (2 ^ j) (2 ^ m) (power_pos j) ∙ sym whole

  floor : 2 ^ w ≤ x + 2 ^ m
  floor = omega (arith, top.0, ap (λ (v : ℕ). 2 ^ v) below)

  parts : (2 ^ j - 1) * 2 ^ m + rest ≡ x
  parts = omega (arith, ones, floor)

  smeared : smear j x ≡ (2 ^ j - 1) * 2 ^ m + bit_or rest (x / 2 ^ j)
  smeared =
      let split =
        or_split m (2 ^ j - 1) rest 0 (x / 2 ^ j) (omega (arith, ones, top.1, floor, power_pos m))
          small in
      let e : 0 * 2 ^ m + x / 2 ^ j ≡ x / 2 ^ j = omega arith in
      ap (λ (v : ℕ). bit_or v (x / 2 ^ j)) (sym parts)
      ∙ ap (λ (v : ℕ). bit_or ((2 ^ j - 1) * 2 ^ m + rest) v) (sym e)
      ∙ split
      ∙ ap (λ (v : ℕ). v * 2 ^ m + bit_or rest (x / 2 ^ j)) (or_zero (2 ^ j - 1))

  step-Topped : w - (j + j) ≡ n → Topped w (j + j) (smear j x)
  step-Topped e =
      let ge = or_ge (x / 2 ^ j) rest (x / 2 ^ j) (omega arith) in
      let under : x / 2 ^ j < 2 ^ w = omega (arith, small, ones) in
      (
        omega (arith, smeared, ge, near, ones, ap (λ (v : ℕ). 2 ^ v) e),
        or_lt w x (x / 2 ^ j) top.1 under,
      )

swap : (a b : ℕ) → a * b ≡ b * a
swap a b = grind arith

-- One round of the smearing doubles the ones.
module _ (w j x : ℕ) (top : Topped w j x) where
  -- With room for as many ones again.
  doubled : (n : ℕ) → w ≡ j + (j + n) → Topped w (j + j) (smear j x)
  doubled n e =
      let m = j + n in
      let w_lem : 2 ^ w ≡ 2 ^ j * 2 ^ m = ap (λ (v : ℕ). 2 ^ v) e ∙ pow-add j m in
      let m_lem : 2 ^ m ≡ 2 ^ j * 2 ^ n = pow-add j n in
      let room : w - j ≡ m = omega (arith, e) in
      let floor : 2 ^ w ≤ x + 2 ^ m = omega (arith, top.0, ap (λ (v : ℕ). 2 ^ v) room) in
      let small : x / 2 ^ j < 2 ^ m =
        (div-lt_iff_lt-mul (power_pos j)).1 (grind (arith, top.1, w_lem)) in
      let near : 2 ^ m - 2 ^ n ≤ x / 2 ^ j =
        (le-div_iff_mul-le (power_pos j)).1 (grind (arith, floor, w_lem, m_lem)) in
      step-Topped w j m x n e top (omega (arith, near)) small (omega (arith, e))

  -- With less room, all digits are ones.
  filled : (m : ℕ) → w ≡ j + m → m ≤ j → Topped w (j + j) (smear j x)
  filled m e h =
      let w_lem : 2 ^ w ≡ 2 ^ j * 2 ^ m = ap (λ (v : ℕ). 2 ^ v) e ∙ pow-add j m in
      let room : w - j ≡ m = omega (arith, e) in
      let floor : 2 ^ w ≤ x + 2 ^ m = omega (arith, top.0, ap (λ (v : ℕ). 2 ^ v) room) in
      let mono : 2 ^ m ≤ 2 ^ j = pow-le-pow_right (omega arith) h in
      let small : x / 2 ^ j < 2 ^ m =
        (div-lt_iff_lt-mul (power_pos j)).1 (grind (arith, top.1, w_lem)) in
      let near : 2 ^ m - 1 ≤ x / 2 ^ j = (le-div_iff_mul-le (power_pos j)).1 (
        omega (
          arith,
          floor,
          mono,
          w_lem,
          one_less (2 ^ m) (2 ^ j) (power_pos m),
          swap (2 ^ j) (2 ^ m),
        )) in
      step-Topped w j m x 0 e top (omega (arith, near)) small (omega (arith, e, h))

  -- With no room, nothing changes.
  full : w < j → Topped w (j + j) (smear j x)
  full h =
      let none_left : w - j ≡ 0 = omega arith in
      let none_left' : w - (j + j) ≡ 0 = omega arith in
      let mono : 2 ^ w ≤ 2 ^ j = pow-le-pow_right (omega arith) (omega arith) in
      let gone : x / 2 ^ j ≡ 0 = div-eq_of_lt (omega (arith, top.1, mono)) in
      let same : smear j x ≡ x = ap (λ (v : ℕ). bit_or x v) gone ∙ or_zero x in
      (
        omega
            (arith, same, top.0, ap (λ (v : ℕ). 2 ^ v) none_left, ap (λ (v : ℕ). 2 ^ v) none_left'),
        omega (arith, same, top.1),
      )

  smear-Topped : Topped w (j + j) (smear j x)
  smear-Topped = elim (Bool-cases (ltb w j)) [
    | inl short ↦ full (ground arith)
    | inr long ↦ elim (Bool-cases (ltb w (j + j))) [
      | inl tight ↦ filled (w - j) (ground arith) (ground arith)
      | inr wide ↦ doubled (w - (j + j)) (ground arith)
    ]
  ]

-- The number of digits of a positive number.
digits_of : (k x : ℕ) → 0 < x → x < 2 ^ k → (w : ℕ) × (0 < w) × (w ≤ k) × Topped w 1 x
digits_of zero x pos h = absurd (omega arith)
digits_of (suc k) x pos h = elim (Bool-cases (ltb x (2 ^ k))) [
  | inl less ↦ let (w, w0, wk, top) = digits_of k x pos (ground arith) in (w, w0, omega arith, top)
  | inr more ↦
      let room : suc k - 1 ≡ k = omega arith in
      (
        suc k,
        omega arith,
        omega arith,
        (ground (arith, pow_step 2 k, ap (λ (v : ℕ). 2 ^ v) room), h),
      )
]

halves : (w : ℕ) → 0 < w → 2 ^ w ≡ 2 * 2 ^ (w - 1)
halves zero h = absurd (omega arith)
halves (suc w) h =
    let e : suc w - 1 ≡ w = omega arith in pow_step 2 w ∙ ap (λ (v : ℕ). 2 * 2 ^ v) (sym e)

-- For a positive number of up to 2 ^ 32, `next_power_of_2` gives the least power of two that is not
-- below it: the power is at least the number, and less than twice the number.
pub next_power_of_2_lem :
    (n : ℕ)
    → 0 < n
    → n ≤ 2 ^ 32
    → (w : ℕ) × (next_power_of_2 n ≡ 2 ^ w) × (n ≤ 2 ^ w) × (2 ^ w < 2 * n)
unfolding next_power_of_2
next_power_of_2_lem n pos h = elim (Bool-cases (ltb 1 n)) [
  | inr one ↦ let eq : n ≡ 1 = ground arith in rw eq (0, refl, omega arith, omega arith)
  | inl more ↦
      let x = n - 1 in
      let (w, w0, w32, top) = digits_of 32 x (ground arith) (omega arith) in
      let top2 = smear-Topped w 1 x top in
      let top4 = smear-Topped w 2 (smear 1 x) top2 in
      let top8 = smear-Topped w 4 (smear 2 (smear 1 x)) top4 in
      let top16 = smear-Topped w 8 (smear 4 (smear 2 (smear 1 x))) top8 in
      let top32 = smear-Topped w 16 (smear 8 (smear 4 (smear 2 (smear 1 x)))) top16 in
      let less : sub64 n 1 ≡ x = ground arith in
      let full32 : w - 32 ≡ 0 = omega arith in
      let half : 2 ^ w ≡ 2 * 2 ^ (w - 1) = halves w w0 in
      let mono : 2 ^ w ≤ 2 ^ 32 = pow-le-pow_right (omega arith) w32 in
      (
        w,
        rw less (omega (arith, top32, mono, ap (λ (v : ℕ). 2 ^ v) full32)),
        omega (arith, top.1),
        omega (arith, top.0, half),
      )
]
