-- ===== src/Base/Count.antt =====
-- Counting the numbers below a bound that pass a test.
use Prim.Native.Nat.{ℕ, zero, suc, ◌+◌, ◌≤◌, ◌<◌}
use mathlib.Core.Path.{◌≡◌, refl, sym}
use mathlib.Core.Logic.{◌≢◌, inl, inr}
use mathlib.Core.Bool.{Bool, true, false, not, ◌&&◌}
use native.Mathlib.Omega.{arith}
use sysres_os.Base.Tests.{if◌then◌else◌, ◌==◌, Bool-cases}

unfoldable pub count : (ℕ → Bool) → ℕ → ℕ
count P zero = 0
count P (suc n) = count P n + (if P n then 1 else 0)

pub count-le : (P : ℕ → Bool) (n : ℕ) → count P n ≤ n
unfolding count
count-le P zero = omega arith
count-le P (suc n) = ground (arith, count-le P n)

module _ {P Q : ℕ → Bool} where
  pub count_congr : (n : ℕ) → ((x : ℕ) → x < n → Q x ≡ P x) → count Q n ≡ count P n
  unfolding count
  count_congr zero same = omega arith
  count_congr (suc n) same = ground (arith, same n, count_congr n (λ x h. same x (omega arith)))

  -- The test fails at one more number, `a`.
  pub count_drop :
      (n a : ℕ)
      → a < n
      → P a ≡ true
      → Q a ≡ false
      → ((x : ℕ) → x ≢ a → Q x ≡ P x)
      → count Q n + 1 ≡ count P n
  unfolding count
  count_drop zero a h pa qa same = elim h [ ]
  count_drop (suc n) a h pa qa same = elim (Bool-cases (a == n)) [
    | inl e ↦
        let eq : a ≡ n = ground arith in
        ground (arith, count_congr n (λ x hx. same x (omega arith)))
    | inr e ↦
        let ne : a ≢ n = ground arith in
        ground (arith, same n (omega arith), count_drop n a (omega arith) pa qa same)
  ]

pub count-pos : (P : ℕ → Bool) (n : ℕ) → 0 < count P n → (a : ℕ) × (a < n) × (P a ≡ true)
unfolding count
count-pos P zero h = absurd (omega arith)
count-pos P (suc n) h = elim (Bool-cases (P n)) [
  | inl e ↦ (n, omega arith, e)
  | inr e ↦ let rest = count-pos P n (ground arith) in (rest.0, omega (arith, rest.1), rest.2)
]

pub pos-count : (P : ℕ → Bool) (n a : ℕ) → a < n → P a ≡ true → 0 < count P n
unfolding count
pos-count P zero a h p = elim h [ ]
pos-count P (suc n) a h p = elim (Bool-cases (a == n)) [
  | inl e ↦ let eq : a ≡ n = ground arith in ground arith
  | inr e ↦ let ne : a ≢ n = ground arith in ground (arith, pos-count P n a (omega arith) p)
]

-- If fewer numbers pass `P` than `Q`, some number passes `Q` alone.
pub count_differ :
    (P Q : ℕ → Bool) (n : ℕ)
    → count P n < count Q n
    → (a : ℕ) × (a < n) × (P a ≡ false) × (Q a ≡ true)
unfolding count
count_differ P Q zero h = absurd (omega arith)
count_differ P Q (suc n) h = elim (Bool-cases (not (P n) && Q n)) [
  | inl e ↦ (n, omega arith, ground arith, ground arith)
  | inr e ↦
      let rest = count_differ P Q n (ground arith) in
      (rest.0, omega (arith, rest.1), rest.2, rest.3)
]

pub count_mono :
    (P Q : ℕ → Bool) (n : ℕ) → ((x : ℕ) → P x ≡ true → Q x ≡ true) → count P n ≤ count Q n
unfolding count
count_mono P Q zero sub = omega arith
count_mono P Q (suc n) sub = ground (arith, sub n, count_mono P Q n sub)

pub count_none : (P : ℕ → Bool) (n : ℕ) → ((x : ℕ) → P x ≡ false) → count P n ≡ 0
unfolding count
count_none P zero no_one = refl
count_none P (suc n) no_one = ground (arith, no_one n, count_none P n no_one)

-- Exactly one number passes.
pub count_one :
    (P : ℕ → Bool) (n a : ℕ) → a < n → P a ≡ true → ((x : ℕ) → x ≢ a → P x ≡ false) → count P n ≡ 1
count_one P n a h p alone = omega (
  arith,
  count_drop {P = P} {Q = λ x. false} n a h p refl (λ x ne. sym (alone x ne)),
  count_none (λ x. false) n (λ x. refl),
)
