-- ===== src/Random/Law.antt =====
-- `random_law` draws an index with a positive weight.
use sysres_os.Base.{ℕ, zero, suc, ◌+◌, ◌%◌, ◌≤◌, ◌<◌, ◌≡◌, ltb, arith, Bool-cases, inl, inr, refl}
use native.Mathlib.Numerals.{add-one}
use sysres_os.Random.{weight_sum, pick, random, random_law}

module _ (law : ℕ → ℕ) where
  zero_sum : 0 ≡ weight_sum law 0
  unfolding weight_sum
  zero_sum = refl

  suc_sum : (j : ℕ) → weight_sum law (j + 1) ≡ weight_sum law j + law j
  unfolding weight_sum
  suc_sum j = rw add-one

  pub weight_sum_mono : (n k : ℕ) → k ≤ n → weight_sum law k ≤ weight_sum law n
  unfolding weight_sum
  weight_sum_mono zero zero h = omega arith
  weight_sum_mono zero (suc k) h = elim h [ ]
  weight_sum_mono (suc n) k h = elim (Bool-cases (ltb k (suc n))) [
    | inl e ↦ omega (arith, weight_sum_mono n k (ground arith))
    | inr e ↦ let eq : k ≡ suc n = ground arith in rw eq (omega arith)
  ]

  -- One positive weight makes the total positive.
  pub weight_sum-pos : (n k : ℕ) → k < n → 0 < law k → 0 < weight_sum law n
  weight_sum-pos n k h pos = omega (arith, suc_sum k, weight_sum_mono n (k + 1) (omega arith))

  -- `k` is an index below `n`, and `val` lies in the part of the total weight that belongs to it.
  pub record IsDrawn (n val k : ℕ) : Type 0 where
    pub index : k < n
    pub above : weight_sum law k ≤ val
    pub below : val < weight_sum law k + law k

  pick-IsDrawn :
      (rounds i sum n val : ℕ)
      → i + rounds ≡ n
      → sum ≡ weight_sum law i
      → sum ≤ val
      → val < weight_sum law n
      → IsDrawn n val (pick law rounds i sum val)
  unfolding pick
  pick-IsDrawn zero i sum n val e es lo hi =
      let at_end : i ≡ n = omega arith in absurd (omega (arith, rw at_end at es))
  pick-IsDrawn (suc rounds) i sum n val e es lo hi = elim (Bool-cases (ltb val (sum + law i))) [
    | inl hit ↦
        rw (hit, pick) (record { index = omega arith; above = omega arith; below = ground arith })
    | inr miss ↦
        rw (miss, pick)
          (pick-IsDrawn rounds (i + 1) (sum + law i) n val (omega arith) (omega (arith, suc_sum i))
            (ground arith) hi)
  ]

  -- If the total weight is positive, `random_law` returns the index below `n` in whose part of
  -- the total the draw lies, modulo the total, and that index has a positive weight.
  pub random_law-IsDrawn :
      (counter n : ℕ)
      → 0 < weight_sum law n
      → IsDrawn n (counter % weight_sum law n) (random_law counter law n)
        × (0 < law (random_law counter law n))
  unfolding random_law random
  random_law-IsDrawn counter n pos =
      let val = counter % weight_sum law n in
      let drawn : IsDrawn n val (pick law n 0 0 val) =
        pick-IsDrawn n 0 0 n val (omega arith) zero_sum (omega arith) (omega arith) in
      (drawn, omega (arith, drawn.above, drawn.below))
