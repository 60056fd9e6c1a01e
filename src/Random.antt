-- ===== src/Random.antt =====
-- `random` and `random_law` of src/interrupt/timer.c. `counter` is the value of CNTPCT_EL0 at the
-- call.
pub mod Law
use sysres_os.Base.{ℕ, zero, suc, ◌+◌, ◌-◌, ◌%◌, true, false, ltb}

-- `val % 0` is 0 on the processor, `val` in the library; `random_law` calls it with a positive total.
unfoldable pub random : ℕ → ℕ → ℕ
random counter bound = counter % bound

-- The sum of the first `n` weights.
unfoldable pub weight_sum : (ℕ → ℕ) → ℕ → ℕ
weight_sum law zero = 0
weight_sum law (suc n) = weight_sum law n + law n

-- The second loop, from index `i` with `sum` the weights before it.
unfoldable pub pick : (ℕ → ℕ) → (rounds i sum val : ℕ) → ℕ
pick law zero i sum val = i - 1
pick law (suc rounds) i sum val = elim (ltb val (sum + law i)) [
  | true ↦ i
  | false ↦ pick law rounds (i + 1) (sum + law i) val
]

unfoldable pub random_law : ℕ → (ℕ → ℕ) → ℕ → ℕ
unfolding random weight_sum pick
random_law counter law n = pick law n 0 0 (random counter (weight_sum law n))
