-- ===== src/Proc/Search/First.antt =====
-- The search loops find the first slot, if there is one.
use mathlib.Core.Path.{subst}
use sysres_os.Base.{
  ℕ, zero, suc, ◌+◌, ◌≤◌, ◌<◌, ◌≡◌, Bool, true, false, Option, none, some, arith, Bool-cases, inl,
  inr, ◌==◌,
}
use sysres_os.Proc.Search.{find_from}

-- `j` is the first number from `i` on, below `i + rounds`, that passes the test.
pub record IsFirst (test : ℕ → Bool) (rounds i j : ℕ) : Type 0 where
  pub from : i ≤ j
  pub below : j < i + rounds
  pub passes : test j ≡ true
  pub none_before : (k : ℕ) → i ≤ k → k < j → test k ≡ false

abbrev pub Found : (ℕ → Bool) → ℕ → ℕ → Option ℕ → Type 0
Found test rounds i none = (k : ℕ) → i ≤ k → k < i + rounds → test k ≡ false
Found test rounds i (some j) = IsFirst test rounds i j

module _ (test : ℕ → Bool) where
  skip_first :
      (rounds i : ℕ) (o : Option ℕ)
      → test i ≡ false
      → Found test rounds (i + 1) o
      → Found test (suc rounds) i o
  skip_first rounds i none e f = λ k h hk. elim (Bool-cases (k == i)) [
    | inl at ↦ let eq : k ≡ i = ground arith in rw eq e
    | inr at ↦ f k (ground arith) (omega arith)
  ]
  skip_first rounds i (some j) e f = record {
    from = omega (arith, f.from);
    below = omega (arith, f.below);
    passes = f.passes;
    none_before = λ k h hk. elim (Bool-cases (k == i)) [
      | inl at ↦ let eq : k ≡ i = ground arith in rw eq e
      | inr at ↦ f.none_before k (ground arith) hk
    ];
  }

  -- `find_from` returns the first number that passes, and -1 exactly if none does.
  pub find_from-Found : (rounds i : ℕ) → Found test rounds i (find_from test rounds i)
  unfolding find_from
  find_from-Found zero i = λ k h hk. absurd (omega arith)
  find_from-Found (suc rounds) i = elim (Bool-cases (test i)) [
    | inl e ↦ subst (Found test (suc rounds) i) (at_once e) (record {
      from = omega arith;
      below = omega arith;
      passes = e;
      none_before = λ k h hk. absurd (omega arith);
    })
    | inr e ↦
        subst (Found test (suc rounds) i) (later e)
          (skip_first rounds i (find_from test rounds (i + 1)) e (find_from-Found rounds (i + 1)))
  ]
    where
      at_once : test i ≡ true → some i ≡ find_from test (suc rounds) i
      at_once e = rw (e, find_from)

      later : test i ≡ false → find_from test rounds (i + 1) ≡ find_from test (suc rounds) i
      later e = rw (e, find_from)
