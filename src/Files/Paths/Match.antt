-- ===== src/Files/Paths/Match.antt =====
-- What `filename_match` finds.
use mathlib.Core.Path.{subst}
use sysres_os.Base.{
  ℕ, zero, suc, ◌+◌, ◌<◌, ◌≤◌, ◌≡◌, ◌⊎◌, refl, true, false, ltb, ◌==◌, ◌&&◌, minus_one32, arith,
  Bool-cases, inl, inr,
}
use sysres_os.Bytes.{Memory}
use sysres_os.Files.State.{filename_max_size}
use sysres_os.Files.Paths.{ends, match_from, filename_match}

-- The first part of the path is the name: their first `k` bytes are the same, the part ends there, and
-- so does the name, unless it is of the largest size.
pub record IsMatch (path dirname : Memory) (k : ℕ) : Type 0 where
  pub short : k ≤ filename_max_size
  pub same : (i : ℕ) → i < k → path i ≡ dirname i
  pub ended : ends (path k) ≡ true
  pub whole : k < filename_max_size → dirname k ≡ 0
  -- Neither ends before.
  pub inner : (i : ℕ) → i < k → (ends (path i) && (dirname i == 0)) ≡ false

abbrev pub MatchResult : (path dirname : Memory) → ℕ → Type 0
MatchResult path dirname r =
    IsMatch path dirname r ⊎ ((r ≡ minus_one32) × ((k : ℕ) → ¬ IsMatch path dirname k))

module _ (path dirname : Memory) where
  -- The bytes before `cur` are the same, and neither ends there.
  abbrev Agree : ℕ → Type 0
  Agree cur =
      (i : ℕ) → i < cur → (path i ≡ dirname i) × ((ends (path i) && (dirname i == 0)) ≡ false)

  Agree-next :
      (cur : ℕ)
      → Agree cur
      → path cur ≡ dirname cur
      → (ends (path cur) && (dirname cur == 0)) ≡ false
      → Agree (cur + 1)
  Agree-next cur agree e n i low = elim (Bool-cases (i == cur)) [
    | inl at ↦ let eq : i ≡ cur = ground arith in rw eq (e, n)
    | inr ne ↦ agree i (ground (arith, ne, low))
  ]

  -- A match ends where path and name end together.
  ends_here :
      (cur k : ℕ)
      → IsMatch path dirname k
      → (ends (path cur) && (dirname cur == 0)) ≡ true
      → k ≤ cur
  ends_here cur k m e = ground (arith, m.inner cur, e)

  no-IsMatch :
      (cur : ℕ)
      → cur < filename_max_size
      → Agree cur
      → (ends (path cur) && (dirname cur == 0)) ≡ false
      → (path cur == dirname cur) ≡ false
      → (k : ℕ) → ¬ IsMatch path dirname k
  no-IsMatch cur room agree open_here differ k m = elim (Bool-cases (ltb cur k)) [
    | inl behind ↦ ground (arith, m.same cur (ground (arith, behind)), differ)
    | inr before ↦ elim (Bool-cases (k == cur)) [
      | inl at ↦
          let eq : k ≡ cur = ground arith in
          let ended : ends (path cur) ≡ true = subst (λ j. ends (path j) ≡ true) eq m.ended in
          let whole : dirname cur ≡ 0 =
            subst (λ j. dirname j ≡ 0) eq (m.whole (omega (arith, eq))) in
          ground (arith, open_here, ended, whole)
      | inr off ↦
          let closed : dirname k ≡ 0 = m.whole (ground arith) in
          ground (arith, (agree k (ground (arith, off, before))).1, m.ended, closed)
    ]
  ]

  match_from-MatchResult :
      (rounds cur : ℕ)
      → cur + rounds ≡ filename_max_size
      → Agree cur
      → MatchResult path dirname (match_from rounds cur path dirname)
  unfolding match_from
  match_from-MatchResult zero cur at_end agree = elim (Bool-cases (ends (path cur))) [
    | inl e ↦ rw e (
        inl (record {
          short = omega arith;
          same = λ i low. (agree i low).0;
          ended = e;
          whole = λ room. absurd (omega arith);
          inner = λ i low. (agree i low).1;
        }))
    | inr e ↦ rw e (
        inr (
          refl,
          λ k m. elim (Bool-cases (k == cur)) [
            | inl at ↦
                let eq : k ≡ cur = ground arith in
                let ended : ends (path cur) ≡ true = subst (λ j. ends (path j) ≡ true) eq m.ended in
                ground (arith, e, ended)
            | inr off ↦
                let closed : dirname k ≡ 0 = m.whole (ground (arith, m.short, off)) in
                ground (arith, (agree k (ground (arith, m.short, off))).1, m.ended, closed)
          ],
        ))
  ]
  match_from-MatchResult (suc rounds) cur at_end agree =
      elim (Bool-cases (ends (path cur) && (dirname cur == 0))) [
        | inl e ↦ rw e (
            inl (record {
              short = omega arith;
              same = λ i low. (agree i low).0;
              ended = ground (arith, e);
              whole = λ room. ground (arith, e);
              inner = λ i low. (agree i low).1;
            }))
        | inr n ↦ elim (Bool-cases (path cur == dirname cur)) [
          | inr differ ↦ rw (n, differ) (inr (refl, no-IsMatch cur (omega arith) agree n differ))
          | inl same ↦
              rw (n, same)
                (match_from-MatchResult rounds (cur + 1) (omega arith)
                  (Agree-next cur agree (ground (arith, same)) n))
        ]
      ]

-- `filename_match` gives the length of the first part of the path where it is the name, and -1 exactly
-- if it is not.
pub filename_match-MatchResult :
    (path dirname : Memory) → MatchResult path dirname (filename_match path dirname)
unfolding filename_match
filename_match-MatchResult path dirname =
    match_from-MatchResult path dirname 28 0 refl (λ i low. absurd (omega arith))
