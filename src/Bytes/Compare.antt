-- ===== src/Bytes/Compare.antt =====
-- `memcmp`, `strlen` and `strcmp`.
use sysres_os.Base.{
  ℕ, zero, suc, ◌+◌, ◌≤◌, ◌<◌, ◌≡◌, ◌≢◌, refl, ◌==◌, some, arith, Bool-cases, inl, inr, ◌⊎◌,
}
use sysres_os.Bytes.{Memory, sign, compare_from, memcmp, length_from, strlen, strcmp_from, strcmp}

module _ (m : Memory) where
  -- The two areas agree from index `i` up to index `j`.
  abbrev pub Agree : (a b i j : ℕ) → Type 0
  Agree a b i j = (k : ℕ) → i ≤ k → k < j → m (a + k) ≡ m (b + k)

  -- `r` is -1 or 1, as the byte at index `j` of the first area is below or above the other, and `j`
  -- is the first index from `i` on at which the areas differ.
  pub record Decided (a b i r j : ℕ) : Type 0 where
    pub from : i ≤ j
    pub agree : Agree a b i j
    pub differ : m (a + j) ≢ m (b + j)
    pub sign_of : r ≡ sign (m (a + j)) (m (b + j))

  Agree-more : (a b i j : ℕ) → m (a + i) ≡ m (b + i) → Agree a b (i + 1) j → Agree a b i j
  Agree-more a b i j e h k from below = elim (Bool-cases (k == i)) [
    | inl at ↦ let eq : k ≡ i = ground arith in rw eq e
    | inr at ↦ h k (ground arith) below
  ]

  abbrev Compared : (rounds i a b r : ℕ) → Type 0
  Compared rounds i a b r =
      ((r ≡ 0) × Agree a b i (i + rounds)) ⊎ ((j : ℕ) × (j < i + rounds) × Decided a b i r j)

  Decided-later :
      (a b i r j : ℕ) → m (a + i) ≡ m (b + i) → Decided a b (i + 1) r j → Decided a b i r j
  Decided-later a b i r j e d = record {
    from = omega (arith, d.from);
    agree = Agree-more a b i j e d.agree;
    differ = d.differ;
    sign_of = d.sign_of;
  }

  Decided-now : (a b i : ℕ) → m (a + i) ≢ m (b + i) → Decided a b i (sign (m (a + i)) (m (b + i))) i
  Decided-now a b i ne = record {
    from = omega arith;
    agree = λ k from below. absurd (omega arith);
    differ = ne;
    sign_of = refl;
  }

  more :
      (rounds i a b r : ℕ)
      → m (a + i) ≡ m (b + i)
      → Compared rounds (i + 1) a b r
      → Compared (suc rounds) i a b r
  more rounds i a b r e (inl (zero_r, h)) =
      inl (zero_r, Agree-more a b i (i + suc rounds) e (λ k from below. h k from (omega arith)))
  more rounds i a b r e (inr (j, below, d)) = inr (j, omega arith, Decided-later a b i r j e d)

  Compared-compare_from : (rounds i a b : ℕ) → Compared rounds i a b (compare_from rounds i a b m)
  unfolding compare_from
  Compared-compare_from zero i a b = inl (refl, λ k from below. absurd (omega arith))
  Compared-compare_from (suc rounds) i a b = elim (Bool-cases (m (a + i) == m (b + i))) [
    | inl e ↦
        rw (e, compare_from)
          (more rounds i a b _ (ground arith) (Compared-compare_from rounds (i + 1) a b))
    | inr ne ↦ rw (ne, compare_from) (inr (i, omega arith, Decided-now a b i (ground arith)))
  ]

  -- `memcmp` returns 0 exactly for areas that agree, and otherwise -1 or 1, as the first byte that
  -- differs is below or above its counterpart.
  pub memcmp_lem :
      (a b size : ℕ)
      → ((memcmp a b size m ≡ 0) × Agree a b 0 size)
        ⊎ ((j : ℕ) × (j < size) × Decided a b 0 (memcmp a b size m) j)
  unfolding memcmp
  memcmp_lem a b size = elim (Compared-compare_from size 0 a b) [
    | inl (e, h) ↦ inl (e, λ k from below. h k from (omega arith))
    | inr (j, below, d) ↦ inr (j, omega arith, d)
  ]

  -- A string of `n` characters.
  pub record IsString (str n : ℕ) : Type 0 where
    pub chars : (k : ℕ) → k < n → m (str + k) ≢ 0
    pub end : m (str + n) ≡ 0

  length_from_lem :
      (fuel i str n : ℕ) → IsString str n → i ≤ n → n < i + fuel → length_from fuel i str m ≡ some n
  unfolding length_from
  length_from_lem zero i str n h lo hi = absurd (omega arith)
  length_from_lem (suc fuel) i str n h lo hi = elim (Bool-cases (i == n)) [
    | inl e ↦ let eq : i ≡ n = ground arith in let z : m (str + i) ≡ 0 = rw eq h.end in ground arith
    | inr e ↦
        ground (arith, h.chars i, length_from_lem fuel (i + 1) str n h (ground arith) (omega arith))
  ]

  -- `strlen` returns the length of a string, with more fuel than it has characters.
  pub strlen_lem : (fuel str n : ℕ) → IsString str n → n < fuel → strlen fuel str m ≡ some n
  unfolding strlen
  strlen_lem fuel str n h enough = length_from_lem fuel 0 str n h (omega arith) (omega arith)

  more_left : (str n i : ℕ) → m (str + n) ≡ 0 → i ≤ n → m (str + i) ≢ 0 → i < n
  more_left str n i end lo c = elim (Bool-cases (i == n)) [
    | inl e ↦ let eq : i ≡ n = ground arith in absurd (c (rw eq end))
    | inr e ↦ ground arith
  ]

  -- Two strings are the same, or the first character that differs, the final NUL included, decides.
  abbrev pub Ordered : (i str1 str2 n1 n2 r : ℕ) → Type 0
  Ordered i str1 str2 n1 n2 r =
      ((r ≡ 0) × (n1 ≡ n2) × Agree str1 str2 i n1)
      ⊎ ((j : ℕ) × (j ≤ n1) × (j ≤ n2) × Decided str1 str2 i r j)

  Ordered-more :
      (i str1 str2 n1 n2 r : ℕ)
      → m (str1 + i) ≡ m (str2 + i)
      → Ordered (i + 1) str1 str2 n1 n2 r
      → Ordered i str1 str2 n1 n2 r
  Ordered-more i str1 str2 n1 n2 r e (inl (z, same, h)) =
      inl (z, same, Agree-more str1 str2 i n1 e h)
  Ordered-more i str1 str2 n1 n2 r e (inr (j, b1, b2, d)) =
      inr (j, b1, b2, Decided-later str1 str2 i r j e d)

  module _ (str1 str2 n1 n2 : ℕ) (h1 : IsString str1 n1) (h2 : IsString str2 n2) where
    abbrev Result : (fuel i : ℕ) → Type 0
    Result fuel i =
        (r : ℕ) × (strcmp_from fuel i str1 str2 m ≡ some r) × Ordered i str1 str2 n1 n2 r

    at_end : (i : ℕ) → i ≤ n1 → m (str1 + i) ≡ 0 → i ≡ n1
    at_end i lo z = elim (Bool-cases (i == n1)) [
      | inl e ↦ ground arith
      | inr e ↦ absurd (h1.chars i (ground arith) z)
    ]

    end_of_second : (i : ℕ) → i ≤ n2 → m (str2 + i) ≡ 0 → i ≡ n2
    end_of_second i lo z = elim (Bool-cases (i == n2)) [
      | inl e ↦ ground arith
      | inr e ↦ absurd (h2.chars i (ground arith) z)
    ]

    strcmp_from_lem : (fuel i : ℕ) → i ≤ n1 → i ≤ n2 → n1 < i + fuel → Result fuel i
    unfolding strcmp_from
    strcmp_from_lem zero i lo1 lo2 hi = absurd (omega arith)
    strcmp_from_lem (suc fuel) i lo1 lo2 hi = elim (Bool-cases (m (str1 + i) == m (str2 + i))) [
      | inl e ↦ elim (Bool-cases (m (str1 + i) == 0)) [
        | inl z ↦
            let e1 = at_end i lo1 (ground arith) in
            let e2 = end_of_second i lo2 (ground arith) in
            (0, ground arith, inl (refl, omega arith, (λ k from below. absurd (omega arith))))
        | inr c ↦
            let lt1 : i < n1 = more_left str1 n1 i h1.end lo1 (ground arith) in
            let lt2 : i < n2 = more_left str2 n2 i h2.end lo2 (ground arith) in
            let (r, run, o) =
              strcmp_from_lem fuel (i + 1) (omega arith) (omega arith) (omega arith) in
            (r, ground arith, Ordered-more i str1 str2 n1 n2 r (ground arith) o)
      ]
      | inr ne ↦ (
        sign (m (str1 + i)) (m (str2 + i)),
        ground arith,
        inr (i, lo1, lo2, Decided-now str1 str2 i (ground arith)),
      )
    ]

    -- `strcmp` of two strings, with more fuel than the first has characters, returns 0 exactly for
    -- strings that agree, and otherwise -1 or 1, as the first character that differs is below or
    -- above its counterpart, the final NUL included.
    pub strcmp_lem :
        (fuel : ℕ)
        → n1 < fuel
        → (r : ℕ) × (strcmp fuel str1 str2 m ≡ some r) × Ordered 0 str1 str2 n1 n2 r
    unfolding strcmp
    strcmp_lem fuel enough = strcmp_from_lem fuel 0 (omega arith) (omega arith) (omega arith)
