-- ===== src/Console/Line.antt =====
-- A line that is read.
use sysres_os.Base.{
  ℕ, zero, suc, ◌+◌, ◌-◌, ◌<◌, ◌≤◌, ◌≡◌, ◌∙◌, ap, refl, true, false, not, ltb, ◌==◌, ◌&&◌,
  if◌then◌else◌, some, u64, sub64, arith, Bool-cases, inl, inr, ◌⊎◌,
}
use sysres_os.Bytes.{Memory}
use sysres_os.Console.{is_newline, kept, discarded, uart_get_string}
use sysres_os.Proc.Run.{update}

-- The first line of the input has `n` characters.
pub record IsLine (input : ℕ → ℕ) (n : ℕ) : Type 0 where
  pub inner : (i : ℕ) → i < n → is_newline (input i) ≡ false
  pub ended : is_newline (input n) ≡ true

-- The memory once a line of which `k` characters are kept is stored: these from `buff` on, a zero one
-- byte behind the byte that follows them, and everything else as it was.
pub record IsStored (buff k : ℕ) (input : ℕ → ℕ) (m m' : Memory) : Type 0 where
  pub characters : (i : ℕ) → i < k → m' (buff + i) ≡ input i
  pub zero_at : m' (buff + k + 1) ≡ 0
  pub others : (x : ℕ) → (x < buff) ⊎ (x ≡ buff + k) ⊎ (buff + k + 1 < x) → m' x ≡ m x

module _ (input : ℕ → ℕ) (n : ℕ) (line : IsLine input n) (buff : ℕ) where
  -- The memory after the rounds from character `i` to character `k`.
  abbrev Filled : (i k : ℕ) → Memory → Memory → Type 0
  Filled i k m m' =
      ((j : ℕ) → i ≤ j → j < k → m' (buff + j) ≡ input j)
      × ((x : ℕ) → (x < buff + i) ⊎ (buff + k ≤ x) → m' x ≡ m x)

  Filled-step :
      (i k : ℕ) (m m' : Memory)
      → i < k
      → Filled (i + 1) k (update m (buff + i) (input i)) m'
      → Filled i k m m'
  Filled-step i k m m' low (inside, outside) = (
    λ j from below. elim (Bool-cases (j == i)) [
      | inl e ↦
          let here : j ≡ i = ground arith in
          let self : (buff + i == buff + i) ≡ true = ground arith in
          rw here (outside (buff + i) (inl (omega arith)) ∙ rw self refl)
      | inr ne ↦ inside j (ground (arith, ne, from)) below
    ],
    λ x far.
        let other : (x == buff + i) ≡ false = ground (arith, far, low) in
        let apart : (x < buff + (i + 1)) ⊎ (buff + k ≤ x) = omega (arith, far) in
        outside x apart ∙ rw other refl,
  )

  kept_lem :
      (fuel i room k : ℕ) (m : Memory)
      → i ≤ k
      → k < i + fuel
      → k ≡ (if ltb room n then room else n)
      → (size : ℕ) → sub64 size 1 ≡ room
      → (m' : Memory) × (kept fuel i buff size input m ≡ some (k, m')) × Filled i k m m'
  unfolding kept
  kept_lem zero i room k m low enough at size eq = absurd (omega arith)
  kept_lem (suc fuel) i room k m low enough at size eq = elim (Bool-cases (i == k)) [
    | inl e ↦
        let here : i ≡ k = ground arith in
        let stop : (not (is_newline (input k)) && ltb k (sub64 size 1)) ≡ false =
          elim (Bool-cases (ltb k n)) [
            | inl inside ↦
                let full : ltb k (sub64 size 1) ≡ false = ground (arith, at, inside, eq) in
                rw (line.inner k (ground (arith, inside)), full) refl
            | inr last ↦ let whole : k ≡ n = ground (arith, at, last) in rw (whole, line.ended) refl
          ] in
        (
          m,
          rw (here, stop) refl,
          (λ j from below. absurd (omega (arith, here, from, below)), λ x far. refl),
        )
    | inr ne ↦
        let more : ltb i (sub64 size 1) ≡ true = ground (arith, at, ne, low, eq) in
        let (m', run, filled) =
          kept_lem fuel (i + 1) room k (update m (buff + i) (input i)) (ground (arith, ne, low))
            (omega (arith, enough)) at size eq in
        (
          m',
          rw (line.inner i (ground (arith, at, ne, low)), more) run,
          Filled-step i k m m' (ground (arith, ne, low)) filled,
        )
  ]

  discarded_lem :
      (fuel i count : ℕ)
      → i ≤ n
      → n < i + fuel
      → discarded fuel i count input ≡ some (count + (n - i))
  unfolding discarded
  discarded_lem zero i count low enough = absurd (omega arith)
  discarded_lem (suc fuel) i count low enough = elim (Bool-cases (i == n)) [
    | inl e ↦
        let here : i ≡ n = ground arith in
        let last : n - n ≡ 0 = omega arith in rw (here, line.ended, last) (ap some (omega arith))
    | inr ne ↦ rw (line.inner i (ground (arith, ne, low))) (
        discarded_lem fuel (i + 1) (count + 1) (ground (arith, ne, low)) (omega (arith, enough))
        ∙ ap some (ground (arith, ne, low)))
  ]

  IsStored-zero :
      (k : ℕ) (m m' : Memory)
      → Filled 0 k m m'
      → IsStored buff k input m (update m' (buff + (k + 1)) 0)
  IsStored-zero k m m' (inside, outside) = record {
    characters = λ i low.
        let other : (buff + i == buff + (k + 1)) ≡ false = ground (arith, low) in
        rw other (inside i (omega arith) low);
    zero_at = ground arith;
    others = λ x far.
        let other : (x == buff + (k + 1)) ≡ false = ground (arith, far) in
        let out : (x < buff + 0) ⊎ (buff + k ≤ x) = omega (arith, far) in rw other (outside x out);
  }

  -- Of a line of `n` characters `uart_get_string` keeps as many as `size - 1`, and gives the number of
  -- those it discards. The zero goes one byte behind the byte that follows the characters kept, which
  -- stays as it was, as does all other memory; where `size - 1` characters are kept the zero lies
  -- behind the buffer. One round more than the line is long is enough.
  pub uart_get_string-IsStored :
      (size : ℕ) (m : Memory)
      → 0 < size
      → size < u64
      → let k = if ltb (size - 1) n then size - 1 else n in
        (m' : Memory) × (uart_get_string (suc n) buff size input m ≡ some (n - k, m'))
        × IsStored buff k input m m'
  unfolding uart_get_string
  uart_get_string-IsStored size m some_room small =
      let k = if ltb (size - 1) n then size - 1 else n in
      let few : k ≤ n = ground arith in
      let (m', run, filled) =
        kept_lem (suc n) 0 (size - 1) k m (omega arith) (omega (arith, few)) refl size
          (omega (arith, some_room, small)) in
      (
        update m' (buff + (k + 1)) 0,
        rw (run, discarded_lem (suc n) k 0 few (omega (arith, few)))
            (ap (λ (d : ℕ). some (d, update m' (buff + (k + 1)) 0)) (omega arith)),
        IsStored-zero k m m' filled,
      )
