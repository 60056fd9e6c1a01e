-- ===== src/Console/Digits.antt =====
-- The number that the printed digits spell.
use mathlib.Core.Path.{subst}
use native.Mathlib.Omega.{div_any, pow_step}
use native.Mathlib.Nat.{mod-lt}
use sysres_os.Base.{
  ℕ, zero, suc, ◌+◌, ◌-◌, ◌*◌, ◌/◌, ◌%◌, ◌^◌, ◌<◌, ◌≤◌, ◌≡◌, ◌≢◌, ◌∙◌, ap, sym, refl, Bool, true,
  false, not, leb, ◌==◌, ◌&&◌, ◌||◌, if◌then◌else◌, some, List, [], ◌∷◌, ◌++◌, u64, minus_one64,
  length, length-append, arith, Bool-cases, inl, inr,
}
use sysres_os.Console.{Printed, digit_char, uart_put_uint, uart_put_int, minus}

-- The digit that a character stands for.
abbrev pub digit_of : ℕ → ℕ
digit_of c = if leb c 57 then c - 48 else if leb c 70 then c - 55 else c - 87

-- The number that a text spells, in a base, behind digits that spell `acc`.
abbrev pub number : (base acc : ℕ) → List ℕ → ℕ
number base acc [] = acc
number base acc (c ∷ cs) = number base (acc * base + digit_of c) cs

digit_of_char : (y : ℕ) (upper : Bool) → y < 16 → digit_of (digit_char y upper) ≡ y
digit_of_char y true h = ground (arith, h)
digit_of_char y false h = ground (arith, h)

number-append :
    (base acc c : ℕ) (cs : List ℕ)
    → number base acc (cs ++ c ∷ []) ≡ number base acc cs * base + digit_of c
number-append base acc c [] = refl
number-append base acc c (d ∷ cs) = number-append base (acc * base + digit_of d) c cs

-- Whether a text starts with a character.
abbrev pub leads : ℕ → List ℕ → Bool
leads k [] = false
leads k (c ∷ cs) = c == k

-- Whether all of a text are digits, those above 9 as letters of the case asked for.
abbrev pub is_digit : (upper : Bool) → ℕ → Bool
is_digit upper c =
    (leb 48 c && leb c 57) || (if upper then leb 65 c && leb c 70 else leb 97 c && leb c 102)

abbrev pub are_digits : (upper : Bool) → List ℕ → Bool
are_digits upper [] = true
are_digits upper (c ∷ cs) = is_digit upper c && are_digits upper cs

are_digits-append :
    (upper : Bool) (cs : List ℕ) (c : ℕ)
    → are_digits upper cs ≡ true
    → is_digit upper c ≡ true
    → are_digits upper (cs ++ c ∷ []) ≡ true
are_digits-append upper [] c h e = ground arith
are_digits-append upper (d ∷ cs) c h e =
    ground (arith, are_digits-append upper cs c (ground arith) e)

char_digit : (y : ℕ) (upper : Bool) → y < 16 → is_digit upper (digit_char y upper) ≡ true
char_digit y true h = ground (arith, h)
char_digit y false h = ground (arith, h)

-- What is printed for a number: its digits, as many as returned, with no zero and no sign in
-- front.
pub record Spells (base : ℕ) (upper : Bool) (x : ℕ) (p : Printed) : Type 0 where
  pub spelled : number base 0 p.text ≡ x
  pub counted : length p.text ≡ p.written
  pub led : leads 48 p.text ≡ false
  pub unsigned : leads minus p.text ≡ false
  pub digits : are_digits upper p.text ≡ true

twice_le : (q d : ℕ) → q * 2 ≤ q * (2 + d)
twice_le q d = let split : q * (2 + d) ≡ q * 2 + q * d = grind arith in omega (arith, split)

quotient :
    (x base : ℕ)
    → 2 ≤ base
    → (x / base * base + x % base ≡ x) × (x % base < base) × (x / base * 2 ≤ x)
quotient x base h =
    let whole : x / base * base + x % base ≡ x = grind (arith, div_any x base) in
    let split : 2 + (base - 2) ≡ base = omega arith in
    let less : x / base * 2 ≤ x / base * base =
      subst (λ b. x / base * 2 ≤ x / base * b) split (twice_le (x / base) (base - 2)) in
    (whole, mod-lt x (omega arith), omega (arith, whole, less))

leads-append :
    (k c : ℕ) (cs : List ℕ)
    → ((cs ≡ []) → (c == k) ≡ false)
    → leads k cs ≡ false
    → leads k (cs ++ c ∷ []) ≡ false
leads-append k c [] first h = first refl
leads-append k c (d ∷ ds) first h = h

char_minus : (y : ℕ) (upper : Bool) → (digit_char y upper == minus) ≡ false
char_minus y true = ground arith
char_minus y false = ground arith

char_zero : (y : ℕ) (upper : Bool) → y ≢ 0 → (digit_char y upper == 48) ≡ false
char_zero y true h = ground (arith, h)
char_zero y false h = ground (arith, h)

put_uint-Spells :
    (fuel x base : ℕ) (upper : Bool)
    → 2 ≤ base
    → base ≤ 16
    → x < 2 ^ fuel
    → (p : Printed) × (uart_put_uint (suc fuel) x base upper ≡ some p) × Spells base upper x p
unfolding uart_put_uint
put_uint-Spells zero x base upper low high small =
    let none_left : x ≡ 0 = omega (arith, small) in
    (
      record { text = []; written = 0 },
      rw none_left refl,
      record {
        spelled = rw none_left refl;
        counted = refl;
        led = refl;
        unsigned = refl;
        digits = refl;
      },
    )
put_uint-Spells (suc fuel) x base upper low high small = elim (Bool-cases (x == 0)) [
  | inl e ↦
      let none_left : x ≡ 0 = ground arith in
      (
        record { text = []; written = 0 },
        rw none_left refl,
        record {
          spelled = rw none_left refl;
          counted = refl;
          led = refl;
          unsigned = refl;
          digits = refl;
        },
      )
  | inr ne ↦
      let (whole, below, half) = quotient x base low in
      let double : 2 ^ suc fuel ≡ 2 * 2 ^ fuel = pow_step 2 fuel in
      let (p, run, spells) =
        put_uint-Spells fuel (x / base) base upper low high (omega (arith, half, double, small)) in
      let y = x % base in
      let c = digit_char y upper in
      (
        record { text = p.text ++ c ∷ []; written = p.written + 1 },
        rw (ne, run) refl,
        record {
          spelled =
              number-append base 0 c p.text
              ∙ rw (spells.spelled, digit_of_char y upper (omega (arith, below, high))) whole;
          counted = length-append p.text (c ∷ []) ∙ omega (arith, spells.counted);
          led =
              leads-append 48 c p.text
                (λ empty.
                  let high_zero : x / base ≡ 0 = sym spells.spelled ∙ ap (number base 0) empty in
                  char_zero y upper
                    (λ zero_digit. ground (arith, ne, whole, high_zero, zero_digit)))
                spells.led;
          unsigned = leads-append minus c p.text (λ _. char_minus y upper) spells.unsigned;
          digits =
              are_digits-append upper p.text c spells.digits
                (char_digit y upper (omega (arith, below, high)));
        },
      )
]

-- The number, in two's complement, that a text with a sign spells.
abbrev pub int_number : (base : ℕ) → List ℕ → ℕ
int_number base [] = 0
int_number base (c ∷ cs) =
    if c == minus then (u64 - number base 0 cs) % u64 else number base 0 (c ∷ cs)

int_number-plain :
    (base : ℕ) (cs : List ℕ) → leads minus cs ≡ false → int_number base cs ≡ number base 0 cs
int_number-plain base [] h = refl
int_number-plain base (c ∷ cs) h = rw h refl

-- A text without its sign.
abbrev pub without_sign : List ℕ → List ℕ
without_sign [] = []
without_sign (c ∷ cs) = if c == minus then cs else c ∷ cs

without_sign-plain : (cs : List ℕ) → leads minus cs ≡ false → without_sign cs ≡ cs
without_sign-plain [] h = refl
without_sign-plain (c ∷ cs) h = rw h refl

-- What `uart_put_int` writes in a base from 2 to 16 spells the number, in two's complement. It has a
-- sign exactly if the number is written as a signed one and is negative, all else are digits of the
-- case asked for, and a zero is in front for 0 only. The result is the number of characters written.
-- A depth of 65 is enough.
pub uart_put_int-int_number :
    (x base : ℕ) (unsign upper : Bool)
    → x < u64
    → 2 ≤ base
    → base ≤ 16
    → (p : Printed) × (uart_put_int 65 x base unsign upper ≡ some p)
      × (int_number base p.text ≡ x)
      × (leads minus p.text ≡ (leb (2 ^ 63) x && not unsign))
      × (are_digits upper (without_sign p.text) ≡ true)
      × (leads 48 p.text ≡ (x == 0))
      × (length p.text ≡ p.written)
unfolding uart_put_int
uart_put_int-int_number x base unsign upper small low high = elim (Bool-cases (x == 0)) [
  | inl e ↦
      let none_left : x ≡ 0 = ground arith in
      (
        record { text = 48 ∷ []; written = 1 },
        rw none_left refl,
        rw none_left (omega arith),
        rw none_left refl,
        refl,
        rw none_left refl,
        refl,
      )
  | inr ne ↦ elim (Bool-cases (leb (2 ^ 63) x && not unsign)) [
    | inl negative ↦
        let y = (1 + (minus_one64 - x)) % u64 in
        let top : 2 ^ 63 ≤ x = ground (arith, negative) in
        let (p, run, spells) = put_uint-Spells 64 y base upper low high (omega arith) in
        (
          record { text = minus ∷ p.text; written = p.written + 1 },
          rw (ne, negative, run) refl,
          rw spells.spelled (omega (arith, small, top)),
          rw negative refl,
          spells.digits,
          rw ne refl,
          omega (arith, spells.counted),
        )
    | inr plain ↦
        let (p, run, spells) = put_uint-Spells 64 x base upper low high small in
        (
          p,
          rw (ne, plain, run) refl,
          int_number-plain base p.text spells.unsigned ∙ spells.spelled,
          rw plain spells.unsigned,
          ap (are_digits upper) (without_sign-plain p.text spells.unsigned) ∙ spells.digits,
          rw ne spells.led,
          spells.counted,
        )
  ]
]
