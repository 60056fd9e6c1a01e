-- ===== src/Console/Tests.antt =====
-- The theorems of the console at concrete texts.
use sysres_os.Base.{
  ◌==◌, ℕ, ◌+◌, ◌-◌, ◌^◌, ◌≡◌, refl, leb, not, ◌&&◌, true, false, ltb, if◌then◌else◌, some, [], ◌∷◌,
  length, arith,
}
use sysres_os.Bytes.{Memory}
use sysres_os.Console.{Printed, uart_put_int, uart_get_string, minus}
use sysres_os.Console.Digits.{int_number, leads, are_digits, without_sign, uart_put_int-int_number}
use sysres_os.Console.Format.{printed, convert, internal_printf}
use sysres_os.Console.Format.Unbuffered.{EndsAt, plain_text, internal_printf-plain_text}
use sysres_os.Console.Line.{IsLine, IsStored, uart_get_string-IsStored}

-- -42 in base 16.
uart_put_int-int_number_example :
    (p : Printed) × (uart_put_int 65 (2 ^ 64 - 42) 16 false true ≡ some p)
    × (int_number 16 p.text ≡ 2 ^ 64 - 42)
    × (leads minus p.text ≡ (leb (2 ^ 63) (2 ^ 64 - 42) && not false))
    × (are_digits true (without_sign p.text) ≡ true)
    × (leads 48 p.text ≡ (2 ^ 64 - 42 == 0))
    × (length p.text ≡ p.written)
uart_put_int-int_number_example =
    uart_put_int-int_number (2 ^ 64 - 42) 16 false true (omega arith) (omega arith) (omega arith)

-- Five letters and a line feed.
abbrev typed : ℕ → ℕ
typed i = if ltb i 5 then 97 + i else 10

IsLine-typed : IsLine typed 5
IsLine-typed = record { inner = λ i low. ground (arith, low); ended = refl }

uart_get_string-IsStored_example :
    (m' : Memory) × (uart_get_string 6 100 4 typed (λ x. 1) ≡ some (2, m'))
    × IsStored 100 3 typed (λ x. 1) m'
uart_get_string-IsStored_example =
    uart_get_string-IsStored typed 5 IsLine-typed 100 4 (λ x. 1) (omega arith) (omega arith)

-- `%c!`
abbrev letter_format : Memory
letter_format i = if i == 0 then 37 else if i == 1 then 99 else if i == 2 then 33 else 0

EndsAt-letter_format : EndsAt letter_format 3
EndsAt-letter_format = record { at_end = refl; before = λ i low. ground (arith, low) }

internal_printf-plain_text_example :
    (p : Printed) × (internal_printf letter_format
        (λ k. 65)
        (λ a. [])
        false
        (λ cs. 0)
        (λ x base unsign upper. record { text = []; written = 0 })
        4
      ≡ printed p)
    × (p.text ≡ 65 ∷ 33 ∷ [])
unfolding plain_text convert
internal_printf-plain_text_example =
    internal_printf-plain_text letter_format (λ k. 65) (λ a. []) false (λ cs. 0)
      (λ x base unsign upper. record { text = []; written = 0 }) 3 EndsAt-letter_format
