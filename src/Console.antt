-- ===== src/Console.antt =====
-- The console, src/libk/uart.c, over the characters that are written and read. An `int64_t` is the
-- number its bits spell.
pub mod Digits
pub mod Line
pub mod Format
mod Tests
use sysres_os.Base.{
  ℕ, zero, suc, ◌+◌, ◌-◌, ◌/◌, ◌%◌, ◌^◌, Bool, true, false, not, ltb, leb, ◌==◌, ◌&&◌, ◌||◌,
  if◌then◌else◌, Option, none, some, List, [], ◌∷◌, ◌++◌, u64, sub64, minus_one64,
}
use sysres_os.Bytes.{Memory}
use sysres_os.Proc.Run.{update}

-- What a call writes, and the number of characters that it returns.
pub record Printed : Type 0 where
  pub text : List ℕ
  pub written : ℕ

-- The characters up to the NUL. The counter that is returned is not the one of the loop.
unfoldable pub uart_puts : (fuel str : ℕ) → Memory → Option Printed
uart_puts zero str m = none
uart_puts (suc fuel) str m =
    let rest = uart_puts fuel (str + 1) m in
    if m str == 0
    then some (record { text = []; written = 0 })
    else elim rest [ none ↦ none | some p ↦ some (record { text = m str ∷ p.text; written = 0 }) ]

-- The character of a digit.
abbrev pub digit_char : ℕ → Bool → ℕ
digit_char y upper_hexa = if leb y 9 then 48 + y else if upper_hexa then 55 + y else 87 + y

-- The digit `y` behind what the recursive call wrote.
abbrev pub put_digit : (y : ℕ) → (upper_hexa : Bool) → Option Printed → Option Printed
put_digit y upper_hexa none = none
put_digit y upper_hexa (some p) =
    some (record { text = p.text ++ digit_char y upper_hexa ∷ []; written = p.written + 1 })

-- The recursive call has fuel.
unfoldable pub uart_put_uint : (fuel x base : ℕ) → Bool → Option Printed
uart_put_uint zero x base upper_hexa = none
uart_put_uint (suc fuel) x base upper_hexa =
    let rest = uart_put_uint fuel (x / base) base upper_hexa in
    if x == 0
    then some (record { text = []; written = 0 })
    else put_digit (x % base) upper_hexa rest

-- `-`
abbrev pub minus : ℕ
minus = 45

abbrev pub negated : Option Printed → Option Printed
negated none = none
negated (some p) = some (record { text = minus ∷ p.text; written = p.written + 1 })

-- `1 + ~x` is 2 ^ 64 - x.
unfoldable pub uart_put_int : (fuel x base : ℕ) → (unsign upper_hexa : Bool) → Option Printed
uart_put_int fuel x base unsign upper_hexa =
    if x == 0
    then some (record { text = 48 ∷ []; written = 1 })
    else if leb (2 ^ 63) x && not unsign
    then negated (uart_put_uint fuel ((1 + (minus_one64 - x)) % u64) base upper_hexa)
    else uart_put_uint fuel x base upper_hexa

abbrev pub is_newline : ℕ → Bool
is_newline c = (c == 13) || (c == 10)

-- The first loop of `uart_get_string`: the number of characters kept, and the memory. `input i` is the
-- character that is read when `i` characters were read before.
unfoldable pub kept : (fuel i buff size : ℕ) → (ℕ → ℕ) → Memory → Option (ℕ × Memory)
kept zero i buff size input m = none
kept (suc fuel) i buff size input m =
    let rest = kept fuel (i + 1) buff size input (update m (buff + i) (input i)) in
    if not (is_newline (input i)) && ltb i (sub64 size 1) then rest else some (i, m)

-- The second loop, from character `i` on.
unfoldable pub discarded : (fuel i non_copied_char : ℕ) → (ℕ → ℕ) → Option ℕ
discarded zero i non_copied_char input = none
discarded (suc fuel) i non_copied_char input =
    let rest = discarded fuel (i + 1) (non_copied_char + 1) input in
    if not (is_newline (input i)) then rest else some non_copied_char

abbrev pub and_memory : Option ℕ → Memory → Option (ℕ × Memory)
and_memory none m = none
and_memory (some non_copied_char) m = some (non_copied_char, m)

-- What follows the first loop.
abbrev pub end_line : (fuel buff : ℕ) → (ℕ → ℕ) → Option (ℕ × Memory) → Option (ℕ × Memory)
end_line fuel buff input none = none
end_line fuel buff input (some (i, m)) =
    and_memory (discarded fuel i 0 input) (update m (buff + (i + 1)) 0)

-- The number of characters discarded, and the memory.
unfoldable pub uart_get_string : (fuel buff size : ℕ) → (ℕ → ℕ) → Memory → Option (ℕ × Memory)
uart_get_string fuel buff size input m = end_line fuel buff input (kept fuel 0 buff size input m)
