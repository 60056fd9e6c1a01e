-- ===== src/Console/Format.antt =====
-- The formats of printf. `argument k` is the argument that `va_arg` gives when it is called for the
-- `k`th time, as 64 bits, and `string` gives the characters at an address.
pub mod Unbuffered
use sysres_os.Base.{
  ℕ, zero, suc, ◌+◌, ◌-◌, ◌%◌, Bool, true, false, not, ltb, leb, ◌==◌, ◌&&◌, if◌then◌else◌, Option,
  none, some, List, [], ◌∷◌, ◌++◌, length, of_int, to_int, add32, minus_one32,
}
use sysres_os.Bytes.{Memory}
use sysres_os.Console.{Printed}

abbrev pub io_buff_size : ℕ
io_buff_size = 500

-- The characters written so far and the local variables. `used` counts the arguments that were taken.
pub record Out : Type 0 where
  pub text : List ℕ
  pub written : ℕ
  pub buff : List ℕ
  pub used : ℕ

-- What one round of the loop comes to.
pub data Round : Type 0 where
  ends : Printed → Round
  aborts : Round
  goes_on : ℕ → Out → Round

pub data Result : Type 0 where
  printed : Printed → Result
  panicked : Result
  out_of_fuel : Result

-- `\n`, tabulator and two spaces.
abbrev pub new_label_line : List ℕ
new_label_line = 10 ∷ 9 ∷ 32 ∷ 32 ∷ []

module _ (format : Memory) (argument : ℕ → ℕ) (string : ℕ → List ℕ) (label : Bool)
    (puts : List ℕ → ℕ) (put_int : ℕ → ℕ → Bool → Bool → Printed) where
  -- `puts` writes its text and gives a number.
  abbrev pub put_text : List ℕ → Out → Out
  put_text cs o = record o { text = o.text ++ cs; written = add32 o.written (puts cs) }

  abbrev pub flushed : Out → Out
  flushed o = record (put_text o.buff o) { buff = [] }

  -- A character goes to the buffer, which is written when it is full. The result is not counted.
  unfoldable pub buffered : ℕ → Out → Out
  buffered c o =
      if length o.buff + 1 == io_buff_size - 1
      then record o { text = o.text ++ o.buff ++ c ∷ []; buff = [] }
      else record o { buff = o.buff ++ c ∷ [] }

  -- What a conversion writes and how many arguments it takes.
  unfoldable pub convert : (letter argument : ℕ) → Option (Printed × ℕ)
  convert letter a =
      if letter == 37
      then some (record { text = 37 ∷ []; written = 0 }, 0)
      else if letter == 100
      then some (put_int (of_int (to_int a)) 10 false false, 1)
      else if letter == 88
      then some (put_int (of_int (to_int a)) 16 false true, 1)
      else if letter == 111
      then some (put_int a 8 true false, 1)
      else if letter == 117
      then some (put_int a 10 true false, 1)
      else if letter == 120
      then some (put_int a 16 true false, 1)
      else if letter == 98
      then some (put_int a 2 true false, 1)
      else if letter == 99
      then some (record { text = a % 256 ∷ []; written = 1 }, 1)
      else if letter == 115
      then some (record { text = string a; written = puts (string a) }, 1)
      else none

  abbrev pub converted : ℕ → Out → Option (Printed × ℕ) → Round
  converted i o none = ends (record { text = o.text; written = minus_one32 })
  converted i o (some (p, n)) =
      goes_on (i + 2) (record o {
        text = o.text ++ p.text;
        written = add32 o.written p.written;
        used = o.used + n;
      })

  abbrev pub breaks_line : ℕ → Bool
  breaks_line i = (format i == 10) && (not (format (i + 1) == 0) && label)

  -- The part of a round behind the first test.
  unfoldable pub special : ℕ → Out → Round
  special i o =
      if breaks_line i
      then goes_on (i + 1) (put_text new_label_line o)
      else converted i o (convert (format (i + 1)) (argument o.used))

  unfoldable pub round : ℕ → Out → Round
  round i o =
      if format i == 0
      then (if ltb 0 (length o.buff)
          then (if ltb (length o.buff) (io_buff_size - 1)
              then ends (record { text = (flushed o).text; written = (flushed o).written })
              else aborts)
          else ends (record { text = o.text; written = o.written }))
      else if not (format i == 37) && not (breaks_line i)
      then goes_on (i + 1) (buffered (format i) o)
      else if ltb 0 (length o.buff)
      then (if leb (length o.buff) (io_buff_size - 1) then special i (flushed o) else aborts)
      else special i o

  abbrev pub after_round : (ℕ → Out → Result) → Round → Result
  after_round rest (ends p) = printed p
  after_round rest aborts = panicked
  after_round rest (goes_on i o) = rest i o

  unfoldable pub format_from : (fuel i : ℕ) → Out → Result
  format_from zero i o = out_of_fuel
  format_from (suc fuel) i o = after_round (format_from fuel) (round i o)

  unfoldable pub internal_printf : ℕ → Result
  internal_printf fuel = format_from fuel 0 (record { text = []; written = 0; buff = []; used = 0 })
