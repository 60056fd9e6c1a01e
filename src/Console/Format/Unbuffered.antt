-- ===== src/Console/Format/Unbuffered.antt =====
-- The buffer does not change what is written.
use mathlib.Core.List.{append-nil, append_assoc}
use sysres_os.Base.{
  ℕ, zero, suc, ◌+◌, ◌-◌, ◌<◌, ◌≤◌, ◌≡◌, ◌∙◌, sym, refl, Bool, true, false, not, ltb, leb, ◌==◌,
  ◌&&◌, if◌then◌else◌, Option, none, some, List, [], ◌∷◌, ◌++◌, length, length-append, arith, add32,
  minus_one32, Bool-cases, inl, inr,
}
use sysres_os.Bytes.{Memory}
use sysres_os.Console.{Printed}
use sysres_os.Console.Format.{
  io_buff_size, Out, Round, Result, printed, new_label_line, after_round, put_text, flushed,
  buffered, convert, converted, breaks_line, special, round, format_from, internal_printf,
}

-- The end of a format is at `z`.
pub record EndsAt (format : Memory) (z : ℕ) : Type 0 where
  pub at_end : format z ≡ 0
  pub before : (i : ℕ) → i < z → (format i == 0) ≡ false

no_length : (cs : List ℕ) → ltb 0 (length cs) ≡ false → cs ≡ []
no_length [] h = refl
no_length (c ∷ cs) h = absurd (ground (arith, h))

module _ (format : Memory) (argument : ℕ → ℕ) (string : ℕ → List ℕ) (label : Bool)
    (puts : List ℕ → ℕ) (put_int : ℕ → ℕ → Bool → Bool → Printed) where
  -- What a conversion writes, and what follows.
  abbrev then_text : Option (Printed × ℕ) → (ℕ → List ℕ) → List ℕ
  then_text none rest = []
  then_text (some (p, n)) rest = p.text ++ rest n

  abbrev breaks : ℕ → Bool
  breaks i = breaks_line format argument string label puts put_int i

  abbrev conversion : ℕ → ℕ → Option (Printed × ℕ)
  conversion i used =
      convert format argument string label puts put_int (format (i + 1)) (argument used)

  -- What stands at a `%` or at the end of a line, and what follows by `rest`.
  abbrev special_text : (i used : ℕ) → (ℕ → ℕ → List ℕ) → List ℕ
  special_text i used rest =
      if breaks i
      then new_label_line ++ rest (i + 1) used
      else then_text (conversion i used) (λ n. rest (i + 2) (used + n))

  -- The text of a format, character by character, with `used` arguments taken before.
  unfoldable pub plain_text : (fuel i used : ℕ) → List ℕ
  plain_text zero i used = []
  plain_text (suc fuel) i used =
      if format i == 0
      then []
      else if not (format i == 37) && not (breaks i)
      then format i ∷ plain_text fuel (i + 1) used
      else special_text i used (plain_text fuel)

  abbrev run : ℕ → ℕ → Out → Result
  run = format_from format argument string label puts put_int

  abbrev after : ℕ → Round → Result
  after fuel = after_round format argument string label puts put_int (run fuel)

  -- The result is a text.
  abbrev Prints : Result → List ℕ → Type 0
  Prints r t = (p : Printed) × (r ≡ printed p) × (p.text ≡ t)

  -- What holds of the rounds that follow.
  abbrev Goes : (fuel z : ℕ) → Type 0
  Goes fuel z =
      (i : ℕ) (o : Out)
      → i ≤ z
      → z < i + fuel
      → ltb (length o.buff) (io_buff_size - 1) ≡ true
      → Prints (run fuel i o) (o.text ++ o.buff ++ plain_text fuel i o.used)

  conversion-Prints :
      (fuel z : ℕ)
      → Goes fuel z
      → (i : ℕ) (o : Out) → i + 2 ≤ z
      → z < i + suc fuel
      → o.buff ≡ []
      → (c : Option (Printed × ℕ))
      → Prints
          (after fuel (converted format argument string label puts put_int i o c))
          (o.text ++ then_text c (λ n. plain_text fuel (i + 2) (o.used + n)))
  conversion-Prints fuel z goes i o inside enough empty none = (_, refl, sym (append-nil o.text))
  conversion-Prints fuel z goes i o inside enough empty (some (p, n)) =
      let o' = record o {
        text = o.text ++ p.text;
        written = add32 o.written p.written;
        used = o.used + n;
      } in
      let (q, ran, text) = goes (i + 2) o' inside (omega (arith, enough)) (rw empty refl) in
      (
        q,
        ran,
        text
            ∙ rw (empty, append-nil (o.text ++ p.text))
                (append_assoc o.text p.text (plain_text fuel (i + 2) (o.used + n))),
      )

  no_letter : (a : ℕ) → convert format argument string label puts put_int 0 a ≡ none
  unfolding convert
  no_letter a = refl

  module _ (z : ℕ) (end : EndsAt format z) where
    special-Prints :
        (fuel : ℕ)
        → Goes fuel z
        → (i : ℕ) (o : Out) → i < z
        → z < i + suc fuel
        → o.buff ≡ []
        → Prints
            (after fuel (special format argument string label puts put_int i o))
            (o.text ++ special_text i o.used (plain_text fuel))
    unfolding special
    special-Prints fuel goes i o inside enough empty = elim (Bool-cases (breaks i)) [
      | inl b ↦
          let o' = put_text format argument string label puts put_int new_label_line o in
          let (q, ran, text) =
            goes (i + 1) o' (omega (arith, inside)) (omega (arith, enough)) (rw empty refl) in
          (
            q,
            rw b ran,
            text
                ∙ rw (b, empty, append-nil (o.text ++ new_label_line))
                    (append_assoc o.text new_label_line (plain_text fuel (i + 1) o.used)),
          )
      | inr b ↦ elim (Bool-cases (i + 1 == z)) [
        | inl last ↦
            let at : i + 1 ≡ z = ground arith in
            let letter : conversion i o.used ≡ none =
              rw (at, end.at_end) (no_letter (argument o.used)) in
            (
              record { text = o.text; written = minus_one32 },
              rw (b, letter) refl,
              rw (b, letter) (sym (append-nil o.text)),
            )
        | inr more ↦
            let (q, ran, text) =
              conversion-Prints fuel z goes i o (ground (arith, inside, more)) enough empty
                (conversion i o.used) in
            (q, rw b ran, rw b text)
      ]
    ]

    buffered-Prints :
        (fuel : ℕ)
        → Goes fuel z
        → (i : ℕ) (o : Out) → i < z
        → z < i + suc fuel
        → ltb (length o.buff) (io_buff_size - 1) ≡ true
        → Prints
            (run fuel (i + 1) (buffered format argument string label puts put_int (format i) o))
            (o.text ++ o.buff ++ format i ∷ plain_text fuel (i + 1) o.used)
    unfolding buffered
    buffered-Prints fuel goes i o inside enough room =
        let rest = plain_text fuel (i + 1) o.used in
        let longer : length (o.buff ++ format i ∷ []) ≡ length o.buff + 1 =
          length-append o.buff (format i ∷ []) in
        elim (Bool-cases (length o.buff + 1 == io_buff_size - 1)) [
          | inl full ↦
              let o' = record o { text = o.text ++ o.buff ++ format i ∷ []; buff = [] } in
              let (q, ran, text) =
                goes (i + 1) o' (omega (arith, inside)) (omega (arith, enough)) refl in
              (
                q,
                rw full ran,
                text
                    ∙ rw (append-nil (o.text ++ o.buff ++ format i ∷ []))
                        (append_assoc (o.text ++ o.buff) (format i ∷ []) rest),
              )
          | inr more ↦
              let o' = record o { buff = o.buff ++ format i ∷ [] } in
              let space : ltb (length (o.buff ++ format i ∷ [])) (io_buff_size - 1) ≡ true =
                rw longer (ground (arith, room, more)) in
              let (q, ran, text) =
                goes (i + 1) o' (omega (arith, inside)) (omega (arith, enough)) space in
              (
                q,
                rw more ran,
                text
                    ∙ rw (sym (append_assoc o.text o.buff (format i ∷ [])))
                        (append_assoc (o.text ++ o.buff) (format i ∷ []) rest),
              )
        ]

    format_from-Prints : (fuel : ℕ) → Goes fuel z
    unfolding format_from round plain_text
    format_from-Prints zero i o low enough room = absurd (omega (arith, low, enough))
    format_from-Prints (suc fuel) i o low enough room = elim (Bool-cases (i == z)) [
      | inl e ↦
          let at : i ≡ z = ground arith in
          let stop : (format i == 0) ≡ true = rw (at, end.at_end) refl in
          elim (Bool-cases (ltb 0 (length o.buff))) [
            | inl some_left ↦ (
              record { text = o.text ++ o.buff; written = add32 o.written (puts o.buff) },
              rw (stop, some_left, room) refl,
              rw stop (sym (append-nil (o.text ++ o.buff))),
            )
            | inr none_left ↦ (
              record { text = o.text; written = o.written },
              rw (stop, none_left) refl,
              rw (stop, no_length o.buff none_left, append-nil o.text) (sym (append-nil o.text)),
            )
          ]
      | inr ne ↦
          let inside : i < z = ground (arith, ne, low) in
          let go = end.before i inside in
          elim (Bool-cases (not (format i == 37) && not (breaks i))) [
            | inl plain ↦
                let (q, ran, text) =
                  buffered-Prints fuel (format_from-Prints fuel) i o inside enough room in
                (q, rw (go, plain) ran, rw (go, plain) text)
            | inr other ↦ elim (Bool-cases (ltb 0 (length o.buff))) [
              | inl some_left ↦
                  let fits : leb (length o.buff) (io_buff_size - 1) ≡ true = ground (arith, room) in
                  let (q, ran, text) =
                    special-Prints fuel (format_from-Prints fuel) i
                      (flushed format argument string label puts put_int o) inside enough refl in
                  (q, rw (go, other, some_left, fits) ran, rw (go, other) text)
              | inr none_left ↦
                  let empty = no_length o.buff none_left in
                  let (q, ran, text) =
                    special-Prints fuel (format_from-Prints fuel) i o inside enough empty in
                  (q, rw (go, other, none_left) ran, rw (go, other, empty, append-nil o.text) text)
            ]
          ]
    ]

    -- `internal_printf` ends without a failed assertion, within one round more than the format is long,
    -- and writes what the format says character by character: the buffer changes neither the text nor
    -- its order. A conversion that is not known ends the text.
    pub internal_printf-plain_text :
        (p : Printed) × (internal_printf format argument string label puts put_int (suc z)
          ≡ printed p)
        × (p.text ≡ plain_text (suc z) 0 0)
    unfolding internal_printf
    internal_printf-plain_text =
        format_from-Prints (suc z) 0 (record { text = []; written = 0; buff = []; used = 0 })
          (omega arith) (omega arith) refl
