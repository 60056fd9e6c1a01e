-- ===== src/Proc/Run.antt =====
-- Kernel code as commands over the state, with the ways in which it may not return.
use sysres_os.Base.{ℕ, Bool, Option, none, some, ltb, ◌==◌, if◌then◌else◌}
use sysres_os.Proc.State.{Proc, Sys, max_proc, n_prio}

-- `fault` is undefined behaviour: NULL dereferenced, or an index out of range. `panic` is a failed
-- assertion or a call of `abort`. `halted` is a call of `halt`. `stuck` is a loop out of fuel.
pub data Run (A : Type 0) : Type 0 where
  done : A → Sys → Run A
  fault : Run A
  panic : Run A
  halted : Run A
  stuck : Run A

abbrev pub Cmd : Type 0 → Type 0
Cmd A = Sys → Run A

abbrev pub pure : {A : Type 0} → A → Cmd A
pure = done

module _ {A B : Type 0} where
  abbrev pub and_then : Run A → (A → Cmd B) → Run B
  and_then (done a s) k = k a s
  and_then fault k = fault
  and_then panic k = panic
  and_then halted k = halted
  and_then stuck k = stuck

  infixl 5 ◌>>=◌ ◌>>◌
  abbrev pub ◌>>=◌ : Cmd A → (A → Cmd B) → Cmd B
  m >>= k = λ s. and_then (m s) k

  abbrev pub ◌>>◌ : Cmd A → Cmd B → Cmd B
  m >> n = m >>= λ _. n

abbrev pub skip : Cmd (Unit {0})
skip = done tt

abbrev pub get : Cmd Sys
get s = done s s

abbrev pub modify : (Sys → Sys) → Cmd (Unit {0})
modify f s = done tt (f s)

abbrev pub assert : Bool → Cmd (Unit {0})
assert b s = if b then done tt s else panic

-- `f` with the value `v` at `i`.
abbrev pub update {ℓ} : {A : Type ℓ} → (ℕ → A) → ℕ → A → ℕ → A
update f i v = λ j. if j == i then v else f j

-- `*p`, for a descriptor.
unfoldable pub load : ℕ → Cmd Proc
load p s = if ltb p max_proc then done (s.procs p) s else fault

-- A write through `p`.
unfoldable pub change : ℕ → (Proc → Proc) → Cmd (Unit {0})
change p f s =
    if ltb p max_proc
    then done tt (record s { procs = update s.procs p (f (s.procs p)) })
    else fault

-- The address that a pointer holds, which must not be NULL.
abbrev pub deref : Option ℕ → Cmd ℕ
deref none s = fault
deref (some p) s = done p s

-- An index into `prio_proc` or `prio_proc_n`.
abbrev pub check_prio : ℕ → Cmd (Unit {0})
check_prio k s = if ltb k n_prio then done tt s else fault
