-- ===== src/Step.antt =====
-- Commands over a state, with the ways in which they may not return.
use sysres_os.Base.{Bool, if◌then◌else◌, Option, none, some, true, false}

-- A failed assertion panics, a loop out of fuel is stuck, and an index out of range faults.
pub data Outcome (S A : Type 0) : Type 0 where
  panics : Outcome S A
  stuck : Outcome S A
  faults : Outcome S A
  returns : A → S → Outcome S A

abbrev pub Action : Type 0 → Type 0 → Type 0
Action S A = S → Outcome S A

module _ {S : Type 0} where
  infixl 5 ◌>>=◌ ◌>>◌
  -- What follows an action that returned.
  abbrev pub onward : {A B : Type 0} → Outcome S A → (A → Action S B) → Outcome S B
  onward panics next = panics
  onward stuck next = stuck
  onward faults next = faults
  onward (returns a s) next = next a s

  abbrev pub ◌>>=◌ : {A B : Type 0} → Action S A → (A → Action S B) → Action S B
  before >>= next = λ s. onward (before s) next

  abbrev pub ◌>>◌ : {A B : Type 0} → Action S A → Action S B → Action S B
  before >> after = before >>= λ _. after

  abbrev pub give : {A : Type 0} → A → Action S A
  give a = returns a

  abbrev pub nothing : Action S (Unit {0})
  nothing = returns tt

  abbrev pub state : Action S S
  state s = returns s s

  abbrev pub revise : (S → S) → Action S (Unit {0})
  revise f s = returns tt (f s)

  abbrev pub require : Bool → Action S (Unit {0})
  require b s = if b then returns tt s else panics

  abbrev pub within : Bool → Action S (Unit {0})
  within b s = if b then returns tt s else faults

  -- The result of a loop that may run out of fuel.
  abbrev pub finished : {A : Type 0} → Option A → Action S A
  finished none s = stuck
  finished (some a) s = returns a s

-- Whether an action ended with enough fuel.
abbrev pub is_settled : {S A : Type 0} → Outcome S A → Bool
is_settled stuck = false
is_settled panics = true
is_settled faults = true
is_settled (returns a s) = true
