-- ===== src/Proc/Queue/Outcome.antt =====
-- What `change_state` does: to the queues, and to the rest of the state.
use sysres_os.Base.{ℕ, ◌≡◌, not, none, List, ◌∷◌, ◌==◌, ◌&&◌, if◌then◌else◌, erase}
use sysres_os.Proc.State.{Proc, Sys, ProcState, is_runnable}
use sysres_os.Proc.Run.{done}
use sysres_os.Proc.Queue.{change_state}
use sysres_os.Proc.Queue.Inv.{runs, IsQueued}

-- A descriptor without its queue links.
abbrev pub unlinked : Proc → Proc
unlinked r = record r { next_same_prio = none; prev_same_prio = none }

-- What `change_state p st` does besides the queues: it sets the state of `p`.
pub record Changed (p : ℕ) (st : ProcState) (s s' : Sys) : Type 0 where
  pub frame :
      (x : ℕ)
      → unlinked (s'.procs x)
        ≡ unlinked (if x == p then record (s.procs x) { state = st } else s.procs x)
  pub curr : s'.curr_pid ≡ s.curr_pid
  pub last : s'.last_pid ≡ s.last_pid
  pub alloc : s'.alloc ≡ s.alloc
  pub errno : s'.errno ≡ s.errno

-- The queues after `change_state p st`: `p` is taken out, or put in front, or they stay.
abbrev pub requeue : Sys → ℕ → ProcState → (ℕ → List ℕ) → ℕ → List ℕ
requeue s p st q j =
    if j == (s.procs p).priority
    then (if runs s p && not (is_runnable st)
        then erase p (q j)
        else if not (runs s p) && is_runnable st
        then p ∷ q j
        else q j)
    else q j

abbrev pub Result : ℕ → ProcState → Sys → (ℕ → List ℕ) → Type 0
Result p st s q =
    (s' : Sys) × (change_state p st s ≡ done tt s')
    × IsQueued s' (requeue s p st q)
    × Changed p st s s'
