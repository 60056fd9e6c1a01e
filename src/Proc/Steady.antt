-- ===== src/Proc/Steady.antt =====
-- The invariant of the process table that all system calls keep: the queues, the descriptors and the
-- families.
pub mod Trap
use sysres_os.Base.{ℕ, ◌<◌, ◌≡◌, true, List}
use sysres_os.Proc.State.{Proc, Sys, max_proc}
use sysres_os.Proc.Queue.Ends.{Ends, Yields}
use sysres_os.Proc.Run.{Run, done}
use sysres_os.Proc.Sound.{AreOrderly, IsSound, IsSound-Yields}
use sysres_os.Proc.Family.Kin.{IsKin, IsKin-unlinked}

pub record IsSteady (s : Sys) : Type 0 where
  pub sound : IsSound s
  pub kin : ℕ → List ℕ
  pub kinned : IsKin s.procs kin

-- A call that yields orderly descriptors of families in order leaves such a state.
pub IsSteady-Yields :
    (s : Sys) (g : ℕ → Proc) (s' : Sys) (kin : ℕ → List ℕ)
    → Yields s g s'
    → AreOrderly g
    → IsKin g kin
    → IsSteady s'
IsSteady-Yields s g s' kin y o k = record {
  sound = IsSound-Yields s g s' y o;
  kin = kin;
  kinned = IsKin-unlinked g s'.procs kin y.frame k;
}

-- The run returns to the kernel, and leaves a steady state.
abbrev pub Keeps : Sys → Run (Unit {0}) → Type 0
Keeps s r = (s' : Sys) × (r ≡ done tt s') × (s'.curr_pid ≡ s.curr_pid) × IsSteady s'

pub Keeps-Ends :
    (r : Run (Unit {0})) (s : Sys) (g : ℕ → Proc) (kin : ℕ → List ℕ)
    → Ends r s g
    → AreOrderly g
    → IsKin g kin
    → Keeps s r
Keeps-Ends r s g kin (s', run, y) o k = (s', run, y.curr, IsSteady-Yields s g s' kin y o k)
