-- ===== src/Proc/Queue/Update.antt =====
-- Writes to a descriptor that leave the queues in order.
use sysres_os.Base.{ℕ, ◌<◌, ◌≡◌, refl, true, List, arith, lt→ltb}
use sysres_os.Proc.State.{Proc, Sys, max_proc, is_runnable}
use sysres_os.Proc.Run.{done, change, update}
use sysres_os.Proc.Queue.Inv.{IsQueued, SameQueues, IsQueued-congr}

-- The state after a write to slot `p`.
abbrev pub written : Sys → ℕ → Proc → Sys
written s p r = record s { procs = update s.procs p r }

pub change_lem :
    (s : Sys) (p : ℕ) (f : Proc → Proc)
    → p < max_proc
    → change p f s ≡ done tt (written s p (f (s.procs p)))
unfolding change
change_lem s p f h = rw (lt→ltb p max_proc h)

-- The new descriptor `r'` is queued where the old one `r` was.
pub record Keeps (r r' : Proc) : Type 0 where
  pub runnable : is_runnable r'.state ≡ is_runnable r.state
  pub prio : is_runnable r.state ≡ true → r'.priority ≡ r.priority
  pub next : is_runnable r.state ≡ true → r'.next_same_prio ≡ r.next_same_prio
  pub prev : is_runnable r.state ≡ true → r'.prev_same_prio ≡ r.prev_same_prio

module _ (s : Sys) (p : ℕ) (r : Proc) (keeps : Keeps (s.procs p) r) where
  SameQueues-written : SameQueues s (written s p r)
  SameQueues-written = record {
    same_runs = λ x. ground (arith, keeps.runnable);
    same_prio = λ x h. ground (arith, keeps.prio);
    same_next = λ x h. ground (arith, keeps.next);
    same_prev = λ x h. ground (arith, keeps.prev);
    same_heads = refl;
    same_counts = refl;
    same_total = refl;
  }

  pub IsQueued-written : (q : ℕ → List ℕ) → IsQueued s q → IsQueued (written s p r) q
  IsQueued-written q v = IsQueued-congr s (written s p r) SameQueues-written q v
