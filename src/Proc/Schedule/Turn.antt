-- ===== src/Proc/Schedule/Turn.antt =====
-- `schedule` as a whole: it resumes a process, or halts, and keeps the process table steady.
use sysres_os.Base.{ℕ, ◌≡◌, ◌⊎◌, refl, false, Option, none, some, arith, ◌==◌, inl, inr, ◌∙◌, ap}
use sysres_os.Proc.State.{Sys}
use sysres_os.Proc.Run.{Cmd, done, halted}
use sysres_os.Proc.Schedule.{schedule, next_priority, run_priority}
use sysres_os.Proc.Schedule.Check.{print_prio_lists_lem}
use sysres_os.Proc.Schedule.Choice.{IsHead, Serves, next_priority-Serves}
use sysres_os.Proc.Schedule.Resume.{
  resumed, launched, granted, moved, turned, IsQueued-resumed, run_priority_lem,
}
use sysres_os.Proc.Sound.{IsOrderly}
use sysres_os.Proc.Family.Kin.{SameKin, IsKin-congr}
use sysres_os.Proc.Steady.{IsSteady}

module _ (s : Sys) (p x : ℕ) where
  IsOrderly-granted : IsOrderly (s.procs x) → IsOrderly ((granted s p).procs x)
  IsOrderly-granted o = ground (arith, o)

  IsOrderly-launched : IsOrderly (s.procs x) → IsOrderly ((launched s p).procs x)
  unfolding launched
  IsOrderly-launched o = ground (arith, o)

  SameKin-granted : SameKin (s.procs x) ((granted s p).procs x)
  SameKin-granted = record {
    same_free = ground arith;
    same_zombie = λ z. ground arith;
    same_kernel = λ z. ground arith;
    same_pid = ground arith;
    same_next = ground arith;
    same_prev = ground arith;
    same_child = ground arith;
    same_parent = ground arith;
  }

  SameKin-launched : SameKin (s.procs x) ((launched s p).procs x)
  unfolding launched
  SameKin-launched = record {
    same_free = ground arith;
    same_zombie = λ z. ground arith;
    same_kernel = λ z. ground arith;
    same_pid = ground arith;
    same_next = ground arith;
    same_prev = ground arith;
    same_child = ground arith;
    same_parent = ground arith;
  }

-- The system halts, or a process runs: `p`, the head of the queue of the priority `k` that was
-- chosen.
abbrev pub Turn : Sys → ℕ → Type 0
Turn s counter =
    ((s.n_runnable_procs ≡ 0) × (schedule counter s ≡ halted))
    ⊎ ((k p : ℕ) × (next_priority counter s ≡ some k)
        × IsHead s k p
        × (schedule counter s ≡ done tt (resumed s k p))
        × IsSteady (resumed s k p))

module _ (s : Sys) (steady : IsSteady s) (idle : s.curr_pid ≡ 0) (counter : ℕ) where
  resumed-IsSteady : (k p : ℕ) → IsHead s k p → IsSteady (resumed s k p)
  resumed-IsSteady k p head =
      let m = moved s k p in
      let t = granted m p in
      record {
        sound = record {
          queues = turned s steady.sound.queues steady.sound.queued k p head;
          queued = IsQueued-resumed s steady.sound.queues steady.sound.queued k p head;
          orderly = λ x hx.
              IsOrderly-launched t p x (IsOrderly-granted m p x (steady.sound.orderly x hx));
        };
        kin = steady.kin;
        kinned =
            IsKin-congr t.procs (resumed s k p).procs (SameKin-launched t p) steady.kin
              (IsKin-congr s.procs t.procs (SameKin-granted m p) steady.kin steady.kinned);
      }

  runs_head : (k p : ℕ) → IsHead s k p → run_priority k s ≡ done tt (resumed s k p)
  runs_head k p head =
      let user : (p == 0) ≡ false = ground (arith, head.running, steady.kinned.idle) in
      run_priority_lem s steady.sound.queues steady.sound.queued k p head
        (steady.kinned.numbered p head.slot (ground (arith, head.running))) user (ground arith)
        ((steady.sound.orderly p head.slot).ready (ground (arith, head.running))
          (ground (arith, head.running)))

  abbrev follow : Option ℕ → Cmd (Unit {0})
  follow none = λ _. halted
  follow (some k) = run_priority k

  schedule_by : (o : Option ℕ) → next_priority counter s ≡ o → schedule counter s ≡ follow o s
  unfolding schedule
  schedule_by o e =
      rw (print_prio_lists_lem s steady.sound.queues steady.sound.queued) (ap (λ z. follow z s) e)

  chosen-Turn :
      (o : Option ℕ)
      → next_priority counter s ≡ o
      → Serves s steady.sound.queues steady.sound.queued o
      → Turn s counter
  chosen-Turn none e serves = inl (serves, schedule_by none e)
  chosen-Turn (some k) e serves =
      let (p, head) = serves.1 in
      inr (k, p, e, head, schedule_by (some k) e ∙ runs_head k p head, resumed-IsSteady k p head)

  -- From a steady table, in kernel mode, `schedule` either halts the system, exactly if no process is
  -- runnable, or passes all its assertions and resumes the head of the queue of the chosen priority,
  -- with the queue moved on by one, and leaves a steady table.
  pub schedule-Turn : Turn s counter
  schedule-Turn =
      chosen-Turn (next_priority counter s) refl
        (next_priority-Serves s steady.sound.queues steady.sound.queued counter)
