-- ===== src/Proc/Queue.antt =====
-- The run queues: `change_state` of src/proc/proc.c keeps one circular doubly linked list of the
-- runnable processes for each priority, with a head pointer and two counters.
pub mod Inv
pub mod Leave
pub mod Enter
pub mod Outcome
pub mod Leaving
pub mod Entering
pub mod Change
pub mod Update
pub mod Ends
use sysres_os.Base.{
  ℕ, ◌+◌, ◌-◌, ◌%◌, Bool, true, false, not, Option, none, some, ◌==◌, ◌&&◌, if◌then◌else◌, add32,
  sub32, same_ptr,
}
use sysres_os.Proc.State.{Proc, Sys, ProcState, is_runnable}
use sysres_os.Proc.Run.{
  Cmd, ◌>>=◌, ◌>>◌, skip, get, modify, load, change, deref, check_prio, update,
}

-- A process leaves its queue.
unfoldable pub leave_queue : ℕ → Cmd (Unit {0})
leave_queue p = do
  proc ← load p
  let prio = proc.priority
  check_prio prio
  s ← get
  next ← deref proc.next_same_prio
  prev ← deref proc.prev_same_prio
  modify (λ t.
      if same_ptr (s.prio_proc prio) p
      then record t { prio_proc = update t.prio_proc prio (if next == p then none else some next) }
      else t)
  change prev (λ r. record r { next_same_prio = some next })
  change next (λ r. record r { prev_same_prio = some prev })
  modify (λ t. record t {
    n_runnable_procs = sub32 t.n_runnable_procs 1;
    prio_proc_n = update t.prio_proc_n prio (sub32 (t.prio_proc_n prio) 1);
  })

-- A process goes in front of its queue.
unfoldable pub enter_queue : ℕ → Cmd (Unit {0})
enter_queue p = do
  proc ← load p
  let prio = proc.priority
  check_prio prio
  s ← get
  elim (s.prio_proc prio) [
    | none ↦ change p (λ r. record r { next_same_prio = some p; prev_same_prio = some p })
    | some h ↦ do
      head ← load h
      change p (λ r. record r { next_same_prio = some h; prev_same_prio = head.prev_same_prio })
      change h (λ r. record r { prev_same_prio = some p })
      proc' ← load p
      prev ← deref proc'.prev_same_prio
      change prev (λ r. record r { next_same_prio = some p })
  ]
  modify (λ t. record t {
    prio_proc = update t.prio_proc prio (some p);
    n_runnable_procs = add32 t.n_runnable_procs 1;
    prio_proc_n = update t.prio_proc_n prio (add32 (t.prio_proc_n prio) 1);
  })

unfoldable pub set_state : ℕ → ProcState → Cmd (Unit {0})
set_state p new_state = change p (λ r. record r { state = new_state })

unfoldable pub change_state : ℕ → ProcState → Cmd (Unit {0})
change_state p new_state = do
  proc ← load p
  if is_runnable proc.state && not (is_runnable new_state)
      then leave_queue p
      else if not (is_runnable proc.state) && is_runnable new_state
      then enter_queue p
      else skip
  set_state p new_state
