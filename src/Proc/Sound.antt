-- ===== src/Proc/Sound.antt =====
-- The invariant of the process table that the message system calls keep.
use sysres_os.Base.{ℕ, ◌<◌, ◌≤◌, ◌≡◌, true, false, List, ap}
use sysres_os.Proc.State.{
  Proc, Sys, max_proc, n_prio, buff_size, is_free, is_kernel, is_wait_listener,
}
use sysres_os.Proc.Queue.Inv.{IsQueued}
use sysres_os.Proc.Queue.Outcome.{unlinked}
use sysres_os.Proc.Queue.Ends.{Yields}

-- A process has a priority in range and is initialized, and one that waits for a listener has a message that fits the
-- buffer.
pub record IsOrderly (r : Proc) : Type 0 where
  pub prio : is_free r.state ≡ false → r.priority < n_prio
  pub used : is_wait_listener r.state ≡ true → r.buffer.used_size ≤ r.sender_data.send_size
  pub ready : is_free r.state ≡ false → is_kernel r.state ≡ false → r.initialized ≡ true
  pub small : is_wait_listener r.state ≡ true → r.sender_data.send_size ≤ buff_size

abbrev pub AreOrderly : (ℕ → Proc) → Type 0
AreOrderly g = (x : ℕ) → x < max_proc → IsOrderly (g x)

-- The run queues are in order and every process is orderly.
pub record IsSound (s : Sys) : Type 0 where
  pub queues : ℕ → List ℕ
  pub queued : IsQueued s queues
  pub orderly : AreOrderly s.procs

IsOrderly-congr : (a b : Proc) → unlinked a ≡ unlinked b → IsOrderly b → IsOrderly a
IsOrderly-congr a b e o =
    let state = ap (λ (r : Proc). r.state) e in
    let priority = ap (λ (r : Proc). r.priority) e in
    let initialized = ap (λ (r : Proc). r.initialized) e in
    let used_size = ap (λ (r : Proc). r.buffer.used_size) e in
    let send_size = ap (λ (r : Proc). r.sender_data.send_size) e in
    record {
      prio = λ h. rw priority (o.prio (rw (← state) h));
      ready = λ h n. rw initialized (o.ready (rw (← state) h) (rw (← state) n));
      used = λ h. rw (used_size, send_size) (o.used (rw (← state) h));
      small = λ h. rw send_size (o.small (rw (← state) h));
    }

pub IsSound-Yields : (s : Sys) (g : ℕ → Proc) (s' : Sys) → Yields s g s' → AreOrderly g → IsSound s'
IsSound-Yields s g s' y o = record {
  queues = y.queues;
  queued = y.queued;
  orderly = λ x h. IsOrderly-congr (s'.procs x) (g x) (y.frame x) (o x h);
}
