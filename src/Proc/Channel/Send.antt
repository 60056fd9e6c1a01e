-- ===== src/Proc/Channel/Send.antt =====
-- `syscall_send` on every branch.
use sysres_os.Base.{
  ℕ, ◌<◌, ◌≤◌, ◌≡◌, refl, Bool, true, false, not, List, ◌==◌, ◌&&◌, arith, if◌then◌else◌, lt→ltb,
  ltb, Bool-cases, inl, inr, to_int,
}
use sysres_os.Proc.State.{Proc, Sys, wait_listener, max_proc, n_prio, buff_size, is_listening_ch}
use sysres_os.Proc.Errno
use sysres_os.Proc.Run.{done, load, change, update}
use sysres_os.Proc.Descriptor.{reg, failed, fail}
use sysres_os.Proc.Queue.{change_state}
use sysres_os.Proc.Queue.Inv.{IsQueued, runs}
use sysres_os.Proc.Queue.Update.{written, IsQueued-written}
use sysres_os.Proc.Queue.Ends.{
  Ends, start, then_change_state, with_state, Ends-by, fail-Ends, Ends-written,
}
use sysres_os.Proc.Channel.{note_request, syscall_send, handle_channel_connection}
use sysres_os.Proc.Channel.Connect.{connection, connection-refines}

-- The sender with the request in its registers noted: register 0 is the target, register 2 the size
-- of the message, and registers 3 and 4 the zone for the answer and its size.
abbrev pub requested : Proc → Proc
requested r = record r {
  sender_data = record {
    target_pid = to_int (reg r 0);
    send_size = reg r 2;
    ack_data = reg r 3;
    ack_size = reg r 4;
    acknowledged = r.sender_data.acknowledged;
  };
}

-- The descriptors after process `p` sends, up to queue links.
abbrev pub send_outcome : (ℕ → Proc) → ℕ → ℕ → Proc
send_outcome g p x =
    let r = g p in
    let t = to_int (reg r 0) in
    let g' = update g p (requested r) in
    if not (ltb t max_proc)
    then update g p (failed Errno.invalid_pid r) x
    else if not (is_listening_ch (g t).state) && (reg r 5 == 0)
    then update g p (failed Errno.target_not_listening r) x
    else if ltb buff_size (reg r 2)
    then update g p (failed Errno.send_data_too_large r) x
    else if is_listening_ch (g t).state
    then connection g' p t x
    else with_state p wait_listener g' x

module _ (s : Sys) (q : ℕ → List ℕ) (v : IsQueued s q) (hp : s.last_pid < max_proc)
    (on : runs s s.last_pid ≡ true)
    (used : (s.procs s.last_pid).buffer.used_size ≤ reg (s.procs s.last_pid) 2)
    (prio : (t : ℕ)
      → t < max_proc
      → is_listening_ch (s.procs t).state ≡ true
      → (s.procs t).priority < n_prio) where
  abbrev p : ℕ
  p = s.last_pid

  abbrev r : Proc
  r = s.procs p

  abbrev target : ℕ
  target = to_int (reg r 0)

  -- The state once the request is noted.
  abbrev noted : Sys
  noted = written s p (requested r)

  IsQueued-noted : IsQueued noted q
  IsQueued-noted =
      IsQueued-written s p _
        (record { runnable = refl; prio = λ h. refl; next = λ h. refl; prev = λ h. refl }) q v

  abbrev listens : Bool
  listens = is_listening_ch (s.procs target).state

  send_invalid : ltb target max_proc ≡ false → syscall_send s ≡ fail p Errno.invalid_pid s
  unfolding syscall_send load
  send_invalid bad = ground (arith, lt→ltb p max_proc hp)

  send_deaf :
      ltb target max_proc ≡ true
      → (not listens && (reg r 5 == 0)) ≡ true
      → syscall_send s ≡ fail p Errno.target_not_listening s
  unfolding syscall_send load
  send_deaf good deaf = ground (arith, lt→ltb p max_proc hp)

  send_long :
      ltb target max_proc ≡ true
      → (not listens && (reg r 5 == 0)) ≡ false
      → ltb buff_size (reg r 2) ≡ true
      → syscall_send s ≡ fail p Errno.send_data_too_large s
  unfolding syscall_send load
  send_long good waits long = ground (arith, lt→ltb p max_proc hp)

  send_heard :
      ltb target max_proc ≡ true
      → ltb buff_size (reg r 2) ≡ false
      → listens ≡ true
      → syscall_send s ≡ handle_channel_connection p target noted
  unfolding syscall_send load change note_request
  send_heard good fits hears = ground (arith, lt→ltb p max_proc hp)

  send_waits :
      ltb target max_proc ≡ true
      → (not listens && (reg r 5 == 0)) ≡ false
      → ltb buff_size (reg r 2) ≡ false
      → listens ≡ false
      → syscall_send s ≡ change_state p wait_listener noted
  unfolding syscall_send load change note_request
  send_waits good waits fits silent = ground (arith, lt→ltb p max_proc hp)

  connects :
      ltb target max_proc ≡ true
      → listens ≡ true
      → ltb buff_size (reg r 2) ≡ false
      → Ends (handle_channel_connection p target noted) s (connection noted.procs p target)
  connects good hears fits = Ends-written s p (requested r) (
      connection-refines noted p target q IsQueued-noted hp (ground arith) (ground arith)
        (ground arith) (ground arith) (ground (arith, prio target)))

  waits_listener :
      Ends (change_state p wait_listener noted) s (with_state p wait_listener noted.procs)
  waits_listener = Ends-written s p (requested r) (
      then_change_state (done tt noted) noted noted.procs (start noted q IsQueued-noted) p hp
        wait_listener (λ off. cc))

  -- `syscall_send` returns, and the descriptors are those of `send_outcome`: a pid out of range, a
  -- target that does not listen to a sender that does not wait, and a message above the buffer's
  -- size each give the sender its error and change nothing else; a listening target is connected,
  -- and otherwise the sender waits for a listener. The run queues stay in order. The sender runs,
  -- its buffer holds at most the message, and a listening process has a priority in range.
  pub syscall_send-refines : Ends (syscall_send s) s (send_outcome s.procs p)
  syscall_send-refines = elim (Bool-cases (ltb target max_proc)) [
    | inr bad ↦
        Ends-by (send_outcome s.procs p) (send_invalid bad) (fail-Ends s q p Errno.invalid_pid v hp)
          (λ x. rw bad)
    | inl good ↦ elim (Bool-cases (not listens && (reg r 5 == 0))) [
      | inl deaf ↦
          Ends-by (send_outcome s.procs p) (send_deaf good deaf)
            (fail-Ends s q p Errno.target_not_listening v hp) (λ x. rw (good, deaf))
      | inr waits ↦ elim (Bool-cases (ltb buff_size (reg r 2))) [
        | inl long ↦
            Ends-by (send_outcome s.procs p) (send_long good waits long)
              (fail-Ends s q p Errno.send_data_too_large v hp) (λ x. rw (good, waits, long))
        | inr fits ↦ elim (Bool-cases listens) [
          | inl hears ↦
              Ends-by (send_outcome s.procs p) (send_heard good fits hears)
                (connects good hears fits) (λ x. ground arith)
          | inr silent ↦
              Ends-by (send_outcome s.procs p) (send_waits good waits fits silent) waits_listener
                (λ x. ground arith)
        ]
      ]
    ]
  ]
