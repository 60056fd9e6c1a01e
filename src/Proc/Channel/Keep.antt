-- ===== src/Proc/Channel/Keep.antt =====
-- The message system calls keep the process table sound.
use mathlib.Core.Path.{subst}
use sysres_os.Proc.Search.First.{IsFirst, Found, find_from-Found}
use sysres_os.Base.{refl, ℕ, ◌<◌, ◌≤◌, ◌≡◌, true, false, Option, none, some, arith}
use sysres_os.Proc.State.{
  Proc, Sys, max_proc, n_prio, is_sending_ch, is_listening_ch, is_free, is_kernel, is_wait_listener,
  buff_size,
}
use sysres_os.Proc.Run.{done}
use sysres_os.Proc.Descriptor.{reg}
use sysres_os.Proc.Queue.Inv.{runs}
use sysres_os.Proc.Search.{find_from}
use sysres_os.Proc.Channel.{
  syscall_send, syscall_receive, syscall_acknowledge, note_request, note_zone, receive_message,
  message_sent, receive_ack, ack_sent,
}
use sysres_os.Proc.Channel.Connect.{connection}
use sysres_os.Proc.Channel.Send.{send_outcome, syscall_send-refines}
use sysres_os.Proc.Channel.Receive.{receive_outcome, listening, waits_for, syscall_receive-refines}
use sysres_os.Proc.Channel.Acknowledge.{ack_outcome, syscall_acknowledge-refines}
use sysres_os.Proc.Sound.{IsOrderly, AreOrderly, IsSound, IsSound-Yields}

AreOrderly-connection :
    (g : ℕ → Proc) (i p : ℕ)
    → AreOrderly g
    → i < max_proc
    → p < max_proc
    → is_free (g i).state ≡ false
    → is_free (g p).state ≡ false
    → is_kernel (g i).state ≡ false
    → is_kernel (g p).state ≡ false
    → AreOrderly (λ x. connection g i p x)
unfolding receive_message message_sent
AreOrderly-connection g i p o hi hp fi fp ki kp x hx = ground (arith, o x hx, o i hi, o p hp)

module _ (s : Sys) (sound : IsSound s) (hp : s.last_pid < max_proc)
    (on : runs s s.last_pid ≡ true) where
  abbrev p : ℕ
  p = s.last_pid

  pub listening_prio :
      (t : ℕ)
      → t < max_proc
      → is_listening_ch (s.procs t).state ≡ true
      → (s.procs t).priority < n_prio
  listening_prio t ht h = (sound.orderly t ht).prio (ground arith)

  pub sending_prio :
      (t : ℕ)
      → t < max_proc
      → is_sending_ch (s.procs t).state ≡ true
      → (s.procs t).priority < n_prio
  sending_prio t ht h = (sound.orderly t ht).prio (ground arith)

  -- The fields of `IsOrderly` after a send, one by one.
  module _ (x : ℕ) (o : IsOrderly (s.procs x)) where
    prio-send :
        is_free (send_outcome s.procs p x).state ≡ false
        → (send_outcome s.procs p x).priority < n_prio
    unfolding note_request receive_message message_sent
    prio-send f = ground (arith, o.prio)

    ready-send :
        is_free (send_outcome s.procs p x).state ≡ false
        → is_kernel (send_outcome s.procs p x).state ≡ false
        → (send_outcome s.procs p x).initialized ≡ true
    unfolding note_request receive_message message_sent
    ready-send f n = ground (arith, o.ready)

    used-send :
        (s.procs p).buffer.used_size ≤ reg (s.procs p) 2
        → is_wait_listener (send_outcome s.procs p x).state ≡ true
        → (send_outcome s.procs p x).buffer.used_size
          ≤ (send_outcome s.procs p x).sender_data.send_size
    unfolding note_request receive_message message_sent
    used-send used f = ground (arith, o.used)

    small-send :
        is_wait_listener (send_outcome s.procs p x).state ≡ true
        → (send_outcome s.procs p x).sender_data.send_size ≤ buff_size
    unfolding note_request receive_message message_sent
    small-send f = ground (arith, o.small)

  pub AreOrderly-send :
      (s.procs p).buffer.used_size ≤ reg (s.procs p) 2 → AreOrderly (send_outcome s.procs p)
  AreOrderly-send used x hx =
      let o = sound.orderly x hx in
      record {
        prio = prio-send x o;
        ready = ready-send x o;
        used = used-send x o used;
        small = small-send x o;
      }

  AreOrderly-listening : AreOrderly (listening s.procs p)
  unfolding note_zone
  AreOrderly-listening x hx = ground (arith, sound.orderly x hx, sound.orderly p hp)

  -- `syscall_send` by a running process whose buffer holds at most its message returns, and leaves a
  -- sound state.
  pub syscall_send-IsSound :
      (s.procs p).buffer.used_size ≤ reg (s.procs p) 2
      → (s' : Sys) × (syscall_send s ≡ done tt s') × IsSound s'
  syscall_send-IsSound used =
      let (s', run, y) =
        syscall_send-refines s sound.queues sound.queued hp on used listening_prio in
      (s', run, IsSound-Yields s _ s' y (AreOrderly-send used))

  pub AreOrderly-receive :
      (o : Option ℕ)
      → find_from (waits_for (listening s.procs p) (s.procs p).pid) max_proc 0 ≡ o
      → AreOrderly (receive_outcome s.procs p)
  AreOrderly-receive none e x hx = rw (e, receive_outcome) (AreOrderly-listening x hx)
  AreOrderly-receive (some i) e x hx =
      let first : IsFirst (waits_for (listening s.procs p) (s.procs p).pid) max_proc 0 i =
        subst (Found (waits_for (listening s.procs p) (s.procs p).pid) max_proc 0) e
          (find_from-Found (waits_for (listening s.procs p) (s.procs p).pid) max_proc 0) in
      rw (e, receive_outcome)
        (AreOrderly-connection (listening s.procs p) i p AreOrderly-listening
          (omega (arith, first.below)) hp (ground (arith, first.passes)) (ground arith)
          (ground (arith, first.passes)) (ground arith) x hx)

  -- `syscall_receive` by a running process returns, and leaves a sound state.
  pub syscall_receive-IsSound : (s' : Sys) × (syscall_receive s ≡ done tt s') × IsSound s'
  syscall_receive-IsSound =
      let (s', run, y) = syscall_receive-refines s sound hp on in
      (s', run, IsSound-Yields s _ s' y (AreOrderly-receive _ refl))

  pub AreOrderly-ack :
      (s.procs p).receiver_data.source_pid < max_proc → AreOrderly (ack_outcome s.procs p)
  unfolding receive_ack ack_sent
  AreOrderly-ack source x hx = ground (
    arith,
    sound.orderly x hx,
    sound.orderly p hp,
    sound.orderly (s.procs p).receiver_data.source_pid source,
  )

  -- `syscall_acknowledge` by a running process returns, and leaves a sound state, if its source is a
  -- process slot, its buffer holds at most the answer, and its source is not blocked, unacknowledged,
  -- by a message to another process.
  pub syscall_acknowledge-IsSound :
      (s.procs p).receiver_data.source_pid < max_proc
      → (s.procs p).buffer.used_size ≤ reg (s.procs p) 2
      → (is_sending_ch (s.procs (s.procs p).receiver_data.source_pid).state ≡ true
          → (s.procs (s.procs p).receiver_data.source_pid).sender_data.acknowledged ≡ false
          → (s.procs (s.procs p).receiver_data.source_pid).sender_data.target_pid ≡ (s.procs p).pid)
      → (s' : Sys) × (syscall_acknowledge s ≡ done tt s') × IsSound s'
  syscall_acknowledge-IsSound source used own =
      let (s', run, y) =
        syscall_acknowledge-refines s sound.queues sound.queued hp on source sending_prio used
          own in
      (s', run, IsSound-Yields s _ s' y (AreOrderly-ack source))
