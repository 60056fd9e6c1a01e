-- ===== src/Proc/Channel/Steady.antt =====
-- The message system calls keep the process table steady.
use mathlib.Core.Path.{subst}
use sysres_os.Base.{ℕ, ◌<◌, ◌≤◌, ◌≡◌, refl, true, false, Option, none, some, arith}
use sysres_os.Proc.State.{Proc, Sys, max_proc, is_sending_ch, is_free, is_zombie, is_kernel}
use sysres_os.Proc.Descriptor.{reg}
use sysres_os.Proc.Search.{find_from}
use sysres_os.Proc.Search.First.{IsFirst, Found, find_from-Found}
use sysres_os.Proc.Queue.Inv.{runs}
use sysres_os.Proc.Channel.{
  syscall_send, syscall_receive, syscall_acknowledge, note_request, note_zone, receive_message,
  message_sent, receive_ack, ack_sent,
}
use sysres_os.Proc.Channel.Keep.{
  listening_prio, sending_prio, AreOrderly-send, AreOrderly-receive, AreOrderly-ack,
}
use sysres_os.Proc.Channel.Connect.{connection}
use sysres_os.Proc.Channel.Send.{send_outcome, syscall_send-refines}
use sysres_os.Proc.Channel.Receive.{receive_outcome, listening, waits_for, syscall_receive-refines}
use sysres_os.Proc.Channel.Acknowledge.{ack_outcome, syscall_acknowledge-refines}
use sysres_os.Proc.Family.Kin.{IsKin, SameKin, IsKin-congr}
use sysres_os.Proc.Steady.{IsSteady, Keeps, Keeps-Ends}

-- The numbers and links of the families, and whether a process has ended.
SameKin-connection :
    (g : ℕ → Proc) (i p x : ℕ)
    → is_free (g i).state ≡ false
    → is_free (g p).state ≡ false
    → is_zombie (g i).state ≡ false
    → is_zombie (g p).state ≡ false
    → is_kernel (g i).state ≡ false
    → is_kernel (g p).state ≡ false
    → SameKin (g x) (connection g i p x)
unfolding receive_message message_sent
SameKin-connection g i p x fi fp zi zp ki kp = record {
  same_free = ground arith;
  same_zombie = λ z. ground arith;
  same_kernel = λ z. ground arith;
  same_pid = ground arith;
  same_next = ground arith;
  same_prev = ground arith;
  same_child = ground arith;
  same_parent = ground arith;
}

module _ (s : Sys) (p : ℕ) (on : runs s p ≡ true) (x : ℕ) where
  SameKin-send : SameKin (s.procs x) (send_outcome s.procs p x)
  unfolding note_request receive_message message_sent
  SameKin-send = record {
    same_free = ground arith;
    same_zombie = λ z. ground arith;
    same_kernel = λ z. ground arith;
    same_pid = ground arith;
    same_next = ground arith;
    same_prev = ground arith;
    same_child = ground arith;
    same_parent = ground arith;
  }

  SameKin-listening : SameKin (s.procs x) (listening s.procs p x)
  unfolding note_zone
  SameKin-listening = record {
    same_free = ground arith;
    same_zombie = λ z. ground arith;
    same_kernel = λ z. ground arith;
    same_pid = ground arith;
    same_next = ground arith;
    same_prev = ground arith;
    same_child = ground arith;
    same_parent = ground arith;
  }

  SameKin-ack : SameKin (s.procs x) (ack_outcome s.procs p x)
  unfolding receive_ack ack_sent
  SameKin-ack = record {
    same_free = ground arith;
    same_zombie = λ z. ground arith;
    same_kernel = λ z. ground arith;
    same_pid = ground arith;
    same_next = ground arith;
    same_prev = ground arith;
    same_child = ground arith;
    same_parent = ground arith;
  }

module _ (s : Sys) (steady : IsSteady s) (hp : s.last_pid < max_proc)
    (on : runs s s.last_pid ≡ true) where
  abbrev p : ℕ
  p = s.last_pid

  pub syscall_send-Keeps :
      (s.procs p).buffer.used_size ≤ reg (s.procs p) 2 → Keeps s (syscall_send s)
  syscall_send-Keeps used =
      Keeps-Ends _ s _ steady.kin
        (syscall_send-refines s steady.sound.queues steady.sound.queued hp on used
          (listening_prio s steady.sound hp on))
        (AreOrderly-send s steady.sound hp on used)
        (IsKin-congr s.procs _ (SameKin-send s p on) steady.kin steady.kinned)

  IsKin-receive :
      (o : Option ℕ)
      → find_from (waits_for (listening s.procs p) (s.procs p).pid) max_proc 0 ≡ o
      → IsKin (receive_outcome s.procs p) steady.kin
  IsKin-receive none e =
      rw (receive_outcome, e)
        (IsKin-congr s.procs _ (SameKin-listening s p on) steady.kin steady.kinned)
  IsKin-receive (some i) e =
      let first : IsFirst (waits_for (listening s.procs p) (s.procs p).pid) max_proc 0 i =
        subst (Found (waits_for (listening s.procs p) (s.procs p).pid) max_proc 0) e
          (find_from-Found (waits_for (listening s.procs p) (s.procs p).pid) max_proc 0) in
      rw (receive_outcome, e)
        (IsKin-congr (listening s.procs p) _
          (λ x.
            SameKin-connection (listening s.procs p) i p x (ground (arith, first.passes))
              (ground arith) (ground (arith, first.passes)) (ground arith)
              (ground (arith, first.passes)) (ground arith))
          steady.kin (IsKin-congr s.procs _ (SameKin-listening s p on) steady.kin steady.kinned))

  pub syscall_receive-Keeps : Keeps s (syscall_receive s)
  syscall_receive-Keeps =
      Keeps-Ends _ s _ steady.kin (syscall_receive-refines s steady.sound hp on)
        (AreOrderly-receive s steady.sound hp on _ refl) (IsKin-receive _ refl)

  pub syscall_acknowledge-Keeps :
      (s.procs p).receiver_data.source_pid < max_proc
      → (s.procs p).buffer.used_size ≤ reg (s.procs p) 2
      → (is_sending_ch (s.procs (s.procs p).receiver_data.source_pid).state ≡ true
          → (s.procs (s.procs p).receiver_data.source_pid).sender_data.acknowledged ≡ false
          → (s.procs (s.procs p).receiver_data.source_pid).sender_data.target_pid ≡ (s.procs p).pid)
      → Keeps s (syscall_acknowledge s)
  syscall_acknowledge-Keeps source used own =
      Keeps-Ends _ s _ steady.kin
        (syscall_acknowledge-refines s steady.sound.queues steady.sound.queued hp on source
          (sending_prio s steady.sound hp on) used own)
        (AreOrderly-ack s steady.sound hp on source)
        (IsKin-congr s.procs _ (SameKin-ack s p on) steady.kin steady.kinned)
