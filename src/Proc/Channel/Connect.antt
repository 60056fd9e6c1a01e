-- ===== src/Proc/Channel/Connect.antt =====
-- What a connection between a sender and a listener does.
use mathlib.Core.Path.{fun_ext}
use sysres_os.Base.{
  sym, ℕ, ◌<◌, ◌≤◌, ◌≡◌, refl, false, List, ◌==◌, arith, if◌then◌else◌, lt→ltb, ltb, ap, ◌∙◌,
  of_int, Bool-cases, inl, inr,
}
use sysres_os.Proc.State.{Proc, Sys, runnable, sending_ch, max_proc, n_prio, buff_size}
use sysres_os.Proc.Run.{done, load, change, update, and_then}
use sysres_os.Proc.Errno
use sysres_os.Proc.Descriptor.{failed, fail}
use sysres_os.Proc.Queue.Ends.{Ends, start, then_change, then_change_state, Ends-congr, fail-Ends}
use sysres_os.Proc.Queue.{change_state}
use sysres_os.Proc.Queue.Inv.{IsQueued}
use sysres_os.Proc.Queue.Outcome.{unlinked}
use sysres_os.Proc.Channel.{receive_message, message_sent, handle_channel_connection}

-- The receiver of a message: the message's bytes are in its buffer, to be written to the zone it gave,
-- and it is told the sender's number, here as register 0.
abbrev pub delivered : Proc → Proc → Proc
delivered snd r = record r {
  saved_context = record (r.saved_context) {
    registers = λ i. if i == 0 then of_int snd.pid else r.saved_context.registers i;
  };
  buffer = record {
    buff = λ i. if ltb i snd.buffer.used_size then snd.buffer.buff i else r.buffer.buff i;
    used_size = snd.buffer.used_size;
    write_addr = r.receiver_data.receive_data;
  };
  receiver_data = record (r.receiver_data) { source_pid = snd.pid };
}

-- Its sender: the buffer is empty, and an acknowledgement is due.
abbrev pub unacknowledged : Proc → Proc
unacknowledged r = record r {
  buffer = record (r.buffer) { used_size = 0 };
  sender_data = record (r.sender_data) { acknowledged = false };
}

-- The descriptors after a connection, up to their queue links.
abbrev pub connected : (ℕ → Proc) → (sender receiver x : ℕ) → Proc
connected g sender receiver x =
    if x == receiver
    then record (delivered (g sender) (g receiver)) { state = runnable }
    else if x == sender
    then record (unacknowledged (g sender)) { state = sending_ch }
    else g x

-- The same with the refusal of a message that is too long.
abbrev pub connection : (ℕ → Proc) → (sender receiver x : ℕ) → Proc
connection g sender receiver x =
    if ltb (g receiver).receiver_data.receive_size (g sender).sender_data.send_size
    then update g sender (failed Errno.send_data_too_large (g sender)) x
    else connected g sender receiver x

connection_blind :
    (g : ℕ → Proc) (i p x : ℕ)
    → unlinked (connection g i p x) ≡ unlinked (connection (λ y. unlinked (g y)) i p x)
connection_blind g i p x = ground arith

-- A connection does not depend on the queue links.
pub connection_congr :
    (g g' : ℕ → Proc) (i p : ℕ)
    → ((x : ℕ) → unlinked (g x) ≡ unlinked (g' x))
    → (x : ℕ) → unlinked (connection g i p x) ≡ unlinked (connection g' i p x)
connection_congr g g' i p same x =
    connection_blind g i p x
    ∙ ap (λ (f : ℕ → Proc). unlinked (connection f i p x)) (fun_ext same)
    ∙ sym (connection_blind g' i p x)

module _ (s : Sys) (sender receiver : ℕ) (q : ℕ → List ℕ) (v : IsQueued s q)
    (hs : sender < max_proc) (hr : receiver < max_proc) where
  abbrev snd : Proc
  snd = s.procs sender

  abbrev rcv : Proc
  rcv = s.procs receiver

  prepare_receiver :
      Ends (change receiver (receive_message snd) s) s (update s.procs receiver (delivered snd rcv))
  unfolding receive_message
  prepare_receiver =
      then_change (done tt s) s s.procs (start s q v) receiver hr (receive_message snd)
        (λ a. record { runnable = refl; prio = λ h. refl; next = λ h. refl; prev = λ h. refl })
        (λ a b e. ap (λ (r : Proc). receive_message snd r) e)

  -- The run of the branch in which the message fits.
  run_connection :
      snd.sender_data.send_size ≤ rcv.receiver_data.receive_size
      → snd.buffer.used_size ≤ snd.sender_data.send_size
      → snd.sender_data.send_size ≤ buff_size
      → handle_channel_connection sender receiver s
        ≡ and_then
            (and_then
              (and_then (change receiver (receive_message snd) s) (λ _. change sender message_sent))
              (λ _. change_state sender sending_ch))
            (λ _. change_state receiver runnable)
  unfolding handle_channel_connection load
  run_connection fits used small =
      ground (arith, lt→ltb sender max_proc hs, lt→ltb receiver max_proc hr)

  -- A connection whose message fits the receiver's zone returns. The receiver is runnable, has the
  -- message in its buffer, to be written to the zone it gave, and the sender's pid in register 0;
  -- the sender is blocked until its message is acknowledged. No other process changes, and the run
  -- queues stay in order.
  pub connection-delivers :
      snd.sender_data.send_size ≤ rcv.receiver_data.receive_size
      → snd.buffer.used_size ≤ snd.sender_data.send_size
      → snd.sender_data.send_size ≤ buff_size
      → (sender == receiver) ≡ false
      → rcv.priority < n_prio
      → Ends (handle_channel_connection sender receiver s) s (connected s.procs sender receiver)
  unfolding message_sent receive_message
  connection-delivers fits used small ne prio = rw (run_connection fits used small) (
      Ends-congr (connected s.procs sender receiver)
        (then_change_state _ s _
          (then_change_state _ s _
            (then_change _ s _ prepare_receiver sender hs message_sent
              (λ a. record {
                runnable = refl;
                prio = λ h. refl;
                next = λ h. refl;
                prev = λ h. refl;
              })
              (λ a b e. ap (λ (r : Proc). message_sent r) e))
            sender hs sending_ch (λ off. cc))
          receiver hr runnable (λ on. ground arith))
        (λ x. ground arith))

  run_refusal :
      rcv.receiver_data.receive_size < snd.sender_data.send_size
      → handle_channel_connection sender receiver s ≡ fail sender Errno.send_data_too_large s
  unfolding handle_channel_connection load
  run_refusal long = ground (arith, lt→ltb sender max_proc hs, lt→ltb receiver max_proc hr)

  -- A message that is too long for the receiver's zone is refused: the sender gets the error, and
  -- nothing else changes.
  pub connection-refuses :
      rcv.receiver_data.receive_size < snd.sender_data.send_size
      → Ends
          (handle_channel_connection sender receiver s)
          s
          (update s.procs sender (failed Errno.send_data_too_large snd))
  connection-refuses long =
      rw (run_refusal long) (fail-Ends s q sender Errno.send_data_too_large v hs)

  -- A connection between two processes returns. A message too long for the receiver's zone gives the
  -- sender its error and changes nothing else; any other is delivered: the receiver is runnable and
  -- has the message and the sender's pid, and the sender is blocked, unacknowledged, with an empty
  -- buffer. The run queues stay in order. The sender's message fits the buffer, the two processes
  -- differ, and the receiver has a priority in range.
  pub connection-refines :
      snd.buffer.used_size ≤ snd.sender_data.send_size
      → snd.sender_data.send_size ≤ buff_size
      → (sender == receiver) ≡ false
      → rcv.priority < n_prio
      → Ends (handle_channel_connection sender receiver s) s (connection s.procs sender receiver)
  connection-refines used small ne prio =
      elim (Bool-cases (ltb rcv.receiver_data.receive_size snd.sender_data.send_size)) [
        | inl long ↦
            Ends-congr (connection s.procs sender receiver) (connection-refuses (ground arith))
              (λ x. ground arith)
        | inr fits ↦
            Ends-congr (connection s.procs sender receiver)
              (connection-delivers (ground arith) used small ne prio) (λ x. ground arith)
      ]
