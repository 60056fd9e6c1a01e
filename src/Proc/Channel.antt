-- ===== src/Proc/Channel.antt =====
-- The system calls that pass messages: send, receive and acknowledge.
pub mod Connect
pub mod Send
pub mod Receive
pub mod Acknowledge
pub mod Keep
pub mod Steady
use sysres_os.Base.{
  ℕ, ◌%◌, ◌^◌, Bool, true, false, not, Option, none, some, ltb, leb, ◌==◌, ◌&&◌, ◌||◌,
  if◌then◌else◌, to_int, of_int,
}
use sysres_os.Proc.State.{
  Proc, Sys, SenderData, ReceiverData, ProcState, runnable, sending_ch, listening_ch, wait_listener,
  is_sending_ch, is_listening_ch, max_proc, buff_size,
}
use sysres_os.Proc.Errno
use sysres_os.Proc.Run.{Cmd, ◌>>=◌, ◌>>◌, pure, skip, get, load, change, assert}
use sysres_os.Proc.Queue.{change_state}
use sysres_os.Proc.Search.{find_waiting_sender}
use sysres_os.Proc.Descriptor.{reg, with_reg, set_reg, fail, copy_bytes}

-- What `handle_channel_connection` writes to the receiver, given the sender, and to the sender.
unfoldable pub receive_message : Proc → Proc → Proc
receive_message snd r = with_reg 0 (of_int snd.pid) (record r {
  buffer = record (r.buffer) {
    used_size = snd.buffer.used_size;
    write_addr = r.receiver_data.receive_data;
    buff = copy_bytes snd.buffer.used_size snd.buffer.buff r.buffer.buff;
  };
  receiver_data = record (r.receiver_data) { source_pid = snd.pid };
})

unfoldable pub message_sent : Proc → Proc
message_sent r = record r {
  buffer = record (r.buffer) { used_size = 0 };
  sender_data = record (r.sender_data) { acknowledged = false };
}

unfoldable pub handle_channel_connection : (sender receiver : ℕ) → Cmd (Unit {0})
unfolding receive_message message_sent
handle_channel_connection sender receiver = do
  snd ← load sender
  rcv ← load receiver
  if ltb rcv.receiver_data.receive_size snd.sender_data.send_size
      then fail sender Errno.send_data_too_large
      else do
        assert (leb snd.buffer.used_size buff_size)
        assert (leb snd.buffer.used_size rcv.receiver_data.receive_size)
        change receiver (receive_message snd)
        change sender message_sent
        change_state sender sending_ch
        change_state receiver runnable

-- The request that `syscall_send` notes in the sender.
unfoldable pub note_request : Proc → Proc
note_request r = record r {
  sender_data = record (r.sender_data) {
    target_pid = to_int (reg r 0);
    send_size = reg r 2;
    ack_data = reg r 3;
    ack_size = reg r 4;
  };
}

unfoldable pub syscall_send : Cmd (Unit {0})
unfolding note_request
syscall_send = do
  s ← get
  let p = s.last_pid
  proc ← load p
  let target_pid = to_int (reg proc 0)
  let wait_for_listen = not (reg proc 5 == 0)
  let size = reg proc 2
  if not (ltb target_pid max_proc) then fail p Errno.invalid_pid else do
    target ← load target_pid
    if not (is_listening_ch target.state) && not wait_for_listen
        then fail p Errno.target_not_listening
        else if ltb buff_size size
        then fail p Errno.send_data_too_large
        else do
          change p note_request
          if is_listening_ch target.state
              then handle_channel_connection p target_pid
              else change_state p wait_listener

-- The zone that `syscall_receive` notes in the receiver.
unfoldable pub note_zone : Proc → Proc
note_zone r = record r {
  receiver_data = record (r.receiver_data) { receive_data = reg r 0; receive_size = reg r 1 };
}

unfoldable pub syscall_receive : Cmd (Unit {0})
unfolding note_zone
syscall_receive = do
  s ← get
  let p = s.last_pid
  proc ← load p
  change p note_zone
  change_state p listening_ch
  found ← find_waiting_sender proc.pid
  elim found [ none ↦ skip | some i ↦ handle_channel_connection i p ]

-- What `handle_channel_ack` writes to the sender, given the receiver, and to the receiver.
unfoldable pub receive_ack : Proc → Proc → Proc
receive_ack rcv r =
    let n =
      if ltb r.sender_data.ack_size rcv.buffer.used_size
      then r.sender_data.ack_size
      else rcv.buffer.used_size in
    with_reg 0 (of_int rcv.receiver_data.return_code) (record r {
      buffer = record {
        used_size = n;
        buff = copy_bytes n rcv.buffer.buff r.buffer.buff;
        write_addr = r.sender_data.ack_data;
      };
    })

unfoldable pub ack_sent : Proc → Proc
ack_sent r = record r { buffer = record (r.buffer) { used_size = 0 } }

unfoldable pub handle_channel_ack : (receiver sender : ℕ) → Cmd (Unit {0})
unfolding receive_ack ack_sent
handle_channel_ack receiver sender = do
  rcv ← load receiver
  snd ← load sender
  if snd.sender_data.acknowledged || not (is_sending_ch snd.state)
      then fail receiver Errno.source_already_acknowledged
      else do
        assert (snd.sender_data.target_pid == rcv.pid)
        set_reg receiver 0 0
        assert (leb rcv.buffer.used_size buff_size)
        change sender (receive_ack rcv)
        change receiver ack_sent
        change_state sender runnable

unfoldable pub syscall_acknowledge : Cmd (Unit {0})
syscall_acknowledge = do
  s ← get
  let p = s.last_pid
  proc ← load p
  if ltb buff_size (reg proc 2) then fail p Errno.send_data_too_large else do
    change p (λ r. record r {
      receiver_data = record (r.receiver_data) { return_code = to_int (reg r 0) };
    })
    handle_channel_ack p proc.receiver_data.source_pid
