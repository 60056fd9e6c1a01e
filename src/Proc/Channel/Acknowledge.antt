-- ===== src/Proc/Channel/Acknowledge.antt =====
-- `syscall_acknowledge` on every branch.
use sysres_os.Base.{
  ℕ, ◌<◌, ◌≤◌, ◌≡◌, refl, true, false, not, List, ◌==◌, ◌||◌, arith, if◌then◌else◌, lt→ltb, ltb, ap,
  Bool-cases, inl, inr, to_int, of_int, ◌≢◌,
}
use sysres_os.Proc.State.{Proc, Sys, runnable, max_proc, n_prio, buff_size, is_sending_ch}
use sysres_os.Proc.Errno
use sysres_os.Proc.Run.{done, panic, load, change, update, and_then}
use sysres_os.Proc.Descriptor.{reg, with_reg, failed, fail, set_reg}
use sysres_os.Proc.Queue.{change_state}
use sysres_os.Proc.Queue.Inv.{IsQueued, runs}
use sysres_os.Proc.Queue.Ends.{Ends, start, then_change, then_change_state, Ends-by, fail-Ends}
use sysres_os.Proc.Channel.{receive_ack, ack_sent, syscall_acknowledge, handle_channel_ack}

-- The return code that `syscall_acknowledge` notes.
abbrev pub note_code : Proc → Proc
note_code r = record r {
  receiver_data = record (r.receiver_data) { return_code = to_int (reg r 0) };
}

-- The sender once it is acknowledged: the bytes of the answer that its zone has room for are in its
-- buffer, to be written to that zone, and the return code is here as register 0.
abbrev pub answered : Proc → Proc → Proc
answered rcv r =
    let n =
      if ltb r.sender_data.ack_size rcv.buffer.used_size
      then r.sender_data.ack_size
      else rcv.buffer.used_size in
    record r {
      saved_context = record (r.saved_context) {
        registers = λ i.
            if i == 0 then of_int rcv.receiver_data.return_code else r.saved_context.registers i;
      };
      buffer = record {
        buff = λ i. if ltb i n then rcv.buffer.buff i else r.buffer.buff i;
        used_size = n;
        write_addr = r.sender_data.ack_data;
      };
    }

-- The caller once its answer has gone.
abbrev pub emptied : Proc → Proc
emptied r = record r {
  saved_context = record (r.saved_context) {
    registers = λ i. if i == 0 then 0 else r.saved_context.registers i;
  };
  buffer = record (r.buffer) { used_size = 0 };
}

-- The descriptors once the acknowledgement of `p` has reached the sender `i`.
abbrev pub acknowledged : (ℕ → Proc) → (p i x : ℕ) → Proc
acknowledged g p i x =
    if x == i
    then record (answered (g p) (g i)) { state = runnable }
    else if x == p
    then emptied (g p)
    else g x

-- The descriptors after process `p` acknowledges, up to queue links.
abbrev pub ack_outcome : (ℕ → Proc) → ℕ → ℕ → Proc
ack_outcome g p x =
    let r = g p in
    let i = r.receiver_data.source_pid in
    let g' = update g p (note_code r) in
    if ltb buff_size (reg r 2)
    then update g p (failed Errno.send_data_too_large r) x
    else if (g' i).sender_data.acknowledged || not (is_sending_ch (g' i).state)
    then update g p (failed Errno.source_already_acknowledged (note_code r)) x
    else acknowledged g' p i x

module _ (s : Sys) (q : ℕ → List ℕ) (v : IsQueued s q) (hp : s.last_pid < max_proc)
    (on : runs s s.last_pid ≡ true)
    (source : (s.procs s.last_pid).receiver_data.source_pid < max_proc)
    (prio : (x : ℕ)
      → x < max_proc
      → is_sending_ch (s.procs x).state ≡ true
      → (s.procs x).priority < n_prio)
    (used : (s.procs s.last_pid).buffer.used_size ≤ reg (s.procs s.last_pid) 2) where
  abbrev p : ℕ
  p = s.last_pid

  abbrev r : Proc
  r = s.procs p

  abbrev i : ℕ
  i = r.receiver_data.source_pid

  ack_long :
      ltb buff_size (reg r 2) ≡ true → syscall_acknowledge s ≡ fail p Errno.send_data_too_large s
  unfolding syscall_acknowledge load
  ack_long long = ground (arith, lt→ltb p max_proc hp)

  abbrev noted : ℕ → Proc
  noted = update s.procs p (note_code r)

  ack_late :
      ltb buff_size (reg r 2) ≡ false
      → ((noted i).sender_data.acknowledged || not (is_sending_ch (noted i).state)) ≡ true
      → syscall_acknowledge s
        ≡ and_then (change p note_code s) (λ _. change p (failed Errno.source_already_acknowledged))
  unfolding syscall_acknowledge handle_channel_ack fail load change
  ack_late fits late = ground (arith, lt→ltb p max_proc hp, lt→ltb i max_proc source)

  ack_good :
      ltb buff_size (reg r 2) ≡ false
      → ((noted i).sender_data.acknowledged || not (is_sending_ch (noted i).state)) ≡ false
      → (noted i).sender_data.target_pid ≡ r.pid
      → syscall_acknowledge s
        ≡ and_then
            (and_then
              (and_then
                (and_then (change p note_code s) (λ _. change p (with_reg 0 0)))
                (λ _. change i (receive_ack (note_code r))))
              (λ _. change p ack_sent))
            (λ _. change_state i runnable)
  unfolding syscall_acknowledge handle_channel_ack set_reg load change
  ack_good fits good target = ground (arith, lt→ltb p max_proc hp, lt→ltb i max_proc source)

  ack_wrong :
      ltb buff_size (reg r 2) ≡ false
      → ((noted i).sender_data.acknowledged || not (is_sending_ch (noted i).state)) ≡ false
      → ((noted i).sender_data.target_pid == r.pid) ≡ false
      → syscall_acknowledge s ≡ panic
  unfolding syscall_acknowledge handle_channel_ack load change
  ack_wrong fits good target = ground (arith, lt→ltb p max_proc hp, lt→ltb i max_proc source)

  noted-Ends : Ends (change p note_code s) s noted
  noted-Ends =
      then_change (done tt s) s s.procs (start s q v) p hp note_code
        (λ a. record { runnable = refl; prio = λ h. refl; next = λ h. refl; prev = λ h. refl })
        (λ a b e. ap (λ (x : Proc). note_code x) e)

  late-Ends :
      Ends
        (and_then (change p note_code s) (λ _. change p (failed Errno.source_already_acknowledged)))
        s
        (update noted p (failed Errno.source_already_acknowledged (noted p)))
  late-Ends =
      then_change _ s noted noted-Ends p hp (failed Errno.source_already_acknowledged)
        (λ a. record { runnable = refl; prio = λ h. refl; next = λ h. refl; prev = λ h. refl })
        (λ a b e. ap (λ (x : Proc). failed Errno.source_already_acknowledged x) e)

  good-Ends :
      (is_sending_ch (s.procs i).state ≡ true)
      → ltb buff_size (reg r 2) ≡ false
      → ((noted i).sender_data.acknowledged || not (is_sending_ch (noted i).state)) ≡ false
      → (noted i).sender_data.target_pid ≡ r.pid
      → Ends (syscall_acknowledge s) s (acknowledged noted p i)
  unfolding receive_ack ack_sent
  good-Ends sending fits good target =
      Ends-by (acknowledged noted p i) (ack_good fits good target)
        (then_change_state _ s _
          (then_change _ s _
            (then_change _ s _
              (then_change _ s noted noted-Ends p hp (with_reg 0 0)
                (λ a. record {
                  runnable = refl;
                  prio = λ h. refl;
                  next = λ h. refl;
                  prev = λ h. refl;
                })
                (λ a b e. ap (λ (x : Proc). with_reg 0 0 x) e))
              i source (receive_ack (note_code r))
              (λ a. record {
                runnable = refl;
                prio = λ h. refl;
                next = λ h. refl;
                prev = λ h. refl;
              })
              (λ a b e. ap (λ (x : Proc). receive_ack (note_code r) x) e))
            p hp ack_sent
            (λ a. record { runnable = refl; prio = λ h. refl; next = λ h. refl; prev = λ h. refl })
            (λ a b e. ap (λ (x : Proc). ack_sent x) e))
          i source runnable (λ on'. ground (arith, prio i)))
        (λ x. ground arith)

  -- `syscall_acknowledge` returns, and the descriptors are those of `ack_outcome`: an answer above
  -- the buffer's size and a source with nothing to acknowledge give the caller its error; otherwise
  -- the source is runnable, has the part of the answer that fits its zone in its buffer and the
  -- return code in register 0, and the caller has 0 there. The run queues stay in order. The caller
  -- runs, its buffer holds at most the answer, its source is a process slot, a blocked sender has a
  -- priority in range, and if the source is blocked unacknowledged, then by a message to the caller.
  pub syscall_acknowledge-refines :
      (is_sending_ch (s.procs i).state ≡ true
        → (s.procs i).sender_data.acknowledged ≡ false
        → (s.procs i).sender_data.target_pid ≡ r.pid)
      → Ends (syscall_acknowledge s) s (ack_outcome s.procs p)
  syscall_acknowledge-refines own = elim (Bool-cases (ltb buff_size (reg r 2))) [
    | inl long ↦
        Ends-by (ack_outcome s.procs p) (ack_long long)
          (fail-Ends s q p Errno.send_data_too_large v hp) (λ x. rw long)
    | inr fits ↦
        elim (Bool-cases
          ((noted i).sender_data.acknowledged || not (is_sending_ch (noted i).state))) [
            | inl late ↦
                Ends-by (ack_outcome s.procs p) (ack_late fits late) late-Ends (λ x. ground arith)
            | inr good ↦
                let sending : is_sending_ch (s.procs i).state ≡ true = ground arith in
                Ends-by (ack_outcome s.procs p) refl
                  (good-Ends sending fits good (ground (arith, own))) (λ x. ground arith)
          ]
  ]

  -- A process that acknowledges while the sender of its last message is blocked, unacknowledged, by
  -- a message to another process makes the kernel panic.
  pub acknowledge-panics :
      reg r 2 ≤ buff_size
      → is_sending_ch (s.procs i).state ≡ true
      → (s.procs i).sender_data.acknowledged ≡ false
      → (s.procs i).sender_data.target_pid ≢ r.pid
      → syscall_acknowledge s ≡ panic
  acknowledge-panics fits sending waits other =
      ack_wrong (ground arith) (ground arith) (ground arith)
