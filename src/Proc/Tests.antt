-- ===== src/Proc/Tests.antt =====
-- A table with two processes, and the theorems of the process manager at it.
mod Turns
use sysres_os.Base.{
  ℕ, ◌<◌, ◌≡◌, refl, true, false, none, some, List, [], ◌∷◌, ◌==◌, if◌then◌else◌, arith, Bool-cases,
  ◌+◌, ◌%◌, inl, inr, count, count_none, count_one, sym,
}
use sysres_os.Ring.{IsRing}
use sysres_os.Proc.State.{
  Proc, Sys, ProcState, ReceiverData, is_listening_ch, is_sending_ch, runnable, listening_ch,
  wait_listener, zombie, sending_ch, max_proc, n_prio, is_runnable, kernel,
}
use sysres_os.Proc.Run.{done, panic}
use sysres_os.Proc.Descriptor.{new_proc_descriptor}
use sysres_os.Proc.Queue.Outcome.{Result}
use sysres_os.Proc.Queue.Change.{change_state-refines}
use sysres_os.Proc.Queue.Ends.{Ends}
use sysres_os.Proc.Channel.{
  handle_channel_connection, syscall_send, syscall_receive, syscall_acknowledge,
}
use sysres_os.Proc.Channel.Connect.{connection, connection-refines}
use sysres_os.Proc.Channel.Send.{send_outcome, syscall_send-refines}
use sysres_os.Proc.Channel.Receive.{receive_outcome, syscall_receive-refines}
use sysres_os.Proc.Channel.Acknowledge.{ack_outcome, syscall_acknowledge-refines}
use sysres_os.Proc.Channel.Keep.{
  syscall_send-IsSound, syscall_receive-IsSound, syscall_acknowledge-IsSound,
}
use sysres_os.Proc.Schedule.{next_priority}
use sysres_os.Proc.Schedule.Choice.{Serves, next_priority-Serves}
use sysres_os.Random.{weight_sum, random_law}
use sysres_os.Random.Law.{IsDrawn, random_law-IsDrawn}
use sysres_os.Proc.Sound.{IsOrderly, IsSound}
use sysres_os.Proc.Queue.Inv.{nexts, prevs, queues_at, runs, IsQueued}

abbrev blank : Proc
unfolding new_proc_descriptor
blank = new_proc_descriptor 0 0 0 0

-- The kernel's slot.
abbrev idle : Proc
idle = record blank { state = kernel }

-- Process 1 is runnable at the highest priority, process 2 is its child and not runnable.
abbrev two_procs : Proc → Proc → ℕ → Proc
two_procs r1 r2 x = if x == 1 then r1 else if x == 2 then r2 else if x == 0 then idle else blank

abbrev two : Proc → Proc → Sys
two r1 r2 = record {
  curr_pid = 0;
  last_pid = 1;
  procs = two_procs r1 r2;
  prio_proc_n = λ k. if k == 15 then 1 else 0;
  n_runnable_procs = 1;
  prio_proc = λ k. if k == 15 then some 1 else none;
  alloc = record { heap_begin = 0; end_offset = 0; global_base = 0 };
  errno = record { no = 0; errdata = 0 };
}

abbrev one_queue : ℕ → List ℕ
one_queue k = if k == 15 then 1 ∷ [] else []

abbrev regs : (r0 r1 r2 r5 : ℕ) → ℕ → ℕ
regs r0 r1 r2 r5 i =
    if i == 0 then r0 else if i == 1 then r1 else if i == 2 then r2 else if i == 5 then r5 else 0

abbrev zone : ReceiverData
zone = record { source_pid = 2; receive_size = 8; receive_data = 64; return_code = 0 }

abbrev runner : (ℕ → ℕ) → Proc
runner rs = record blank {
  pid = 1;
  parent_pid = 1;
  initialized = true;
  child = some 2;
  priority = 15;
  state = runnable;
  next_same_prio = some 1;
  prev_same_prio = some 1;
  saved_context = record (blank.saved_context) { registers = rs };
  receiver_data = zone;
}

abbrev other : ProcState → ℕ → Proc
other st target = record blank {
  pid = 2;
  parent_pid = 1;
  initialized = true;
  next_sibling = some 2;
  prev_sibling = some 2;
  priority = 10;
  state = st;
  sender_data = record {
    target_pid = target;
    send_size = 4;
    ack_data = 32;
    ack_size = 2;
    acknowledged = false;
  };
  receiver_data = zone;
}

module _ (rs : ℕ → ℕ) (r2 : Proc) (off : is_runnable r2.state ≡ false) where
  abbrev s : Sys
  s = two (runner rs) r2

  IsRing-two : (k : ℕ) → IsRing (nexts s) (prevs s) (s.prio_proc k) (one_queue k)
  IsRing-two k = elim (Bool-cases (k == 15)) [
    | inl e ↦ rw e (refl, (refl, refl), (refl, tt))
    | inr e ↦ rw e refl
  ]

  count_two : (k : ℕ) → s.prio_proc_n k ≡ count (queues_at s k) max_proc
  unfolding new_proc_descriptor
  count_two k = elim (Bool-cases (k == 15)) [
    | inl e ↦
        let eq : k ≡ 15 = ground arith in
        rw eq
          (sym (count_one (queues_at s 15) max_proc 1 (omega arith) refl (λ x ne. ground arith)))
    | inr e ↦ ground (arith, count_none (queues_at s k) max_proc (λ x. ground arith))
  ]

  total_two : 1 ≡ count (runs s) max_proc
  unfolding new_proc_descriptor
  total_two = sym (count_one (runs s) max_proc 1 (omega arith) refl (λ x ne. ground arith))

  IsQueued-two : IsQueued s one_queue
  unfolding new_proc_descriptor
  IsQueued-two = record {
    ring = λ k h. IsRing-two k;
    members = λ k x h. ground arith;
    in_range = λ x hx r. ground arith;
    prio_count = λ k h. count_two k;
    total = total_two;
  }

  IsSound-two : IsOrderly r2 → IsSound s
  unfolding new_proc_descriptor
  IsSound-two o = record {
    queues = one_queue;
    queued = IsQueued-two;
    orderly = λ x h. elim (Bool-cases (x == 1)) [
      | inl e ↦
          let eq : x ≡ 1 = ground arith in
          rw eq (record {
            prio = λ f. omega arith;
            ready = λ f n. refl;
            used = λ f. absurd (ground arith);
            small = λ f. absurd (ground arith);
          })
      | inr ne ↦ elim (Bool-cases (x == 2)) [
        | inl e ↦ let eq : x ≡ 2 = ground arith in rw eq o
        | inr e ↦ record {
          prio = λ f. ground arith;
          ready = λ f n. absurd (ground arith);
          used = λ f. absurd (ground arith);
          small = λ f. absurd (ground arith);
        }
      ]
    ];
  }

IsOrderly-other : (st : ProcState) (target : ℕ) → IsOrderly (other st target)
unfolding new_proc_descriptor
IsOrderly-other st target = record {
  prio = λ h. omega arith;
  ready = λ f n. refl;
  used = λ h. omega arith;
  small = λ h. omega arith;
}

-- Process 1 has a request of 4 bytes for process 2.
abbrev asking : ProcState → Sys
asking st = two (runner (regs 2 0 4 0)) (other st 1)

abbrev receiving : Sys
receiving = asking wait_listener

abbrev answering : ℕ → Sys
answering target = two (runner (regs 2 0 4 0)) (other sending_ch target)

IsSound-asking : (st : ProcState) → is_runnable st ≡ false → IsSound (asking st)
IsSound-asking st off = IsSound-two (regs 2 0 4 0) (other st 1) off (IsOrderly-other st 1)

IsSound-answering : (target : ℕ) → IsSound (answering target)
IsSound-answering target =
    IsSound-two (regs 2 0 4 0) (other sending_ch target) refl (IsOrderly-other sending_ch target)

prio_of_sender :
    (target t : ℕ)
    → t < max_proc
    → is_sending_ch ((answering target).procs t).state ≡ true
    → ((answering target).procs t).priority < n_prio
prio_of_sender target t h l = ((IsSound-answering target).orderly t h).prio (ground arith)

listening_IsQueued : IsQueued (asking listening_ch) one_queue
listening_IsQueued = IsQueued-two (regs 2 0 4 0) (other listening_ch 1) refl

prio_of_listener :
    (t : ℕ)
    → t < max_proc
    → is_listening_ch ((asking listening_ch).procs t).state ≡ true
    → ((asking listening_ch).procs t).priority < n_prio
prio_of_listener t h l = ((IsSound-asking listening_ch refl).orderly t h).prio (ground arith)

change_state-refines_example : Result 2 runnable (asking zombie) one_queue
unfolding blank
change_state-refines_example =
    change_state-refines 2 runnable (asking zombie) one_queue
      (IsQueued-two (regs 2 0 4 0) (other zombie 1) refl) (omega arith) (λ on. omega arith)

syscall_send-refines_example :
    Ends
      (syscall_send (asking listening_ch))
      (asking listening_ch)
      (send_outcome (asking listening_ch).procs 1)
unfolding blank
syscall_send-refines_example =
    syscall_send-refines (asking listening_ch) one_queue listening_IsQueued (omega arith) refl
      (omega arith) prio_of_listener

syscall_receive-refines_example :
    Ends (syscall_receive receiving) receiving (receive_outcome receiving.procs 1)
syscall_receive-refines_example =
    syscall_receive-refines receiving (IsSound-asking wait_listener refl) (omega arith) refl

syscall_acknowledge-refines_example :
    Ends (syscall_acknowledge (answering 1)) (answering 1) (ack_outcome (answering 1).procs 1)
unfolding blank
syscall_acknowledge-refines_example =
    syscall_acknowledge-refines (answering 1) one_queue
      (IsQueued-two (regs 2 0 4 0) (other sending_ch 1) refl) (omega arith) refl (omega arith)
      (prio_of_sender 1) (omega arith) (λ a b. refl)

next_priority-Serves_example :
    Serves receiving one_queue
      (IsQueued-two (regs 2 0 4 0) (other wait_listener 1) refl)
      (next_priority 5 receiving)
next_priority-Serves_example =
    next_priority-Serves receiving one_queue
      (IsQueued-two (regs 2 0 4 0) (other wait_listener 1) refl) 5

random_law-IsDrawn_example :
    IsDrawn (λ i. i + 1) 3 (7 % weight_sum (λ i. i + 1) 3) (random_law 7 (λ i. i + 1) 3)
    × (0 < random_law 7 (λ i. i + 1) 3 + 1)
unfolding weight_sum
random_law-IsDrawn_example = random_law-IsDrawn (λ i. i + 1) 7 3 (omega arith)
