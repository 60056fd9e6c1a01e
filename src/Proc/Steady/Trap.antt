-- ===== src/Proc/Steady/Trap.antt =====
-- A process that runs in user mode and comes back to the kernel: `write_buff_svc` before, and
-- `save_context` behind.
use mathlib.Core.Path.{fun_ext, subst}
use sysres_os.Base.{
  ℕ, Bool, ◌<◌, ◌≤◌, ◌≡◌, ◌%◌, ◌^◌, refl, true, arith, if◌then◌else◌, ◌==◌, ltb, lt→ltb, ◌∙◌, ap,
  ◌-◌, ◌+◌, sym,
}
use sysres_os.Proc.State.{Proc, Sys, max_proc, is_runnable, kernel_pid, n_reg, AllocConf, Err}
use sysres_os.Proc.Run.{Cmd, ◌>>◌, done, load, change, update, modify}
use sysres_os.Proc.Context.{
  save_context, save_alloc_conf, save_errno, backed_up, back_up_buff_svc, write_buff_svc,
  message_reads, pending_writes,
}
use sysres_os.Proc.Descriptor.{reg}
use sysres_os.Proc.Queue.Inv.{runs, IsQueued-congr}
use sysres_os.Proc.Queue.Update.{written, change_lem, IsQueued-written}
use sysres_os.Proc.Family.Kin.{IsKin-congr}
use sysres_os.Proc.Steady.{IsSteady}

-- Only the context, the configurations, the error and the buffer may differ.
record Quiet (r r' : Proc) : Type 0 where
  state : r'.state ≡ r.state
  prio : r'.priority ≡ r.priority
  next : r'.next_same_prio ≡ r.next_same_prio
  prev : r'.prev_same_prio ≡ r.prev_same_prio
  ready : r'.initialized ≡ r.initialized
  pid : r'.pid ≡ r.pid
  sibling : r'.next_sibling ≡ r.next_sibling
  sibling' : r'.prev_sibling ≡ r.prev_sibling
  child : r'.child ≡ r.child
  parent : r'.parent_pid ≡ r.parent_pid

IsSteady-written :
    (s : Sys) (p : ℕ) (r : Proc)
    → IsSteady s
    → runs s p ≡ true
    → Quiet (s.procs p) r
    → IsSteady (written s p r)
IsSteady-written s p r steady on quiet = record {
  sound = record {
    queues = steady.sound.queues;
    queued =
        IsQueued-written s p r
          (record {
            runnable = ground (arith, quiet.state);
            prio = λ h. quiet.prio;
            next = λ h. quiet.next;
            prev = λ h. quiet.prev;
          })
          steady.sound.queues steady.sound.queued;
    orderly = λ x hx. ground (arith, steady.sound.orderly x hx, quiet);
  };
  kin = steady.kin;
  kinned =
      IsKin-congr s.procs (written s p r).procs
        (λ x. record {
          same_free = ground (arith, quiet.state);
          same_zombie = λ z. ground (arith, quiet.state);
          same_kernel = λ z. ground (arith, quiet.state);
          same_pid = ground (arith, quiet.pid);
          same_next = ground (arith, quiet.sibling);
          same_prev = ground (arith, quiet.sibling');
          same_child = ground (arith, quiet.child);
          same_parent = ground (arith, quiet.parent);
        })
        steady.kin steady.kinned;
}

-- The state with other numbers of the running process, and other globals.
abbrev pub moved : Sys → (curr last : ℕ) → AllocConf → Err → Sys
moved s curr last a e = record s { last_pid = last; curr_pid = curr; alloc = a; errno = e }

abbrev pub switched : Sys → (curr last : ℕ) → Sys
switched s curr last = moved s curr last s.alloc s.errno

pub IsSteady-moved :
    (s : Sys) (curr last : ℕ) (a : AllocConf) (e : Err)
    → IsSteady s
    → IsSteady (moved s curr last a e)
IsSteady-moved s curr last a e steady = record {
  sound = record {
    queues = steady.sound.queues;
    queued =
        IsQueued-congr s (moved s curr last a e)
          (record {
            same_runs = λ x. refl;
            same_prio = λ x h. refl;
            same_next = λ x h. refl;
            same_prev = λ x h. refl;
            same_heads = refl;
            same_counts = refl;
            same_total = refl;
          })
          steady.sound.queues steady.sound.queued;
    orderly = steady.sound.orderly;
  };
  kin = steady.kin;
  kinned = steady.kinned;
}

pub IsSteady-switched : (s : Sys) (curr last : ℕ) → IsSteady s → IsSteady (switched s curr last)
IsSteady-switched s curr last steady = IsSteady-moved s curr last s.alloc s.errno steady

written_at : (s : Sys) (p : ℕ) (r : Proc) → (written s p r).procs p ≡ r
written_at s p r = let here : (p == p) ≡ true = ground arith in rw here refl

-- The writes of `save_context` in turn, and that of `write_buff_svc`.
abbrev context_saved : (frame : ℕ → ℕ) (timer sp elr_el1 pstate : ℕ) → Proc → Proc
context_saved frame timer sp elr_el1 pstate r = record r {
  sched_conf = record (r.sched_conf) { time_left = timer };
  saved_context = record (r.saved_context) {
    sp = sp;
    pc = elr_el1;
    pstate = pstate;
    registers = λ i.
        if ltb i (n_reg - 1)
        then (if i % 2 == 1 then frame (n_reg + 1 - i) else frame (n_reg - 1 - i))
        else if i == n_reg - 1
        then frame 1
        else r.saved_context.registers i;
  };
}

abbrev alloc_saved : AllocConf → Proc → Proc
alloc_saved a r = record r { mem_conf = record (r.mem_conf) { alloc = a } }

abbrev errno_saved : Err → Proc → Proc
errno_saved e r = record r { err = e }

abbrev buffer_written : Proc → Proc
buffer_written r = record r { buffer = record (r.buffer) { write_addr = 0; used_size = 0 } }

Quiet-back_up : (memory : ℕ → ℕ) (code : ℕ) (r : Proc) → Quiet r (backed_up memory code r)
unfolding backed_up
Quiet-back_up memory code r = record {
  state = ground arith;
  prio = ground arith;
  next = ground arith;
  prev = ground arith;
  ready = ground arith;
  pid = ground arith;
  sibling = ground arith;
  sibling' = ground arith;
  child = ground arith;
  parent = ground arith;
}

used_back_up :
    (memory : ℕ → ℕ) (code : ℕ) (r : Proc)
    → r.buffer.used_size ≡ 0
    → let r' = backed_up memory code r in r'.buffer.used_size ≤ reg r' 2
unfolding backed_up
used_back_up memory code r e = ground arith

module _ (reads : ℕ → ℕ → Bool) (memory frame : ℕ → ℕ) (timer sp elr_el1 pstate esr_el1 : ℕ)
    (s : Sys) (hp : s.curr_pid < max_proc) where
  abbrev p : ℕ
  p = s.curr_pid

  -- The descriptor with everything saved.
  abbrev saved : Proc → Proc
  saved r =
      backed_up memory (esr_el1 % 2 ^ 16)
        (errno_saved s.errno (alloc_saved s.alloc (context_saved frame timer sp elr_el1 pstate r)))

  -- One write to a slot behind another.
  twice : (r r' : Proc) (x : ℕ) → update (update s.procs p r) p r' x ≡ update s.procs p r' x
  twice r r' x = ground arith

  change_again :
      (r : Proc) (f : Proc → Proc) → change p f (written s p r) ≡ done tt (written s p (f r))
  change_again r f =
      change_lem (written s p r) p f hp
      ∙ rw (written_at s p r) (ap (λ g. done tt (record s { procs = g })) (fun_ext (twice r (f r))))

  back_up_lem :
      (r : Proc)
      → message_reads reads (esr_el1 % 2 ^ 16) (reg r 1) (reg r 2) ≡ true
      → back_up_buff_svc reads memory p (esr_el1 % 2 ^ 16) (written s p r)
        ≡ done tt (written s p (backed_up memory (esr_el1 % 2 ^ 16) r))
  unfolding back_up_buff_svc load
  back_up_lem r readable =
      rw
        (
          lt→ltb p max_proc hp,
          written_at s p r,
          readable,
          change_again r (backed_up memory (esr_el1 % 2 ^ 16)),
        )
        refl

  save_context_lem :
      message_reads reads (esr_el1 % 2 ^ 16) (frame n_reg) (frame (n_reg - 3)) ≡ true
      → save_context reads memory frame timer sp elr_el1 pstate 0 esr_el1 s
        ≡ done tt (switched (written s p (saved (s.procs p))) kernel_pid p)
  unfolding save_context save_alloc_conf save_errno
  save_context_lem readable =
      let r1 = context_saved frame timer sp elr_el1 pstate (s.procs p) in
      let r2 = alloc_saved s.alloc r1 in
      let r3 = errno_saved s.errno r2 in
      rw
        (
          change_lem s p (context_saved frame timer sp elr_el1 pstate) hp,
          change_again r1 (alloc_saved s.alloc),
          change_again r2 (errno_saved s.errno),
          back_up_lem r3 readable,
        )
        refl

-- A process runs in a steady system.
pub record Runs (s : Sys) : Type 0 where
  pub steady : IsSteady s
  pub slot : s.curr_pid < max_proc
  pub running : runs s s.curr_pid ≡ true

-- The kernel has a trap of a running process, whose buffer holds at most its message.
pub record Traps (s : Sys) : Type 0 where
  pub steady : IsSteady s
  pub idle : s.curr_pid ≡ 0
  pub slot : s.last_pid < max_proc
  pub running : runs s s.last_pid ≡ true
  pub used : (s.procs s.last_pid).buffer.used_size ≤ reg (s.procs s.last_pid) 2

-- A stay in user mode: which copies of the kernel to and from the process's memory return, the memory
-- before it and at the call, the saved registers on the stack, what the system registers and the timer
-- say at the call, and what the globals of alloc.c and errno.c hold.
pub record Stay : Type 0 where
  pub writes : ℕ → ℕ → Bool
  pub reads : ℕ → ℕ → Bool
  pub before : ℕ → ℕ
  pub after : ℕ → ℕ
  pub frame : ℕ → ℕ
  pub timer : ℕ
  pub sp : ℕ
  pub elr_el1 : ℕ
  pub pstate : ℕ
  pub esr_el1 : ℕ
  pub alloc : AllocConf
  pub errno : Err

abbrev pub call_code : Stay → ℕ
call_code stay = stay.esr_el1 % 2 ^ 16

-- The kernel's copies for a stay of the process that runs: the write that is pending for it, and the
-- message it sends, from the address in register 1 with the size in register 2.
pub record IsAccessible (stay : Stay) (s : Sys) : Type 0 where
  pub pending : pending_writes stay.writes (s.procs s.curr_pid) ≡ true
  pub message :
      message_reads stay.reads (call_code stay) (stay.frame n_reg) (stay.frame (n_reg - 3)) ≡ true

-- From the kernel's exit into a process to the process's next system call: the pending write to its
-- memory, what it leaves in the globals, and the saving.
unfoldable pub user_turn : Stay → Cmd (Unit {0})
user_turn stay =
    write_buff_svc stay.writes stay.before
    >> modify (λ t. record t { alloc = stay.alloc; errno = stay.errno })
    >> save_context stay.reads stay.after stay.frame stay.timer stay.sp stay.elr_el1 stay.pstate 0
        stay.esr_el1

module _ (stay : Stay) (s : Sys) (r : Runs s) where
  abbrev emptied : Sys
  emptied = written s s.curr_pid (buffer_written (s.procs s.curr_pid))

  -- What the process leaves.
  abbrev left : Sys
  left = moved emptied s.curr_pid s.last_pid stay.alloc stay.errno

  abbrev kept : Proc
  kept =
      saved stay.reads stay.after stay.frame stay.timer stay.sp stay.elr_el1 stay.pstate
        stay.esr_el1 left r.slot (buffer_written (s.procs s.curr_pid))

  -- The same, before the message is copied.
  abbrev not_backed : Proc
  not_backed = errno_saved stay.errno (
      alloc_saved stay.alloc (
        context_saved stay.frame stay.timer stay.sp stay.elr_el1 stay.pstate
          (buffer_written (s.procs s.curr_pid))))

  abbrev trapped : Sys
  trapped = switched (written left s.curr_pid kept) kernel_pid s.curr_pid

  emptied_at : left.procs s.curr_pid ≡ buffer_written (s.procs s.curr_pid)
  emptied_at = written_at s s.curr_pid (buffer_written (s.procs s.curr_pid))

  run_turn : IsAccessible stay s → user_turn stay s ≡ done tt trapped
  unfolding user_turn write_buff_svc load
  run_turn ok =
      rw
        (
          lt→ltb s.curr_pid max_proc r.slot,
          ok.pending,
          change_lem s s.curr_pid buffer_written r.slot,
          save_context_lem stay.reads stay.after stay.frame stay.timer stay.sp stay.elr_el1
              stay.pstate stay.esr_el1 left r.slot ok.message,
          emptied_at,
        )
        refl

  Quiet-kept : Quiet (left.procs s.curr_pid) kept
  Quiet-kept =
      let quiet = Quiet-back_up stay.after (call_code stay) not_backed in
      subst (λ b. Quiet b kept) (sym emptied_at)
        (record {
          state = quiet.state;
          prio = quiet.prio;
          next = quiet.next;
          prev = quiet.prev;
          ready = quiet.ready;
          pid = quiet.pid;
          sibling = quiet.sibling;
          sibling' = quiet.sibling';
          child = quiet.child;
          parent = quiet.parent;
        })

  kept_at : trapped.procs s.curr_pid ≡ kept
  kept_at = written_at left s.curr_pid kept

  Traps-trapped : Traps trapped
  Traps-trapped = record {
    steady = IsSteady-switched (written left s.curr_pid kept) kernel_pid s.curr_pid (
        IsSteady-written left s.curr_pid kept
          (IsSteady-moved emptied s.curr_pid s.last_pid stay.alloc stay.errno (
            IsSteady-written s s.curr_pid (buffer_written (s.procs s.curr_pid)) r.steady r.running
              (record {
                state = refl;
                prio = refl;
                next = refl;
                prev = refl;
                ready = refl;
                pid = refl;
                sibling = refl;
                sibling' = refl;
                child = refl;
                parent = refl;
              })))
          (subst (λ (b : Proc). is_runnable b.state ≡ true) (sym emptied_at) r.running) Quiet-kept);
    idle = refl;
    slot = r.slot;
    running =
        subst (λ (b : Proc). is_runnable b.state ≡ true) (sym kept_at)
          (ap is_runnable ((Quiet-back_up stay.after (call_code stay) not_backed).state)
            ∙ r.running);
    used =
        subst (λ (b : Proc). b.buffer.used_size ≤ reg b 2) (sym kept_at)
          (used_back_up stay.after (call_code stay) not_backed refl);
  }

  -- The trap is taken, and leaves a steady system in the kernel.
  pub user_turn-Traps : IsAccessible stay s → (t : Sys) × (user_turn stay s ≡ done tt t) × Traps t
  user_turn-Traps ok = (trapped, run_turn ok, Traps-trapped)
