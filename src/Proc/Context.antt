-- ===== src/Proc/Context.antt =====
-- What a process switch saves and restores, and the memory configuration of a new process:
-- src/proc/proc.c and src/proc/proc_mmu.c.
use sysres_os.Base.{
  ℕ, Bool, ◌+◌, ◌-◌, ◌*◌, ◌%◌, ◌^◌, true, not, ltb, ◌==◌, ◌&&◌, ◌||◌, if◌then◌else◌, bit_or,
  bit_and, u64,
}
use sysres_os.Proc.State.{Proc, buff_size, n_reg, kernel_pid, is_runnable}
use sysres_os.Step.{Outcome}
use sysres_os.Mmu.State.{Mmu}
use sysres_os.Mmu.Tables.{Linker}
use sysres_os.Mmu.Fork.{c_init_mmu}
use sysres_os.Proc.Run.{
  Run, panic, fault, Cmd, ◌>>=◌, ◌>>◌, pure, skip, get, modify, assert, load, change,
}
use sysres_os.Proc.Descriptor.{copy_bytes, reg}

unfoldable pub save_errno : ℕ → Cmd (Unit {0})
save_errno p = do s ← get; change p (λ r. record r { err = s.errno })

unfoldable pub restore_errno : ℕ → Cmd (Unit {0})
restore_errno p = do r ← load p; modify (λ t. record t { errno = r.err })

unfoldable pub save_alloc_conf : ℕ → Cmd (Unit {0})
save_alloc_conf p = do
  s ← get
  change p (λ r. record r { mem_conf = record (r.mem_conf) { alloc = s.alloc } })

unfoldable pub restore_alloc_conf : ℕ → Cmd (Unit {0})
restore_alloc_conf p = do r ← load p; modify (λ t. record t { alloc = r.mem_conf.alloc })

abbrev pub has_message : (svc_code addr size : ℕ) → Bool
has_message svc_code addr size = (svc_code == 3 || svc_code == 5) && (not (addr == 0) && ltb 0 size)

-- What `back_up_buff_svc` writes to the descriptor. `memory` is the memory of the process, byte by
-- byte.
unfoldable pub backed_up : (ℕ → ℕ) → ℕ → Proc → Proc
backed_up memory svc_code r =
    let addr = reg r 1 in
    let size = reg r 2 in
    if has_message svc_code addr size
    then record r {
      buffer = record (r.buffer) {
        used_size = size;
        buff =
            copy_bytes (if ltb size buff_size then size else buff_size) (λ i. memory (addr + i))
              (r.buffer.buff);
      };
    }
    else r

-- Whether the copy of the message, if there is one, returns. `reads addr size` says so for the bytes
-- from `addr` on; otherwise the kernel takes a fault of its own.
abbrev pub message_reads : (ℕ → ℕ → Bool) → (svc_code addr size : ℕ) → Bool
message_reads reads svc_code addr size =
    if has_message svc_code addr size
    then reads addr (if ltb size buff_size then size else buff_size)
    else true

-- `back_up_buff_svc`. A fault in the kernel's copy ends in a failed assertion.
unfoldable pub back_up_buff_svc : (ℕ → ℕ → Bool) → (ℕ → ℕ) → (p svc_code : ℕ) → Cmd (Unit {0})
unfolding backed_up
back_up_buff_svc reads memory p svc_code = do
  r ← load p
  assert (message_reads reads svc_code (reg r 1) (reg r 2))
  change p (backed_up memory svc_code)

-- Whether the write that is pending in a descriptor, if there is one, returns.
abbrev pub pending_writes : (ℕ → ℕ → Bool) → Proc → Bool
pending_writes writes r = r.buffer.write_addr == 0 || writes r.buffer.write_addr r.buffer.used_size

-- `write_buff_svc`: the memory of the process that runs, and the state, after the pending write. A
-- fault in the kernel's copy ends in a failed assertion.
unfoldable pub write_buff_svc : (ℕ → ℕ → Bool) → (ℕ → ℕ) → Cmd (ℕ → ℕ)
write_buff_svc writes memory = do
  s ← get
  r ← load s.curr_pid
  assert (pending_writes writes r)
  change s.curr_pid (λ r. record r { buffer = record (r.buffer) { write_addr = 0; used_size = 0 } })
  let addr = r.buffer.write_addr
  pure (
      if addr == 0 then memory else λ j.
      if not (ltb j addr) && ltb j (addr + r.buffer.used_size)
      then r.buffer.buff (j - addr)
      else memory j)

-- `save_context`. `frame i` is the word at `handler_sp + 8 * i`, and `timer` what
-- `get_curr_timer_value` returns.
unfoldable pub save_context :
    (reads : ℕ → ℕ → Bool)
    → (memory frame : ℕ → ℕ) (timer sp elr_el1 pstate is_timer_irq esr_el1 : ℕ) → Cmd (Unit {0})
unfolding save_alloc_conf save_errno back_up_buff_svc
save_context reads memory frame timer sp elr_el1 pstate is_timer_irq esr_el1 = do
  s ← get
  let p = s.curr_pid
  change p (λ r. record r {
    sched_conf = record (r.sched_conf) { time_left = if is_timer_irq == 0 then timer else 0 };
    saved_context = record (r.saved_context) {
      sp = sp;
      pc = elr_el1;
      pstate = pstate;
      registers = λ i.
          if ltb i (n_reg - 1)
          then (if i % 2 == 1 then frame (n_reg + 1 - i) else frame (n_reg - 1 - i))
          else if i == n_reg - 1
          then frame 1
          else r.saved_context.registers i;
    };
  })
  save_alloc_conf p
  save_errno p
  if is_timer_irq == 0 then back_up_buff_svc reads memory p (esr_el1 % 2 ^ 16) else skip
  modify (λ t. record t { last_pid = t.curr_pid; curr_pid = kernel_pid })

-- What `c_init_mmu` does for a process number, in the state of the memory manager at the call.
abbrev pub Setup : Type 0
Setup = ℕ → Outcome Mmu ℕ

-- Its outcome, as one of a command on the process table.
abbrev pub answer : Outcome Mmu ℕ → Cmd ℕ
answer Outcome.panics = λ _. panic
answer Outcome.stuck = λ _. Run.stuck
answer Outcome.faults = λ _. fault
answer (Outcome.returns a m) = pure a

-- That of Mmu.Fork.
unfoldable pub setup_by : Linker → (tables : ℕ → ℕ) → (memmap_addr parent_pid : ℕ) → Mmu → Setup
setup_by linker tables memmap_addr parent_pid m pid =
    c_init_mmu linker tables memmap_addr pid parent_pid m

-- `set_up_memory_new_proc`: where `c_init_mmu` does not return, neither does the command.
unfoldable pub set_up_memory_new_proc : Setup → ℕ → Cmd (Unit {0})
set_up_memory_new_proc setup p = do
  r ← load p
  lvl2 ← answer (setup r.pid)
  change p (λ r'. record r' {
    mem_conf = record (r'.mem_conf) {
      ttbr0_el1 = bit_or ((r.pid * 2 ^ 48) % u64) (bit_and lvl2 (2 ^ 48 - 2));
    };
  })

-- `switch_to_proc`, up to the jump into the process.
unfoldable pub switch_to_proc : ℕ → Cmd (Unit {0})
unfolding restore_alloc_conf restore_errno
switch_to_proc p = do
  restore_alloc_conf p
  restore_errno p
  change p (λ r. record r { initialized = true })

-- `run_process`: the state in which the process runs.
unfoldable pub run_process : ℕ → Cmd (Unit {0})
unfolding save_alloc_conf switch_to_proc
run_process p = do
  r ← load p
  assert (not (r.pid == 0) && ltb r.pid (2 ^ 31))
  assert (is_runnable r.state)
  assert (not r.sched_conf.preempt || ltb 0 r.sched_conf.time_left)
  s ← get
  assert (s.curr_pid == 0)
  assert r.initialized
  save_alloc_conf kernel_pid
  modify (λ t. record t { curr_pid = r.pid })
  switch_to_proc p
