-- ===== src/Proc/Descriptor.antt =====
-- Process descriptors: how proc.c fills a new one, copies one for a child, and writes to one.
use sysres_os.Base.{ℕ, ◌-◌, ◌/◌, ◌%◌, ◌^◌, true, false, none, ltb, ◌==◌, if◌then◌else◌, minus_one64}
use sysres_os.Proc.State.{Proc, Err, free, quantum, stack_begin}
use sysres_os.Proc.Errno
use sysres_os.Proc.Run.{Cmd, change, update}

-- `new_el0_pstate`: mode EL0, exceptions enabled.
abbrev pub new_el0_pstate : ℕ
new_el0_pstate = 0

-- `new_proc_descriptor`; what it does not set is zero.
unfoldable pub new_proc_descriptor : ℕ → ℕ → ℕ → ℕ → Proc
new_proc_descriptor pid parent_pid priority code = record {
  pid = pid;
  parent_pid = parent_pid;
  priority = priority;
  state = free;
  sched_conf = record { time_left = quantum; preempt = false };
  initialized = false;
  saved_context = record {
    registers = λ i. 0;
    pc = code;
    sp = stack_begin;
    pstate = new_el0_pstate;
    sctlr_el1 = 0xc00801;
  };
  mem_conf = record {
    ttbr0_el1 = 0;
    alloc = record { heap_begin = 0; end_offset = 0; global_base = 0 };
  };
  err = record { no = Errno.ok; errdata = 0 };
  child = none;
  next_sibling = none;
  prev_sibling = none;
  buffer = record { buff = λ i. 0; used_size = 0; write_addr = 0 };
  sender_data = record {
    target_pid = 0;
    send_size = 0;
    ack_data = 0;
    ack_size = 0;
    acknowledged = true;
  };
  receiver_data = record { source_pid = 0; receive_size = 0; receive_data = 0; return_code = 0 };
  next_same_prio = none;
  prev_same_prio = none;
}

-- What `make_child_proc_descriptor` writes to `*child`: the context but for register 0, the error
-- and the memory configuration of the parent.
unfoldable pub child_descriptor : Proc → ℕ → ℕ → Proc
unfolding new_proc_descriptor
child_descriptor parent pid priority =
    let c = new_proc_descriptor pid parent.pid priority parent.saved_context.pc in
    record c {
      sched_conf = record (c.sched_conf) { preempt = parent.sched_conf.preempt };
      saved_context = record (c.saved_context) {
        registers = λ i. if i == 0 then 0 else parent.saved_context.registers i;
        pstate = parent.saved_context.pstate;
        sp = parent.saved_context.sp;
        pc = parent.saved_context.pc;
      };
      err = parent.err;
      mem_conf = parent.mem_conf;
      sender_data = record (c.sender_data) { acknowledged = true };
    }

abbrev pub reg : Proc → ℕ → ℕ
reg r i = r.saved_context.registers i

abbrev pub with_reg : ℕ → ℕ → Proc → Proc
with_reg i v r = record r {
  saved_context = record (r.saved_context) { registers = update (r.saved_context.registers) i v };
}

-- `proc->saved_context.registers[i] = v`
unfoldable pub set_reg : ℕ → ℕ → ℕ → Cmd (Unit {0})
set_reg p i v = change p (with_reg i v)

-- A process that has an error: its code is noted, and -1 is the result.
abbrev pub failed : ℕ → Proc → Proc
failed code r = record r {
  err = record { no = code; errdata = r.err.errdata };
  saved_context = record (r.saved_context) {
    registers = λ i. if i == 0 then 2 ^ 64 - 1 else r.saved_context.registers i;
  };
}

-- `proc->err.no = code; proc->saved_context.registers[0] = -1`

unfoldable pub fail : ℕ → ℕ → Cmd (Unit {0})
fail p code =
    change p (λ r. with_reg 0 minus_one64 (record r { err = record (r.err) { no = code } }))

-- `memmove` of `n` bytes between two buffers that do not overlap.
abbrev pub copy_bytes : ℕ → (ℕ → ℕ) → (ℕ → ℕ) → ℕ → ℕ
copy_bytes n src dst i = if ltb i n then src i else dst i

-- `sizeof(err_t)`: the number, padding to eight bytes, and the data.
abbrev pub sizeof_err : ℕ
sizeof_err = 16

-- The bytes of an `err_t`, little-endian. The padding is zero, as in a new descriptor.
unfoldable pub err_bytes : Err → ℕ → ℕ
err_bytes e i =
    if ltb i 4
    then (e.no / 256 ^ i) % 256
    else if ltb i 8
    then 0
    else (e.errdata / 256 ^ (i - 8)) % 256
