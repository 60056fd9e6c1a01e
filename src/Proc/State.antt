-- ===== src/Proc/State.antt =====
-- The data of src/proc/proc.h and src/libk/errno.h. A `proc_descriptor *` always points into
-- `sys_state.procs`, so a pointer is an index, or `none` for NULL. An `int` is its 32-bit pattern.
use sysres_os.Base.{ℕ, Bool, true, false, Option}

abbrev pub max_proc : ℕ
max_proc = 32

abbrev pub max_prio : ℕ
max_prio = 15

-- The length of the arrays `prio_proc` and `prio_proc_n`.
abbrev pub n_prio : ℕ
n_prio = 16

abbrev pub n_reg : ℕ
n_reg = 31

abbrev pub buff_size : ℕ
buff_size = 1024

abbrev pub kernel_pid : ℕ
kernel_pid = 0

abbrev pub init_pid : ℕ
init_pid = 1

-- `QUANTUM` of src/interrupt/timer.h, one `SECOND`.
abbrev pub quantum : ℕ
quantum = 2040816

-- `STACK_BEGIN` of src/memory/alloc.h, the `GPIO_BASE` of src/libk/uart.h.
abbrev pub stack_begin : ℕ
stack_begin = 0x3F200000

pub data ProcState : Type 0 where
  free runnable waiting zombie sending_ch listening_ch wait_listener kernel : ProcState

abbrev pub is_free : ProcState → Bool
is_free s = elim s [ free ↦ true | _ ↦ false ]

abbrev pub is_runnable : ProcState → Bool
is_runnable s = elim s [ runnable ↦ true | _ ↦ false ]

abbrev pub is_zombie : ProcState → Bool
is_zombie s = elim s [ zombie ↦ true | _ ↦ false ]

abbrev pub is_waiting : ProcState → Bool
is_waiting s = elim s [ waiting ↦ true | _ ↦ false ]

abbrev pub is_sending_ch : ProcState → Bool
is_sending_ch s = elim s [ sending_ch ↦ true | _ ↦ false ]

abbrev pub is_listening_ch : ProcState → Bool
is_listening_ch s = elim s [ listening_ch ↦ true | _ ↦ false ]

abbrev pub is_kernel : ProcState → Bool
is_kernel s = elim s [ kernel ↦ true | _ ↦ false ]

abbrev pub is_wait_listener : ProcState → Bool
is_wait_listener s = elim s [ wait_listener ↦ true | _ ↦ false ]

pub record Err : Type 0 where
  pub no : ℕ
  pub errdata : ℕ

pub record SchedConf : Type 0 where
  pub time_left : ℕ
  pub preempt : Bool

pub record Context : Type 0 where
  pub registers : ℕ → ℕ
  pub pc : ℕ
  pub sp : ℕ
  pub pstate : ℕ
  pub sctlr_el1 : ℕ

-- The static variables of src/memory/alloc.c, which a process switch saves and restores.
pub record AllocConf : Type 0 where
  pub heap_begin : ℕ
  pub end_offset : ℕ
  pub global_base : ℕ

pub record MemConf : Type 0 where
  pub ttbr0_el1 : ℕ
  pub alloc : AllocConf

pub record SenderData : Type 0 where
  pub target_pid : ℕ
  pub send_size : ℕ
  pub ack_data : ℕ
  pub ack_size : ℕ
  pub acknowledged : Bool

pub record ReceiverData : Type 0 where
  pub source_pid : ℕ
  pub receive_size : ℕ
  pub receive_data : ℕ
  pub return_code : ℕ

-- `buff` gives the byte at each index below `buff_size`.
pub record Buffer : Type 0 where
  pub buff : ℕ → ℕ
  pub used_size : ℕ
  pub write_addr : ℕ

pub record Proc : Type 0 where
  pub pid : ℕ
  pub parent_pid : ℕ
  pub priority : ℕ
  pub state : ProcState
  pub sched_conf : SchedConf
  pub initialized : Bool
  pub saved_context : Context
  pub mem_conf : MemConf
  pub err : Err
  pub child : Option ℕ
  pub next_sibling : Option ℕ
  pub prev_sibling : Option ℕ
  pub buffer : Buffer
  pub sender_data : SenderData
  pub receiver_data : ReceiverData
  pub next_same_prio : Option ℕ
  pub prev_same_prio : Option ℕ

-- `sys_state`, with the globals of alloc.c and errno.c that proc.c saves and restores.
pub record Sys : Type 0 where
  pub curr_pid : ℕ
  pub last_pid : ℕ
  pub procs : ℕ → Proc
  pub prio_proc_n : ℕ → ℕ
  pub n_runnable_procs : ℕ
  pub prio_proc : ℕ → Option ℕ
  pub alloc : AllocConf
  pub errno : Err
