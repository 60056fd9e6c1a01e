-- ===== src/Proc/Tests/Turns.antt =====
-- The theorems on the life cycle and on the turns of the kernel, at tables with two processes.
use sysres_os.Base.{
  ℕ, ◌≡◌, ◌%◌, true, leb, refl, false, List, [], ◌∷◌, ◌==◌, if◌then◌else◌, arith, Bool-cases, inl,
  inr,
}
use sysres_os.Proc.State.{Sys, ProcState, zombie, waiting, wait_listener, is_runnable, is_free}
use sysres_os.Proc.Run.{fault}
use sysres_os.Step.{returns}
use sysres_os.Mmu.State.{Mmu}
use sysres_os.Proc.Context.{Setup}
use sysres_os.Proc.Descriptor.{new_proc_descriptor}
use sysres_os.Proc.Lifecycle.{syscall_fork, syscall_wait, syscall_exit}
use sysres_os.Proc.Lifecycle.Fork.{fork_outcome, syscall_fork-refines, fork-faults}
use sysres_os.Proc.Lifecycle.Wait.{wait_outcome, syscall_wait-refines}
use sysres_os.Proc.Lifecycle.Exit.{exit_outcome, syscall_exit-refines}
use sysres_os.Proc.Search.{find_from}
use sysres_os.Proc.Queue.Ends.{Ends}
use sysres_os.Proc.Schedule.Turn.{Turn, schedule-Turn}
use sysres_os.Proc.Family.Kin.{IsKin}
use sysres_os.Proc.Steady.{IsSteady}
use sysres_os.Proc.Steady.Trap.{Stay}
use sysres_os.Proc.Tests.{blank, two, runner, other, regs, IsSound-two, IsOrderly-other}

abbrev blank_mmu : Mmu
blank_mmu = record {
  lvl2_table_address = 0;
  id_paging_size = 0;
  word = λ x. 0;
  byte = λ x. 0;
  pages = record {
    map = λ x. 0;
    map_address = 0;
    head = 0;
    size = 0;
    bind_counter_offset = 0;
    bind_counter = 0;
  };
}

-- Every process has its tables at 0x1000.
abbrev setup : Setup
setup pid = returns 0x1000 blank_mmu

-- Process 2 is the child of process 1.
abbrev kin_two : ℕ → List ℕ
kin_two k = if k == 1 then 2 ∷ [] else []

abbrev family : ℕ → ProcState → Sys
family r0 st = two (runner (regs r0 0 4 0)) (other st 1)

module _ (r0 : ℕ) (st : ProcState) (off : is_runnable st ≡ false) (used : is_free st ≡ false) where
  IsKin-two : IsKin (family r0 st).procs kin_two
  unfolding new_proc_descriptor
  IsKin-two = record {
    numbered = λ x h f. ground arith;
    parents = λ x h f. ground arith;
    roots = λ x f o. ground arith;
    idle = refl;
    closed = record {
      behind = λ x h. (2, ground arith, ground arith, ground arith);
      before = λ x h. (2, ground arith, ground arith, ground arith);
    };
    ring = λ p l. elim (Bool-cases (p == 1)) [
      | inl e ↦ rw e (refl, (refl, refl), (refl, tt))
      | inr e ↦ rw e (ground arith)
    ];
    member = λ p x l i. ground arith;
    parent = λ p x l i. ground arith;
  }

  IsSteady-two : IsSteady (family r0 st)
  IsSteady-two = record {
    sound = IsSound-two (regs r0 0 4 0) (other st 1) off (IsOrderly-other st 1);
    kin = kin_two;
    kinned = IsKin-two;
  }

-- With a zombie child; `r0` is in register 0.
steady : (r0 : ℕ) → IsSteady (family r0 zombie)
steady r0 = IsSteady-two r0 zombie refl refl

syscall_fork-refines_example :
    Ends
      (syscall_fork setup (family 3 zombie))
      (family 3 zombie)
      (fork_outcome 0x1000 (family 3 zombie).procs 1 ((steady 3).kin 1))
unfolding blank
syscall_fork-refines_example =
    syscall_fork-refines setup (family 3 zombie) (steady 3) (omega arith) refl (omega arith) 0x1000
      blank_mmu (λ c e low. refl)

fork-faults_example : syscall_fork setup (family (4294967291) zombie) ≡ fault
unfolding blank find_from
fork-faults_example =
    fork-faults setup (family (4294967291) zombie) (steady (4294967291)) (omega arith) refl 3 refl
      (omega arith)

syscall_wait-refines_example :
    Ends
      (syscall_wait (family 64 zombie))
      (family 64 zombie)
      (wait_outcome (family 64 zombie).procs 1 ((steady 64).kin 1))
unfolding blank
syscall_wait-refines_example =
    syscall_wait-refines (family 64 zombie) (steady 64) (omega arith) refl

syscall_exit-refines_example :
    Ends
      (syscall_exit (family 64 waiting))
      (family 64 waiting)
      (exit_outcome (family 64 waiting).procs 1 ((IsSteady-two 64 waiting refl refl).kin 1))
unfolding blank
syscall_exit-refines_example =
    syscall_exit-refines (family 64 waiting) (IsSteady-two 64 waiting refl refl) (omega arith) refl

schedule-Turn_example : Turn (family 3 zombie) 12345
schedule-Turn_example = schedule-Turn (family 3 zombie) (steady 3) refl 12345

-- Process 1 runs, and its child waits for a listener.
abbrev running : Sys
running = record (two (runner (regs 3 0 4 0)) (other wait_listener 1)) { curr_pid = 1 }

abbrev memory : ℕ → ℕ
memory i = i % 256

-- A call of receive, with a buffer of 40 bytes.
abbrev frame : ℕ → ℕ
frame i = if i == 30 then 40 else 64

abbrev stay : Stay
stay = record {
  writes = λ a n. true;
  reads = λ a n. leb 64 a;
  before = memory;
  after = memory;
  frame = frame;
  timer = 1000;
  sp = 0x3F000000;
  elr_el1 = 0x80;
  pstate = 0;
  esr_el1 = 4;
  alloc = record { heap_begin = 4096; end_offset = 4096; global_base = 4096 };
  errno = record { no = 0; errdata = 0 };
}
