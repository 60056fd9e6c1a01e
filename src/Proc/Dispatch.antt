-- ===== src/Proc/Dispatch.antt =====
-- The handler of a system call, `c_el1_svc_aarch64_handler`.
pub mod Cycle
use sysres_os.Base.{ℕ, ◌%◌, ◌^◌, ◌==◌, if◌then◌else◌}
use sysres_os.Proc.Run.{Cmd, panic, ◌>>=◌, ◌>>◌, get}
use sysres_os.Proc.Lifecycle.{syscall_fork, syscall_exit, syscall_wait}
use sysres_os.Proc.Channel.{syscall_send, syscall_receive, syscall_acknowledge}
use sysres_os.Proc.Context.{Setup, run_process}
use sysres_os.Proc.Schedule.{schedule}

-- `setup` is what `c_init_mmu` does, `counter` the clock when `schedule` draws.
unfoldable pub svc_handler : Setup → (counter esr_el1 : ℕ) → Cmd (Unit {0})
svc_handler setup counter esr_el1 =
    let code = esr_el1 % 2 ^ 16 in
    if code == 0
    then syscall_fork setup >> schedule counter
    else if code == 1
    then syscall_exit >> schedule counter
    else if code == 2
    then syscall_wait >> schedule counter
    else if code == 3
    then syscall_send >> schedule counter
    else if code == 4
    then syscall_receive >> schedule counter
    else if code == 5
    then syscall_acknowledge >> schedule counter
    else if code == 101
    -- `run_process` does not return.
    then (do s ← get; run_process s.last_pid)
    else (λ _. panic)
