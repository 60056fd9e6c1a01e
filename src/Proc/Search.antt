-- ===== src/Proc/Search.antt =====
-- The loops over `sys_state.procs` that look for the first slot with a property.
pub mod First
use sysres_os.Base.{ℕ, zero, suc, ◌+◌, ◌-◌, Bool, true, false, Option, none, some, ◌==◌, ◌&&◌}
use sysres_os.Proc.State.{Sys, max_proc, is_free, is_wait_listener}
use sysres_os.Proc.Run.{Cmd, pure}

-- `for (i = from; i < from + rounds; i++) if (test(i)) return i;`
unfoldable pub find_from : (ℕ → Bool) → ℕ → ℕ → Option ℕ
find_from test zero i = none
find_from test (suc rounds) i = elim (test i) [
  | true ↦ some i
  | false ↦ find_from test rounds (i + 1)
]

-- `find_free_proc`; `none` is the result -1.
unfoldable pub find_free_proc : Cmd (Option ℕ)
find_free_proc s = pure (find_from (λ i. is_free (s.procs i).state) (max_proc - 2) 2) s

-- The loop of `syscall_receive`: the first sender that waits for `pid` to listen.
unfoldable pub find_waiting_sender : ℕ → Cmd (Option ℕ)
find_waiting_sender pid s =
    pure
      (find_from
        (λ i. is_wait_listener (s.procs i).state && ((s.procs i).sender_data.target_pid == pid))
        max_proc 0)
      s
