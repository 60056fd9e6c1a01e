-- ===== src/Proc/Schedule.antt =====
-- The scheduler: `schedule`, `run_priority` and the checks of `print_prio_lists`.
pub mod Choice
pub mod Check
pub mod Resume
pub mod Turn
use sysres_os.Base.{
  ℕ, zero, suc, ◌+◌, ◌*◌, ◌%◌, Bool, true, false, Option, none, some, ltb, leb, ◌==◌, ◌&&◌,
  same_ptr, if◌then◌else◌, u32,
}
use sysres_os.Random.{random_law}
use sysres_os.Proc.State.{Proc, Sys, max_proc, max_prio, n_prio, is_runnable, quantum}
use sysres_os.Proc.Run.{
  Cmd, ◌>>=◌, ◌>>◌, pure, halted, stuck, skip, get, modify, load, change, deref, check_prio, assert,
  update,
}
use sysres_os.Proc.Context.{run_process}

-- The inner loop of `print_prio_lists`, from `p` round to the head of queue `prio`.
unfoldable pub check_members : ℕ → ℕ → ℕ → Cmd (Unit {0})
check_members zero prio p = λ _. stuck
check_members (suc fuel) prio p = do
  r ← load p
  assert (r.priority == prio)
  assert (is_runnable r.state)
  s ← get
  next ← deref r.next_same_prio
  if same_ptr (s.prio_proc prio) next then skip else check_members fuel prio next

-- `for (prio = from; prio < from + rounds; prio++)`
unfoldable pub check_queues : ℕ → ℕ → Cmd (Unit {0})
check_queues zero from = skip
check_queues (suc rounds) from = do
  s ← get
  elim (s.prio_proc from) [ none ↦ skip | some h ↦ check_members max_proc from h ]
  check_queues rounds (from + 1)

-- `print_prio_lists`, less its output.
unfoldable pub print_prio_lists : Cmd (Unit {0})
print_prio_lists = check_queues n_prio 0

unfoldable pub run_priority : ℕ → Cmd (Unit {0})
run_priority prio = do
  check_prio prio
  s ← get
  p ← deref (s.prio_proc prio)
  proc ← load p
  modify (λ t. record t { prio_proc = update t.prio_proc prio proc.next_same_prio })
  if proc.sched_conf.time_left == 0
      then change p (λ r. record r { sched_conf = record (r.sched_conf) { time_left = quantum } })
      else skip
  run_process p

-- The weights that `schedule` gives to the priorities below the highest.
unfoldable pub proba : Sys → ℕ → ℕ
proba s i =
    if i == 0 then 0 else if ltb 0 (s.prio_proc_n i) then (i * i + s.prio_proc_n i) % u32 else 0

-- The priority that `schedule` runs; `none` halts the system. `counter` is the clock at the draw.
unfoldable pub next_priority : ℕ → Sys → Option ℕ
unfolding proba
next_priority counter s =
    if s.n_runnable_procs == 0
    then none
    else if ltb 0 (s.prio_proc_n max_prio)
    then some max_prio
    else if s.n_runnable_procs == s.prio_proc_n 0
    then some 0
    else some (random_law counter (proba s) max_prio)

unfoldable pub schedule : ℕ → Cmd (Unit {0})
schedule counter = do
  print_prio_lists
  s ← get
  elim (next_priority counter s) [ none ↦ λ _. halted | some prio ↦ run_priority prio ]
