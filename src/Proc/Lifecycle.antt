-- ===== src/Proc/Lifecycle.antt =====
-- The system calls that make and end processes: fork, wait and exit.
pub mod Reap
pub mod Wait
pub mod Handled
pub mod Exit
pub mod Forked
pub mod Child
pub mod Fork
pub mod Keep
use sysres_os.Base.{
  ℕ, zero, suc, ◌+◌, ◌%◌, ◌^◌, true, none, some, ◌==◌, same_ptr, if◌then◌else◌, lt_int, to_int,
  of_int,
}
use sysres_os.Proc.State.{
  Proc, free, runnable, waiting, zombie, is_zombie, is_waiting, max_proc, init_pid,
}
use sysres_os.Proc.Errno
use sysres_os.Proc.Run.{Cmd, ◌>>=◌, ◌>>◌, pure, stuck, skip, get, load, change, deref, assert}
use sysres_os.Proc.Queue.{change_state}
use sysres_os.Proc.Family.{add_child, remove_child, print_children}
use sysres_os.Proc.Search.{find_free_proc}
use sysres_os.Proc.Context.{Setup, set_up_memory_new_proc}
use sysres_os.Proc.Descriptor.{
  child_descriptor, reg, with_reg, set_reg, fail, copy_bytes, sizeof_err, err_bytes,
}

-- The part of `syscall_fork` behind its checks.
unfoldable pub fork_child : Setup → (parent child priority n_children : ℕ) → Cmd (Unit {0})
fork_child setup parent child priority n_children = do
  set_reg parent 0 (of_int child)
  par ← load parent
  change child (λ _. child_descriptor par child priority)
  set_reg child 0 0
  add_child parent child
  change_state child runnable
  set_up_memory_new_proc setup child
  change child (λ r. record r { initialized = true })
  new_n_children ← print_children parent
  assert (n_children + 1 == new_n_children)

unfoldable pub syscall_fork : Setup → Cmd (Unit {0})
unfolding fork_child
syscall_fork setup = do
  s ← get
  let parent = s.last_pid
  n_children ← print_children parent
  slot ← find_free_proc
  elim slot [
    | none ↦ fail parent Errno.max_proc_reached
    | some child ↦ do
      par ← load parent
      let priority = to_int (reg par 0)
      if lt_int par.priority priority
          then fail parent Errno.too_high_child_priority
          else fork_child setup parent child priority n_children
  ]

-- The write of the exit status that `handle_zombie_child` prepares, on the parent's descriptor.
unfoldable pub take_status : Proc → Proc → Proc
take_status ch r =
    let addr = reg r 0 in
    let r' = with_reg 0 (of_int ch.pid) r in
    if addr == 0 then r' else record r' {
      buffer = record (r'.buffer) {
        write_addr = addr;
        buff = copy_bytes sizeof_err (err_bytes ch.err) (r'.buffer.buff);
        used_size = sizeof_err;
      };
    }

unfoldable pub handle_zombie_child : ℕ → ℕ → Cmd (Unit {0})
unfolding take_status
handle_zombie_child parent child = do
  ch ← load child
  change parent (take_status ch)
  remove_child parent child
  change_state child free
  change_state parent runnable

-- The loop of `syscall_wait`: the first zombie behind `child`, or the last sibling before `first`.
unfoldable pub find_zombie : ℕ → ℕ → ℕ → Cmd ℕ
find_zombie zero child first = λ _. stuck
find_zombie (suc fuel) child first = do
  ch ← load child
  next ← deref ch.next_sibling
  r ← load next
  if is_zombie r.state
      then pure next
      else if same_ptr r.next_sibling first
      then pure next
      else find_zombie fuel next first

unfoldable pub syscall_wait : Cmd (Unit {0})
syscall_wait = do
  s ← get
  let parent = s.last_pid
  print_children parent
  par ← load parent
  elim par.child [
    | none ↦ fail parent Errno.no_child
    | some child ↦ do
      ch ← load child
      if is_zombie ch.state then handle_zombie_child parent child else do
        found ← find_zombie max_proc child child
        r ← load found
        if is_zombie r.state then handle_zombie_child parent found else change_state parent waiting
  ]

-- The loop of `syscall_exit`: the children from `child` round to `first` go to process 1.
unfoldable pub orphan : ℕ → ℕ → ℕ → Cmd (Unit {0})
orphan zero child first = λ _. stuck
orphan (suc fuel) child first = do
  change child (λ r. record r { parent_pid = init_pid })
  ch ← load child
  if same_ptr ch.next_sibling first
      then skip
      else do next ← deref ch.next_sibling; orphan fuel next first

unfoldable pub syscall_exit : Cmd (Unit {0})
syscall_exit = do
  s ← get
  let p = s.last_pid
  change p (λ r. record r { err = record { no = reg r 0 % 2 ^ 32; errdata = reg r 1 } })
  proc ← load p
  elim proc.child [ none ↦ skip | some c ↦ orphan max_proc c c ]
  proc' ← load p
  parent ← load proc'.parent_pid
  if is_waiting parent.state then handle_zombie_child proc'.parent_pid p else change_state p zombie
