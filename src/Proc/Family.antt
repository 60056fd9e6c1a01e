-- ===== src/Proc/Family.antt =====
-- The children of a process: a circular doubly linked list through `next_sibling` and
-- `prev_sibling`, with a head pointer in the parent.
pub mod Links
pub mod Walk
pub mod Kin
pub mod Reaped
pub mod Adopted
pub mod Ended
use sysres_os.Base.{ℕ, zero, suc, ◌+◌, none, some, same_ptr, if◌then◌else◌}
use sysres_os.Proc.State.{max_proc}
use sysres_os.Proc.Run.{Cmd, ◌>>=◌, ◌>>◌, pure, stuck, skip, load, change, deref}

unfoldable pub add_child : ℕ → ℕ → Cmd (Unit {0})
add_child parent child = do
  par ← load parent
  elim par.child [
    | none ↦ change child (λ r. record r { next_sibling = some child; prev_sibling = some child })
    | some h ↦ do
      head ← load h
      change child (λ r. record r { next_sibling = some h; prev_sibling = head.prev_sibling })
      change h (λ r. record r { prev_sibling = some child })
      ch ← load child
      prev ← deref ch.prev_sibling
      change prev (λ r. record r { next_sibling = some child })
  ]
  change parent (λ r. record r { child = some child })

unfoldable pub remove_child : ℕ → ℕ → Cmd (Unit {0})
remove_child parent child = do
  ch ← load child
  prev ← deref ch.prev_sibling
  next ← deref ch.next_sibling
  change prev (λ r. record r { next_sibling = some next })
  change next (λ r. record r { prev_sibling = some prev })
  par ← load parent
  ch' ← load child
  if same_ptr par.child child
      then change parent (λ r. record r {
        child = if same_ptr ch'.next_sibling child then none else ch'.next_sibling;
      })
      else skip

-- The loop of `print_children`, which counts the siblings from `child` round to `first`.
unfoldable pub count_siblings : ℕ → ℕ → ℕ → ℕ → Cmd ℕ
count_siblings zero child first n = λ _. stuck
count_siblings (suc fuel) child first n = do
  ch ← load child
  if same_ptr ch.next_sibling first
      then pure n
      else do next ← deref ch.next_sibling; count_siblings fuel next first (n + 1)

-- `print_children`, less its output.
unfoldable pub print_children : ℕ → Cmd ℕ
print_children parent = do
  par ← load parent
  elim par.child [ none ↦ pure 0 | some c ↦ count_siblings max_proc c c 1 ]
