-- ===== src/Proc/Lifecycle/Fork.antt =====
-- `syscall_fork` on every branch.
use mathlib.Core.Path.{subst}
use sysres_os.Base.{
  ℕ, ◌-◌, ◌^◌, ◌<◌, ◌≤◌, ◌≡◌, refl, Bool, true, false, Option, none, some, List, arith, lt→ltb,
  if◌then◌else◌, Bool-cases, inl, inr, length, lt_int, to_int, ◌∙◌,
}
use sysres_os.Proc.State.{Proc, Sys, max_proc, n_prio, is_free}
use sysres_os.Proc.Errno
use sysres_os.Proc.Run.{done, fault, load, update}
use sysres_os.Proc.Descriptor.{failed, fail, reg}
use sysres_os.Proc.Search.{find_from, find_free_proc}
use sysres_os.Proc.Search.First.{IsFirst, Found, find_from-Found}
use sysres_os.Step.{returns}
use sysres_os.Mmu.State.{Mmu}
use sysres_os.Proc.Context.{Setup}
use sysres_os.Proc.Lifecycle.{syscall_fork, fork_child}
use sysres_os.Proc.Lifecycle.Forked.{forked}
use sysres_os.Proc.Lifecycle.Child.{fork_child-Ends, fork_child-faults}
use sysres_os.Proc.Queue.Inv.{runs}
use sysres_os.Proc.Queue.Ends.{Ends, Ends-by, fail-Ends}
use sysres_os.Proc.Family.{print_children}
use sysres_os.Proc.Family.Walk.{print_children_lem}
use sysres_os.Proc.Family.Kin.{is_live, Slots-kin}
use sysres_os.Proc.Steady.{IsSteady}

-- The slot that `find_free_proc` gives.
abbrev pub free_slot : (ℕ → Proc) → Option ℕ
free_slot g = find_from (λ i. is_free (g i).state) (max_proc - 2) 2

-- The priority that the caller asks for.
abbrev pub asked_priority : (ℕ → Proc) → ℕ → ℕ
asked_priority g p = to_int (reg (g p) 0)

-- The descriptors after process `p`, whose children are `xs`, forks into a slot, up to queue links.
abbrev pub fork_result : ℕ → (ℕ → Proc) → ℕ → List ℕ → Option ℕ → ℕ → Proc
fork_result lvl2 g p xs none = update g p (failed Errno.max_proc_reached (g p))
fork_result lvl2 g p xs (some c) =
    if lt_int (g p).priority (asked_priority g p)
    then update g p (failed Errno.too_high_child_priority (g p))
    else forked lvl2 g p c (asked_priority g p) xs

abbrev pub fork_outcome : ℕ → (ℕ → Proc) → ℕ → List ℕ → ℕ → Proc
fork_outcome lvl2 g p xs = fork_result lvl2 g p xs (free_slot g)

module _ (setup : Setup) (s : Sys) (steady : IsSteady s) (hp : s.last_pid < max_proc)
    (on : runs s s.last_pid ≡ true) where
  abbrev p : ℕ
  p = s.last_pid

  abbrev kids : List ℕ
  kids = steady.kin p

  abbrev priority : ℕ
  priority = asked_priority s.procs p

  alive : is_live s.procs p ≡ true
  alive = ground arith

  counted : print_children p s ≡ done (length kids) s
  counted =
      print_children_lem s p kids hp (steady.kinned.ring p alive)
        (Slots-kin s.procs steady.kin steady.kinned p alive)

  run_full : free_slot s.procs ≡ none → syscall_fork setup s ≡ fail p Errno.max_proc_reached s
  unfolding syscall_fork find_free_proc
  run_full e = rw (counted, e) refl

  run_high :
      (c : ℕ)
      → free_slot s.procs ≡ some c
      → lt_int (s.procs p).priority priority ≡ true
      → syscall_fork setup s ≡ fail p Errno.too_high_child_priority s
  unfolding syscall_fork find_free_proc load
  run_high c e high = rw (counted, e, lt→ltb p max_proc hp, high) refl

  run_child :
      (c : ℕ)
      → free_slot s.procs ≡ some c
      → lt_int (s.procs p).priority priority ≡ false
      → syscall_fork setup s ≡ fork_child setup p c priority (length kids) s
  unfolding syscall_fork find_free_proc load
  run_child c e low = rw (counted, e, lt→ltb p max_proc hp, low) refl

  -- The slot is free, and not that of the kernel or of the first process.
  pub slot_found :
      (c : ℕ)
      → free_slot s.procs ≡ some c
      → (c < max_proc) × (1 < c) × (is_free (s.procs c).state ≡ true)
  slot_found c e =
      let test : ℕ → Bool = λ i. is_free (s.procs i).state in
      let first : IsFirst test (max_proc - 2) 2 c =
        subst (Found test (max_proc - 2) 2) e (find_from-Found test (max_proc - 2) 2) in
      (omega (arith, first.below), omega (arith, first.from), first.passes)

  parent_prio : (s.procs p).priority < n_prio
  parent_prio = (steady.sound.orderly p hp).prio (ground arith)

  pub in_range :
      priority < 2 ^ 31 → lt_int (s.procs p).priority priority ≡ false → priority < n_prio
  in_range pos low = ground (arith, parent_prio)

  -- The tables of the child that the caller asks for are set up, at `lvl2`.
  abbrev pub IsMapped : ℕ → Mmu → Type 0
  IsMapped lvl2 m =
      (c : ℕ)
      → free_slot s.procs ≡ some c
      → lt_int (s.procs p).priority priority ≡ false
      → setup c ≡ returns lvl2 m

  fork_by :
      (o : Option ℕ)
      → free_slot s.procs ≡ o
      → priority < 2 ^ 31
      → (lvl2 : ℕ) (m : Mmu) → IsMapped lvl2 m
      → Ends (syscall_fork setup s) s (fork_result lvl2 s.procs p kids o)
  fork_by none e pos lvl2 m mapped =
      Ends-by (fork_result lvl2 s.procs p kids none) (run_full e)
        (fail-Ends s steady.sound.queues p Errno.max_proc_reached steady.sound.queued hp)
        (λ x. refl)
  fork_by (some c) e pos lvl2 m mapped = elim (Bool-cases (lt_int (s.procs p).priority priority)) [
    | inl high ↦
        Ends-by (fork_result lvl2 s.procs p kids (some c)) (run_high c e high)
          (fail-Ends s steady.sound.queues p Errno.too_high_child_priority steady.sound.queued hp)
          (λ x. rw high refl)
    | inr low ↦
        let (hc, hc', vacant) = slot_found c e in
        Ends-by (fork_result lvl2 s.procs p kids (some c)) (run_child c e low)
          (fork_child-Ends setup s steady.sound.queues steady.sound.queued steady.kin steady.kinned
            p c priority hp hc hc' vacant alive (in_range pos low) lvl2 m (mapped c e low))
          (λ x. rw low refl)
  ]

  -- `syscall_fork` by a running process returns, if the priority asked for is not negative and
  -- `c_init_mmu` returns for the child it makes, and the descriptors are those of `fork_outcome`: no
  -- free slot and a priority above the caller's each give the caller its error and change nothing
  -- else; otherwise the first free slot gets a descriptor with the caller's context, error and heap
  -- configuration, 0 as its result and the tables that were set up, which is in front of the caller's
  -- children and runs, and the caller gets its number. The assertion on the number of children holds,
  -- and the run queues stay in order.
  pub syscall_fork-refines :
      priority < 2 ^ 31
      → (lvl2 : ℕ) (m : Mmu) → IsMapped lvl2 m
      → Ends (syscall_fork setup s) s (fork_outcome lvl2 s.procs p (steady.kin p))
  syscall_fork-refines pos lvl2 m mapped = fork_by (free_slot s.procs) refl pos lvl2 m mapped

  -- A negative priority passes the check: with a free slot, `syscall_fork` reads the head of a queue
  -- out of range.
  pub fork-faults :
      (c : ℕ) → free_slot s.procs ≡ some c → 2 ^ 31 ≤ priority → syscall_fork setup s ≡ fault
  fork-faults c e neg =
      let (hc, hc', vacant) = slot_found c e in
      run_child c e (ground (arith, parent_prio))
      ∙ fork_child-faults setup s steady.sound.queues steady.sound.queued steady.kin steady.kinned p
          c priority hp hc hc' vacant alive (ground arith)
