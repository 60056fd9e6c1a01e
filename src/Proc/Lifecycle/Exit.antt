-- ===== src/Proc/Lifecycle/Exit.antt =====
-- `syscall_exit` on every branch.
use sysres_os.Base.{
  ℕ, ◌<◌, ◌≡◌, refl, true, none, some, List, [], ◌∷◌, arith, if◌then◌else◌, lt→ltb, ltb, has,
  Bool-cases, inl, inr, ◌∙◌, ◌%◌, ◌^◌,
}
use sysres_os.Proc.State.{Proc, Sys, max_proc, zombie, is_waiting}
use sysres_os.Proc.Run.{Run, done, load, update}
use sysres_os.Proc.Descriptor.{reg}
use sysres_os.Proc.Lifecycle.{handle_zombie_child, syscall_exit}
use sysres_os.Proc.Lifecycle.Reap.{handle_zombie_child-Ends, Ends-with_procs}
use sysres_os.Proc.Lifecycle.Wait.{child_handled}
use sysres_os.Proc.Queue.{change_state}
use sysres_os.Proc.Queue.Inv.{runs, IsQueued, SameQueues, IsQueued-congr}
use sysres_os.Proc.Queue.Update.{written, change_lem, IsQueued-written}
use sysres_os.Proc.Queue.Ends.{Ends, start, then_change_state, with_state, Ends-by}
use sysres_os.Proc.Family.Links.{with_procs}
use sysres_os.Proc.Family.Walk.{
  IsChildren, Slots, siblings_next, siblings_prev, orphaned, orphan_lem, length-Slots,
}
use sysres_os.Proc.Family.Kin.{is_kid, is_live, IsKin, Slots-kin, SameKin, IsKin-congr}
use sysres_os.Proc.Steady.{IsSteady}

-- The exit status is noted.
abbrev pub exit_noted : Proc → Proc
exit_noted r = record r { err = record { no = reg r 0 % 2 ^ 32; errdata = reg r 1 } }

-- The descriptors once the children `xs` of process `p` have a new parent.
abbrev pub left_behind : (ℕ → Proc) → ℕ → List ℕ → ℕ → Proc
left_behind g p xs = orphaned (update g p (exit_noted (g p))) xs

-- The descriptors after process `p`, whose children are `xs`, exits, up to queue links.
abbrev pub exit_outcome : (ℕ → Proc) → ℕ → List ℕ → ℕ → Proc
exit_outcome g p xs =
    let g' = left_behind g p xs in
    let parent = (g' p).parent_pid in
    if is_waiting (g' parent).state then child_handled g' parent p else with_state p zombie g'

module _ (s : Sys) (steady : IsSteady s) (hp : s.last_pid < max_proc)
    (on : runs s s.last_pid ≡ true) where
  abbrev p : ℕ
  p = s.last_pid

  abbrev kids : List ℕ
  kids = steady.kin p

  alive : is_live s.procs p ≡ true
  alive = ground arith

  abbrev noted : Sys
  noted = written s p (exit_noted (s.procs p))

  noted_same : (x : ℕ) → SameKin (s.procs x) (noted.procs x)
  noted_same x = record {
    same_free = ground arith;
    same_zombie = λ z. ground arith;
    same_kernel = λ z. ground arith;
    same_pid = ground arith;
    same_next = ground arith;
    same_prev = ground arith;
    same_child = ground arith;
    same_parent = ground arith;
  }

  pub IsKin-noted : IsKin noted.procs steady.kin
  IsKin-noted = IsKin-congr s.procs noted.procs noted_same steady.kin steady.kinned

  pub alive_noted : is_live noted.procs p ≡ true
  alive_noted = ground arith

  IsQueued-noted : IsQueued noted steady.sound.queues
  IsQueued-noted =
      IsQueued-written s p _
        (record { runnable = refl; prio = λ h. refl; next = λ h. refl; prev = λ h. refl })
        steady.sound.queues steady.sound.queued

  abbrev orphans : Sys
  orphans = with_procs noted (orphaned noted.procs kids)

  SameQueues-orphans : SameQueues noted orphans
  unfolding orphaned
  SameQueues-orphans = record {
    same_runs = λ x. ground arith;
    same_prio = λ x h. ground arith;
    same_next = λ x h. ground arith;
    same_prev = λ x h. ground arith;
    same_heads = refl;
    same_counts = refl;
    same_total = refl;
  }

  IsQueued-orphans : IsQueued orphans steady.sound.queues
  IsQueued-orphans =
      IsQueued-congr noted orphans SameQueues-orphans steady.sound.queues IsQueued-noted

  pub orphans_keep :
      (x : ℕ)
      → (siblings_next orphans.procs x ≡ siblings_next s.procs x)
        × (siblings_prev orphans.procs x ≡ siblings_prev s.procs x)
        × ((orphans.procs x).state ≡ (s.procs x).state)
        × ((orphans.procs x).priority ≡ (s.procs x).priority)
  unfolding orphaned
  orphans_keep x = (ground arith, ground arith, ground arith, ground arith)

  father_lem :
      (x : ℕ) → (orphans.procs x).parent_pid ≡ (if has x kids then 1 else (s.procs x).parent_pid)
  unfolding orphaned
  father_lem x = ground arith

  abbrev parent : ℕ
  parent = (orphans.procs p).parent_pid

  pub parent_slot : parent < max_proc
  parent_slot = ground (arith, father_lem p, steady.kinned.parents p hp)

  -- Only a forked process has another one as its parent.
  pub exits_as_kid : is_waiting (orphans.procs parent).state ≡ true → is_kid s.procs p ≡ true
  exits_as_kid w = elim (Bool-cases (ltb 1 p)) [
    | inl later ↦ ground arith
    | inr early ↦
        let self : parent ≡ p =
          ground (arith, father_lem p, steady.kinned.roots p, steady.kinned.member p p alive) in
        absurd (ground (arith, orphans_keep p, self))
  ]

  abbrev orphans_of : List ℕ → Sys
  orphans_of xs = with_procs noted (orphaned noted.procs xs)

  abbrev parent_of : List ℕ → ℕ
  parent_of xs = ((orphans_of xs).procs p).parent_pid

  -- The part behind the loop.
  abbrev rest : List ℕ → Run (Unit {0})
  rest xs =
      (if is_waiting ((orphans_of xs).procs (parent_of xs)).state
          then handle_zombie_child (parent_of xs) p
          else change_state p zombie)
        (orphans_of xs)

  run_none : (noted.procs p).child ≡ none → parent_of [] < max_proc → syscall_exit s ≡ rest []
  unfolding syscall_exit load orphaned
  run_none e slot =
      rw
        (
          change_lem s p exit_noted hp,
          lt→ltb p max_proc hp,
          e,
          lt→ltb p max_proc hp,
          lt→ltb (noted.procs p).parent_pid max_proc slot,
        )
        refl

  run_some :
      (h : ℕ) (ys : List ℕ)
      → IsChildren noted.procs p (h ∷ ys)
      → Slots (h ∷ ys)
      → parent_of (h ∷ ys) < max_proc
      → syscall_exit s ≡ rest (h ∷ ys)
  unfolding syscall_exit load
  run_some h ys ring slots slot =
      rw
        (
          change_lem s p exit_noted hp,
          lt→ltb p max_proc hp,
          ring.0,
          orphan_lem h noted max_proc h ys (omega (arith, length-Slots (h ∷ ys) ring.2 slots)) slots
              ring.2.0 ring.1,
          lt→ltb p max_proc hp,
          lt→ltb (parent_of (h ∷ ys)) max_proc slot,
        )
        refl

  run_by :
      (xs : List ℕ)
      → IsChildren noted.procs p xs
      → Slots xs
      → parent_of xs < max_proc
      → syscall_exit s ≡ rest xs
  run_by [] ring slots slot = run_none ring slot
  run_by (h ∷ ys) ring slots slot = run_some h ys ring slots slot

  exit_handles :
      is_waiting (orphans.procs parent).state ≡ true
      → Ends (handle_zombie_child parent p orphans) s (child_handled orphans.procs parent p)
  exit_handles w =
      let kid = exits_as_kid w in
      let (b, nb, pb, kb) = steady.kinned.closed.behind p kid in
      let (a, pa, na, ka) = steady.kinned.closed.before p kid in
      let nb' : siblings_next orphans.procs p ≡ some b = (orphans_keep p).0 ∙ nb in
      let pa' : siblings_prev orphans.procs p ≡ some a = (orphans_keep p).1 ∙ pa in
      rw (pa', nb')
        (Ends-with_procs s orphans.procs (
          handle_zombie_child-Ends orphans steady.sound.queues IsQueued-orphans parent p a b
            parent_slot hp (ground arith) (ground arith) nb' pa'
            (ground (arith, orphans_keep parent, steady.sound.orderly parent parent_slot))))

  exit_zombie : Ends (change_state p zombie orphans) s (with_state p zombie orphans.procs)
  exit_zombie = Ends-with_procs s orphans.procs (
      then_change_state (done tt orphans) orphans orphans.procs
        (start orphans steady.sound.queues IsQueued-orphans) p hp zombie
        (λ off. absurd (ground arith)))

  ends_by : Ends (rest kids) s (exit_outcome s.procs p kids)
  ends_by = elim (Bool-cases (is_waiting (orphans.procs parent).state)) [
    | inl w ↦ Ends-by (exit_outcome s.procs p kids) (rw w refl) (exit_handles w) (λ x. rw w refl)
    | inr w ↦ Ends-by (exit_outcome s.procs p kids) (rw w refl) exit_zombie (λ x. rw w refl)
  ]

  -- `syscall_exit` by a running process returns, and the descriptors are those of `exit_outcome`: the
  -- status is noted and each child has process 1 as its parent; if the parent waits, the caller is
  -- handled at once, so its slot is free and the parent runs with its number and status; otherwise
  -- it is a zombie. The run queues stay in order.
  pub syscall_exit-refines : Ends (syscall_exit s) s (exit_outcome s.procs p (steady.kin p))
  syscall_exit-refines =
      Ends-by (exit_outcome s.procs p kids)
        (run_by kids (IsKin-noted.ring p alive_noted)
          (Slots-kin noted.procs steady.kin IsKin-noted p alive_noted) parent_slot)
        ends_by (λ x. refl)
