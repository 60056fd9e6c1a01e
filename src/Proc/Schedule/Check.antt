-- ===== src/Proc/Schedule/Check.antt =====
-- The checks of `print_prio_lists` pass on queues in order.
use mathlib.Core.Path.{subst}
use sysres_os.Base.{
  ℕ, zero, suc, ◌+◌, ◌<◌, ◌≤◌, ◌≡◌, refl, true, false, none, some, List, [], ◌∷◌, arith, same_ptr,
  has, length, lt→ltb, ◌==◌,
}
use sysres_os.Ring.{Seg, IsRing}
use sysres_os.Proc.State.{Sys, max_proc, n_prio}
use sysres_os.Proc.Run.{done, load}
use sysres_os.Proc.Queue.Inv.{nexts, prevs, runs, IsQueued}
use sysres_os.Proc.Schedule.{check_members, check_queues, print_prio_lists}
use sysres_os.Proc.Family.Walk.{length-Slots}

module _ (s : Sys) (prio h : ℕ) (head : s.prio_proc prio ≡ some h) where
  -- Every slot of the list passes.
  abbrev Pass : List ℕ → Type 0
  Pass xs =
      (x : ℕ)
      → has x xs ≡ true
      → (x < max_proc) × (((s.procs x).priority == prio) ≡ true) × (runs s x ≡ true)

  check_members_lem :
      (fuel c : ℕ) (ys : List ℕ)
      → length ys < fuel
      → Pass (c ∷ ys)
      → has h ys ≡ false
      → Seg (nexts s) (prevs s) c ys h
      → check_members fuel prio c s ≡ done tt s
  unfolding check_members load
  check_members_lem zero c ys lt pass out seg = absurd (omega arith)
  check_members_lem (suc fuel) c [] lt pass out seg =
      let (slot, at, on) = pass c (ground arith) in
      let self : same_ptr (some h) h ≡ true = ground arith in
      rw (lt→ltb c max_proc slot, at, on, seg.0, head, self) refl
  check_members_lem (suc fuel) c (y ∷ ys) lt pass out seg =
      let (slot, at, on) = pass c (ground arith) in
      let other : same_ptr (some h) y ≡ false = ground arith in
      rw (lt→ltb c max_proc slot, at, on, seg.0.0, head, other)
        (check_members_lem fuel y ys (omega arith) (λ x i. pass x (ground arith)) (ground arith)
          seg.1)

module _ (s : Sys) (q : ℕ → List ℕ) (v : IsQueued s q) where
  pass_all :
      (k : ℕ)
      → k < n_prio
      → (x : ℕ) → has x (q k) ≡ true
      → (x < max_proc) × (((s.procs x).priority == k) ≡ true) × (runs s x ≡ true)
  pass_all k hk x i = ground (arith, v.members k x hk)

  -- One round: an empty queue, or its members from the head round.
  check_round :
      (rounds k : ℕ) (xs : List ℕ)
      → k < n_prio
      → q k ≡ xs
      → check_queues rounds (k + 1) s ≡ done tt s
      → check_queues (suc rounds) k s ≡ done tt s
  unfolding check_queues
  check_round rounds k [] hk e rest =
      let r : s.prio_proc k ≡ none =
        subst (IsRing (nexts s) (prevs s) (s.prio_proc k)) e (v.ring k hk) in
      rw (r, rest) refl
  check_round rounds k (h ∷ ys) hk e rest =
      let r : IsRing (nexts s) (prevs s) (s.prio_proc k) (h ∷ ys) =
        subst (IsRing (nexts s) (prevs s) (s.prio_proc k)) e (v.ring k hk) in
      let pass =
        subst
          (λ xs.
            (x : ℕ)
            → has x xs ≡ true
            → (x < max_proc) × (((s.procs x).priority == k) ≡ true) × (runs s x ≡ true))
          e (pass_all k hk) in
      let few : length (h ∷ ys) ≤ max_proc = length-Slots (h ∷ ys) r.2 (λ x i. (pass x i).0) in
      rw (r.0, check_members_lem s k h r.0 max_proc h ys (omega (arith, few)) pass r.2.0 r.1, rest)
        refl

  check_queues_lem : (rounds k : ℕ) → k + rounds ≤ n_prio → check_queues rounds k s ≡ done tt s
  unfolding check_queues
  check_queues_lem zero k h = refl
  check_queues_lem (suc rounds) k h =
      check_round rounds k (q k) (omega arith) refl (check_queues_lem rounds (k + 1) (omega arith))

  -- `print_prio_lists` returns, with all its assertions true.
  pub print_prio_lists_lem : print_prio_lists s ≡ done tt s
  unfolding print_prio_lists
  print_prio_lists_lem = check_queues_lem n_prio 0 (omega arith)
