-- ===== src/Proc/Queue/Change.antt =====
-- `change_state` on a state whose queues are in order.
use mathlib.Core.Path.{fun_ext, subst}
use sysres_os.Base.{ℕ, ◌<◌, ◌≡◌, refl, true, List, arith, Bool-cases, inl, inr, lt→ltb}
use sysres_os.Proc.State.{Sys, ProcState, max_proc, n_prio, is_runnable}
use sysres_os.Proc.Run.{done, update, load, change}
use sysres_os.Proc.Queue.{change_state, set_state}
use sysres_os.Proc.Queue.Inv.{runs, IsQueued, SameQueues, IsQueued-congr}
use sysres_os.Proc.Queue.Outcome.{Changed, Result}
use sysres_os.Proc.Queue.Leaving.{leaves}
use sysres_os.Proc.Queue.Entering.{enters}

module _ (p : ℕ) (st : ProcState) (s : Sys) (q : ℕ → List ℕ) (v : IsQueued s q)
    (hp : p < max_proc) where
  -- The state after `change_state` when the process stays in, or out of, its queue.
  stayed : Sys
  stayed = record s { procs = update s.procs p (record (s.procs p) { state = st }) }

  run_stay : runs s p ≡ is_runnable st → change_state p st s ≡ done tt stayed
  unfolding change_state set_state load change stayed
  run_stay e = ground (arith, lt→ltb p max_proc hp)

  SameQueues-stayed : runs s p ≡ is_runnable st → SameQueues s stayed
  unfolding stayed
  SameQueues-stayed e = record {
    same_runs = λ x. ground arith;
    same_prio = λ x h. ground arith;
    same_next = λ x h. ground arith;
    same_prev = λ x h. ground arith;
    same_heads = refl;
    same_counts = refl;
    same_total = refl;
  }

  Changed-stayed : Changed p st s stayed
  unfolding stayed
  Changed-stayed = record {
    frame = λ x. ground arith;
    curr = refl;
    last = refl;
    alloc = refl;
    errno = refl;
  }

  stays : runs s p ≡ is_runnable st → Result p st s q
  stays e = (
    stayed,
    run_stay e,
    subst (IsQueued stayed) (fun_ext λ j. ground arith)
        (IsQueued-congr s stayed (SameQueues-stayed e) q v),
    Changed-stayed,
  )

  -- `change_state` on a process slot returns, moves it from or to its queue as the abstract
  -- operation does, keeps every queue a ring of exactly the runnable processes of its priority with
  -- exact counters, and changes nothing but the state and the queue links, if a process that becomes
  -- runnable has a priority in range.
  pub change_state-refines :
      (is_runnable st ≡ true → (s.procs p).priority < n_prio) → Result p st s q
  change_state-refines hk = elim (Bool-cases (runs s p)) [
    | inl on ↦ elim (Bool-cases (is_runnable st)) [
      | inl on' ↦ stays (ground arith)
      | inr off ↦ leaves p st s q v hp on off
    ]
    | inr off ↦ elim (Bool-cases (is_runnable st)) [
      | inl on ↦ enters p st s q v hp off on (hk on) (q (s.procs p).priority) refl
      | inr off' ↦ stays (ground arith)
    ]
  ]
