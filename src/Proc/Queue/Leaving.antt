-- ===== src/Proc/Queue/Leaving.antt =====
-- `change_state` where a process leaves its queue.
use mathlib.Core.Path.{fun_ext, subst}
use sysres_os.Base.{ℕ, ◌<◌, ◌≡◌, refl, true, false, some, List, has, arith, lt→ltb}
use sysres_os.Ring.{ring-next, ring-prev}
use sysres_os.Proc.State.{Sys, ProcState, max_proc, n_prio, is_runnable}
use sysres_os.Proc.Run.{done, load, change}
use sysres_os.Proc.Queue.{change_state, set_state}
use sysres_os.Proc.Queue.Inv.{nexts, prevs, runs, IsQueued}
use sysres_os.Proc.Queue.Leave.{after_leave, joined, left, leave_queue_lem, dequeue, IsQueued-left}
use sysres_os.Proc.Queue.Outcome.{Changed, Result}

module _ (p : ℕ) (st : ProcState) (s : Sys) (q : ℕ → List ℕ) (v : IsQueued s q)
    (hp : p < max_proc) where
  abbrev k : ℕ
  k = (s.procs p).priority

  Changed-left : (a b : ℕ) → Changed p st s (left s k p a b st)
  unfolding left after_leave joined
  Changed-left a b = record {
    frame = λ x. ground arith;
    curr = refl;
    last = refl;
    alloc = refl;
    errno = refl;
  }

  run_leave :
      (a b : ℕ)
      → runs s p ≡ true
      → is_runnable st ≡ false
      → k < n_prio
      → a < max_proc
      → b < max_proc
      → nexts s p ≡ some b
      → prevs s p ≡ some a
      → change_state p st s ≡ done tt (left s k p a b st)
  unfolding change_state set_state load change left
  run_leave a b on off hk ha hb en ep =
      ground (arith, leave_queue_lem s p a b hp ha hb hk en ep, lt→ltb p max_proc hp)

  pub leaves : runs s p ≡ true → is_runnable st ≡ false → Result p st s q
  unfolding dequeue
  leaves on off =
      let hk : k < n_prio = v.in_range p hp on in
      let mp : has p (q k) ≡ true = ground (arith, v.members k p hk) in
      let (b, en, mb) = ring-next (nexts s) (prevs s) (s.prio_proc k) p (q k) (v.ring k hk) mp in
      let (a, ep, ma) = ring-prev (nexts s) (prevs s) (s.prio_proc k) p (q k) (v.ring k hk) mp in
      let hb : b < max_proc = ground (arith, v.members k b hk) in
      let ha : a < max_proc = ground (arith, v.members k a hk) in
      (
        left s k p a b st,
        run_leave a b on off hk ha hb en ep,
        subst (IsQueued (left s k p a b st)) (fun_ext λ j. ground arith)
            (IsQueued-left s k p a b st off q v hp refl on en ep hk ma mb mp),
        Changed-left a b,
      )
