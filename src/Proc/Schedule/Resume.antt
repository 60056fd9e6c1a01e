-- ===== src/Proc/Schedule/Resume.antt =====
-- `run_priority` and `run_process`: the head of a queue is resumed, and the queue moves on.
use mathlib.Core.Path.{subst}
use sysres_os.Base.{
  ℕ, ◌^◌, ◌<◌, ◌≡◌, refl, true, false, not, List, [], ◌∷◌, arith, ltb, ◌==◌, ◌&&◌, ◌||◌,
  if◌then◌else◌, lt→ltb, Bool-cases, inl, inr, ◌∙◌,
}
use sysres_os.Ring.{IsRing}
use sysres_os.Ring.Rotate.{rotate, has-rotate, rotate-IsRing}
use sysres_os.Proc.State.{Sys, max_proc, n_prio, quantum, kernel_pid}
use sysres_os.Proc.Run.{Run, done, load, change, update, skip}
use sysres_os.Proc.Context.{
  run_process, save_alloc_conf, switch_to_proc, restore_alloc_conf, restore_errno,
}
use sysres_os.Proc.Queue.Inv.{nexts, prevs, runs, IsQueued, SameQueues, IsQueued-congr}
use sysres_os.Proc.Queue.Update.{written, change_lem}
use sysres_os.Proc.Schedule.{run_priority}
use sysres_os.Proc.Schedule.Choice.{IsHead}

-- The state once process `p` runs.
unfoldable pub launched : Sys → ℕ → Sys
launched s p =
    let g = update s.procs kernel_pid (record (s.procs kernel_pid) {
      mem_conf = record ((s.procs kernel_pid).mem_conf) { alloc = s.alloc };
    }) in
    record s {
      curr_pid = (s.procs p).pid;
      procs = update g p (record (g p) { initialized = true });
      alloc = (g p).mem_conf.alloc;
      errno = (g p).err;
    }

module _ (s : Sys) (p : ℕ) (hp : p < max_proc) where
  run_process_by :
      (o : Run (Unit {0}))
      → done tt (launched s p) ≡ o
      → (not ((s.procs p).pid == 0) && ltb (s.procs p).pid (2 ^ 31)) ≡ true
      → runs s p ≡ true
      → (not (s.procs p).sched_conf.preempt || ltb 0 (s.procs p).sched_conf.time_left) ≡ true
      → (s.curr_pid == 0) ≡ true
      → (s.procs p).initialized ≡ true
      → run_process p s ≡ o
  unfolding run_process save_alloc_conf switch_to_proc restore_alloc_conf restore_errno load
      launched
  run_process_by o e number on time idle ready =
      rw
        (
          lt→ltb p max_proc hp,
          number,
          on,
          time,
          idle,
          ready,
          change_lem s kernel_pid
              (λ r. record r { mem_conf = record (r.mem_conf) { alloc = s.alloc } }) (omega arith),
          lt→ltb p max_proc hp,
          lt→ltb p max_proc hp,
          change_lem _ p (λ r. record r { initialized = true }) hp,
        )
        e

  pub run_process_lem :
      (not ((s.procs p).pid == 0) && ltb (s.procs p).pid (2 ^ 31)) ≡ true
      → runs s p ≡ true
      → (not (s.procs p).sched_conf.preempt || ltb 0 (s.procs p).sched_conf.time_left) ≡ true
      → (s.curr_pid == 0) ≡ true
      → (s.procs p).initialized ≡ true
      → run_process p s ≡ done tt (launched s p)
  run_process_lem = run_process_by (done tt (launched s p)) refl

-- The queue of priority `k` with its next member at the head.
abbrev pub moved : Sys → (k p : ℕ) → Sys
moved s k p = record s { prio_proc = update s.prio_proc k (s.procs p).next_same_prio }

-- A new quantum for a process that has used its own.
abbrev pub granted : Sys → ℕ → Sys
granted s p =
    if (s.procs p).sched_conf.time_left == 0
    then written s p (record (s.procs p) {
      sched_conf = record ((s.procs p).sched_conf) { time_left = quantum };
    })
    else s

-- The state once the head `p` of queue `k` runs.
abbrev pub resumed : Sys → (k p : ℕ) → Sys
resumed s k p = launched (granted (moved s k p) p) p

-- What is granted and launched stays in its queue.
granted_lem :
    (s : Sys) (p x : ℕ)
    → (((granted s p).procs x).state ≡ (s.procs x).state)
      × (((granted s p).procs x).priority ≡ (s.procs x).priority)
      × (((granted s p).procs x).initialized ≡ (s.procs x).initialized)
      × (((granted s p).procs x).pid ≡ (s.procs x).pid)
      × (nexts (granted s p) x ≡ nexts s x)
      × (prevs (granted s p) x ≡ prevs s x)
granted_lem s p x =
    (ground arith, ground arith, ground arith, ground arith, ground arith, ground arith)

granted_rest :
    (s : Sys) (p : ℕ)
    → ((granted s p).prio_proc ≡ s.prio_proc)
      × ((granted s p).prio_proc_n ≡ s.prio_proc_n)
      × ((granted s p).n_runnable_procs ≡ s.n_runnable_procs)
      × ((granted s p).curr_pid ≡ s.curr_pid)
      × ((not ((granted s p).procs p).sched_conf.preempt
            || ltb 0 ((granted s p).procs p).sched_conf.time_left)
          ≡ true)
granted_rest s p = elim (Bool-cases ((s.procs p).sched_conf.time_left == 0)) [
  | inl e ↦ rw e (refl, refl, refl, refl, ground arith)
  | inr e ↦ rw e (refl, refl, refl, refl, ground arith)
]

SameQueues-granted : (s : Sys) (p : ℕ) → SameQueues s (granted s p)
SameQueues-granted s p = record {
  same_runs = λ x. ground (arith, granted_lem s p x);
  same_prio = λ x h. (granted_lem s p x).1;
  same_next = λ x h. (granted_lem s p x).4;
  same_prev = λ x h. (granted_lem s p x).5;
  same_heads = (granted_rest s p).0;
  same_counts = (granted_rest s p).1;
  same_total = (granted_rest s p).2;
}

SameQueues-launched : (s : Sys) (p : ℕ) → SameQueues s (launched s p)
unfolding launched
SameQueues-launched s p = record {
  same_runs = λ x. ground arith;
  same_prio = λ x h. ground arith;
  same_next = λ x h. ground arith;
  same_prev = λ x h. ground arith;
  same_heads = refl;
  same_counts = refl;
  same_total = refl;
}

module _ (s : Sys) (q : ℕ → List ℕ) (v : IsQueued s q) (k p : ℕ) (head : IsHead s k p) where
  abbrev pub turned : ℕ → List ℕ
  turned j = if j == k then rotate (q k) else q j

  turned-IsRing :
      (xs : List ℕ)
      → IsRing (nexts s) (prevs s) (s.prio_proc k) xs
      → IsRing (nexts s) (prevs s) (nexts s p) (rotate xs)
  turned-IsRing [] r = absurd (ground (arith, head.head))
  turned-IsRing (h ∷ xs) r =
      let same : h ≡ p = ground (arith, head.head, r.0) in
      subst (λ y. IsRing (nexts s) (prevs s) (nexts s y) (rotate (h ∷ xs))) same
        (rotate-IsRing (nexts s) (prevs s) h xs (refl, r.1, r.2))

  IsQueued-moved : IsQueued (moved s k p) turned
  IsQueued-moved = record {
    ring = λ j hj. elim (Bool-cases (j == k)) [
      | inl e ↦ rw e (turned-IsRing (q k) (v.ring k head.in_range))
      | inr e ↦ rw e (v.ring j hj)
    ];
    members = λ j x hj. ground (arith, has-rotate x (q k), v.members j x hj);
    in_range = v.in_range;
    prio_count = v.prio_count;
    total = v.total;
  }

  pub IsQueued-resumed : IsQueued (resumed s k p) turned
  IsQueued-resumed =
      let t = granted (moved s k p) p in
      IsQueued-congr t (launched t p) (SameQueues-launched t p) turned
        (IsQueued-congr (moved s k p) t (SameQueues-granted (moved s k p) p) turned IsQueued-moved)

  abbrev t : Sys
  t = moved s k p

  grants :
      (if (s.procs p).sched_conf.time_left == 0
          then change p
              (λ r. record r { sched_conf = record (r.sched_conf) { time_left = quantum } })
          else skip)
        t
      ≡ done tt (granted t p)
  grants = elim (Bool-cases ((s.procs p).sched_conf.time_left == 0)) [
    | inl e ↦ rw e (
        change_lem t p
          (λ r. record r { sched_conf = record (r.sched_conf) { time_left = quantum } }) head.slot)
    | inr e ↦ rw e refl
  ]

  run_priority_by : (o : Run (Unit {0})) → run_process p (granted t p) ≡ o → run_priority k s ≡ o
  unfolding run_priority load
  run_priority_by o run =
      rw (lt→ltb k n_prio head.in_range, head.head, lt→ltb p max_proc head.slot, grants) run

  -- `run_priority` resumes the head of the queue.
  pub run_priority_lem :
      (s.procs p).pid ≡ p
      → (p == 0) ≡ false
      → (s.curr_pid == 0) ≡ true
      → (s.procs p).initialized ≡ true
      → run_priority k s ≡ done tt (resumed s k p)
  run_priority_lem number user idle ready = run_priority_by (done tt (resumed s k p)) (
      run_process_lem (granted t p) p head.slot (ground (arith, granted_lem t p p, head.slot))
        (ground (arith, granted_lem t p p, head.running)) (granted_rest t p).4
        (ground (arith, granted_rest t p)) (ground (arith, granted_lem t p p)))

pub curr-resumed : (s : Sys) (k p : ℕ) → (resumed s k p).curr_pid ≡ (s.procs p).pid
unfolding launched
curr-resumed s k p = (granted_lem (moved s k p) p p).3

pub runs-resumed : (s : Sys) (k p x : ℕ) → runs (resumed s k p) x ≡ runs s x
runs-resumed s k p x =
    let t = granted (moved s k p) p in
    (SameQueues-launched t p).same_runs x ∙ (SameQueues-granted (moved s k p) p).same_runs x
