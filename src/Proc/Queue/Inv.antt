-- ===== src/Proc/Queue/Inv.antt =====
-- The invariant of the run queues, over the list of members of each queue.
use sysres_os.Base.{
  ℕ, ◌<◌, ◌≡◌, Bool, true, Option, List, ◌==◌, ◌&&◌, has, count, ltb, arith, sym, ◌∙◌, count_congr,
}
use sysres_os.Ring.{IsRing, IsRing-congr}
use sysres_os.Proc.State.{Sys, max_proc, n_prio, is_runnable}

abbrev pub nexts : Sys → ℕ → Option ℕ
nexts s x = (s.procs x).next_same_prio

abbrev pub prevs : Sys → ℕ → Option ℕ
prevs s x = (s.procs x).prev_same_prio

-- Whether slot `x` belongs in the queue of priority `k`.
abbrev pub queues_at : Sys → ℕ → ℕ → Bool
queues_at s k x = ltb x max_proc && (is_runnable (s.procs x).state && ((s.procs x).priority == k))

abbrev pub runs : Sys → ℕ → Bool
runs s x = is_runnable (s.procs x).state

-- Queue `k` is a ring of exactly the runnable processes of priority `k`, and the counters count
-- them.
pub record IsQueued (s : Sys) (q : ℕ → List ℕ) : Type 0 where
  pub ring : (k : ℕ) → k < n_prio → IsRing (nexts s) (prevs s) (s.prio_proc k) (q k)
  pub members : (k x : ℕ) → k < n_prio → has x (q k) ≡ queues_at s k x
  pub in_range : (x : ℕ) → x < max_proc → runs s x ≡ true → (s.procs x).priority < n_prio
  pub prio_count : (k : ℕ) → k < n_prio → s.prio_proc_n k ≡ count (queues_at s k) max_proc
  pub total : s.n_runnable_procs ≡ count (runs s) max_proc

-- The invariant speaks of the links, states and priorities of runnable processes, and of the queue
-- heads and counters.
pub record SameQueues (s s' : Sys) : Type 0 where
  pub same_runs : (x : ℕ) → runs s' x ≡ runs s x
  pub same_prio : (x : ℕ) → runs s x ≡ true → (s'.procs x).priority ≡ (s.procs x).priority
  pub same_next : (x : ℕ) → runs s x ≡ true → nexts s' x ≡ nexts s x
  pub same_prev : (x : ℕ) → runs s x ≡ true → prevs s' x ≡ prevs s x
  pub same_heads : s'.prio_proc ≡ s.prio_proc
  pub same_counts : s'.prio_proc_n ≡ s.prio_proc_n
  pub same_total : s'.n_runnable_procs ≡ s.n_runnable_procs

module _ (s s' : Sys) (c : SameQueues s s') where
  queues_at_congr : (k x : ℕ) → queues_at s' k x ≡ queues_at s k x
  queues_at_congr k x = ground (arith, c.same_runs x, c.same_prio x)

  pub IsQueued-congr : (q : ℕ → List ℕ) → IsQueued s q → IsQueued s' q
  IsQueued-congr q v = record {
    ring = λ k h. rw (c.same_heads) (
        IsRing-congr (nexts s) (prevs s) (nexts s') (prevs s') (s.prio_proc k) (q k) (v.ring k h)
          (λ x i. c.same_next x (ground (arith, v.members k x h)))
          (λ x i. c.same_prev x (ground (arith, v.members k x h))));
    members = λ k x h. v.members k x h ∙ sym (queues_at_congr k x);
    in_range = λ x hx r. ground (arith, c.same_runs x, c.same_prio x, v.in_range x hx);
    prio_count = λ k h. rw c.same_counts (
        v.prio_count k h
        ∙ sym (
            count_congr {P = queues_at s k} {Q = queues_at s' k} max_proc
              (λ x hx. queues_at_congr k x)));
    total =
        c.same_total
        ∙ v.total
        ∙ sym (count_congr {P = runs s} {Q = runs s'} max_proc (λ x hx. c.same_runs x));
  }
