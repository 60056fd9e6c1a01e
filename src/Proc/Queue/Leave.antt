-- ===== src/Proc/Queue/Leave.antt =====
-- A runnable process that stops being runnable.
use sysres_os.Base.{
  ℕ, ◌<◌, ◌≡◌, refl, true, false, none, some, List, ◌==◌, has, count, arith, if◌then◌else◌, sub32,
  ap, sym, ◌∙◌, count_drop, count-le, count_congr, erase, same_ptr, has-erase, Bool-cases, inl, inr,
}
use sysres_os.Ring.{IsRing, IsRing-congr, ring-Distinct}
use sysres_os.Ring.Remove.{remove}
use sysres_os.Proc.State.{Proc, Sys, ProcState, max_proc, n_prio, is_runnable}
use sysres_os.Proc.Run.{done, update, load, change}
use sysres_os.Proc.Queue.{leave_queue}
use sysres_os.Proc.Queue.Inv.{nexts, prevs, queues_at, runs, IsQueued}

-- The descriptors once `a` and `b` are neighbours.
unfoldable pub joined : (ℕ → Proc) → ℕ → ℕ → ℕ → Proc
joined f a b =
    let g = update f a (record (f a) { next_same_prio = some b }) in
    update g b (record (g b) { prev_same_prio = some a })

-- The state that `leave_queue` leaves.
unfoldable pub after_leave : Sys → ℕ → ℕ → ℕ → ℕ → Sys
unfolding joined
after_leave s k p a b = record s {
  procs = joined s.procs a b;
  prio_proc =
      if same_ptr (s.prio_proc k) p
      then update s.prio_proc k (if b == p then none else some b)
      else s.prio_proc;
  n_runnable_procs = sub32 s.n_runnable_procs 1;
  prio_proc_n = update s.prio_proc_n k (sub32 (s.prio_proc_n k) 1);
}

pub leave_queue_lem :
    (s : Sys) (p a b : ℕ)
    → p < max_proc
    → a < max_proc
    → b < max_proc
    → (s.procs p).priority < n_prio
    → (s.procs p).next_same_prio ≡ some b
    → (s.procs p).prev_same_prio ≡ some a
    → leave_queue p s ≡ done tt (after_leave s (s.procs p).priority p a b)
unfolding leave_queue after_leave load change
leave_queue_lem s p a b hp ha hb hk en ep = ground arith

-- The state after `change_state` to a state that is not runnable.
unfoldable pub left : Sys → ℕ → ℕ → ℕ → ℕ → ProcState → Sys
unfolding after_leave
left s k p a b st =
    let t = after_leave s k p a b in
    record t { procs = update t.procs p (record (t.procs p) { state = st }) }

module _ (s : Sys) (k p a b : ℕ) (st : ProcState) (off : is_runnable st ≡ false) where
  nexts-left : (x : ℕ) → nexts (left s k p a b st) x ≡ (if x == a then some b else nexts s x)
  unfolding left
  nexts-left x = ground arith

  prevs-left : (x : ℕ) → prevs (left s k p a b st) x ≡ (if x == b then some a else prevs s x)
  unfolding left
  prevs-left x = ground arith

  state-left :
      (x : ℕ) → ((left s k p a b st).procs x).state ≡ (if x == p then st else (s.procs x).state)
  unfolding left
  state-left x = ground arith

  priority-left : (x : ℕ) → ((left s k p a b st).procs x).priority ≡ (s.procs x).priority
  unfolding left
  priority-left x = ground arith

  runs-left : (x : ℕ) → runs (left s k p a b st) x ≡ (if x == p then false else runs s x)
  runs-left x = ground (arith, state-left x)

  queues_at-left :
      (j x : ℕ) → queues_at (left s k p a b st) j x ≡ (if x == p then false else queues_at s j x)
  queues_at-left j x = ground (arith, state-left x, priority-left x)

  module _ (q : ℕ → List ℕ) (v : IsQueued s q) (hp : p < max_proc) (hk : (s.procs p).priority ≡ k)
      (on : runs s p ≡ true) (en : nexts s p ≡ some b) (ep : prevs s p ≡ some a) where
    unfoldable pub dequeue : ℕ → List ℕ
    dequeue j = if j == k then erase p (q j) else q j

    prio_proc-left :
        (j : ℕ)
        → (left s k p a b st).prio_proc j ≡ (
            if j == k
            then (if same_ptr (s.prio_proc k) p
                then (if b == p then none else some b)
                else s.prio_proc k)
            else s.prio_proc j)
    unfolding left
    prio_proc-left j = ground arith

    prio_proc_n-left : (left s k p a b st).prio_proc_n k ≡ sub32 (s.prio_proc_n k) 1
    unfolding left
    prio_proc_n-left = ground arith

    other_count-left :
        (j : ℕ) → (j == k) ≡ false → (left s k p a b st).prio_proc_n j ≡ s.prio_proc_n j
    unfolding left
    other_count-left j e = ground arith

    n_runnable-left : (left s k p a b st).n_runnable_procs ≡ sub32 s.n_runnable_procs 1
    unfolding left
    n_runnable-left = refl

    module _ (hk' : k < n_prio) (ma : has a (q k) ≡ true) (mb : has b (q k) ≡ true)
        (mp : has p (q k) ≡ true) where
      -- The neighbours of `p` are in no other queue.
      other :
          (j x y : ℕ)
          → (j == k) ≡ false
          → j < n_prio
          → has y (q k) ≡ true
          → has x (q j) ≡ true
          → (x == y) ≡ false
      other j x y ne hj my mx = ground (arith, v.members k y, v.members j x)

      IsRing-left :
          (j : ℕ)
          → j < n_prio
          → IsRing
              (nexts (left s k p a b st))
              (prevs (left s k p a b st))
              ((left s k p a b st).prio_proc j)
              (dequeue j)
      unfolding dequeue
      IsRing-left j hj = elim (Bool-cases (j == k)) [
        | inl e ↦
            let eq : j ≡ k = ground arith in
            rw (prio_proc-left j, e, ap q eq)
              (remove (nexts s) (prevs s) (nexts (left s k p a b st)) (prevs (left s k p a b st)) p
                a b ep en (nexts-left) (prevs-left) (s.prio_proc k) (q k) (v.ring k hk') mp)
        | inr e ↦
            rw (prio_proc-left j, e)
              (IsRing-congr (nexts s) (prevs s) (nexts (left s k p a b st))
                (prevs (left s k p a b st)) (s.prio_proc j) (q j) (v.ring j hj)
                (λ x i. ground (arith, nexts-left x, other j x a e hj ma i))
                (λ x i. ground (arith, prevs-left x, other j x b e hj mb i)))
      ]

      members-left : (j x : ℕ) → j < n_prio → has x (dequeue j) ≡ queues_at (left s k p a b st) j x
      unfolding dequeue
      members-left j x hj =
          let d = ring-Distinct _ _ _ (q k) (v.ring k hk') in
          ground (
            arith,
            queues_at-left j x,
            v.members j x hj,
            v.members j p hj,
            v.members k x hk',
            has-erase x p (q k) d,
          )

      in_range-left :
          (x : ℕ)
          → x < max_proc
          → runs (left s k p a b st) x ≡ true
          → ((left s k p a b st).procs x).priority < n_prio
      in_range-left x hx on' = rw (priority-left x) (v.in_range x hx (ground (arith, runs-left x)))

      count-left :
          (j : ℕ)
          → j < n_prio
          → (left s k p a b st).prio_proc_n j ≡ count (queues_at (left s k p a b st) j) max_proc
      count-left j hj = elim (Bool-cases (j == k)) [
        | inl e ↦
            let eq : j ≡ k = ground arith in
            let fewer =
              count_drop {P = queues_at s k} {Q = queues_at (left s k p a b st) k} max_proc p hp
                (ground arith) (ground (arith, queues_at-left k p))
                (λ x ne. ground (arith, queues_at-left k x)) in
            rw eq (
              omega (
                arith,
                fewer,
                prio_proc_n-left,
                v.prio_count k hk',
                count-le (queues_at s k) max_proc,
              ))
        | inr e ↦
            (other_count-left j e)
            ∙ v.prio_count j hj
            ∙ sym (
                count_congr {P = queues_at s j} {Q = queues_at (left s k p a b st) j} max_proc
                  (λ x h. ground (arith, queues_at-left j x)))
      ]

      total-left : (left s k p a b st).n_runnable_procs ≡ count (runs (left s k p a b st)) max_proc
      total-left =
          let fewer =
            count_drop {P = runs s} {Q = runs (left s k p a b st)} max_proc p hp on
              (ground (arith, runs-left p)) (λ x ne. ground (arith, runs-left x)) in
          omega (arith, fewer, n_runnable-left, v.total, count-le (runs s) max_proc)

      pub IsQueued-left : IsQueued (left s k p a b st) dequeue
      IsQueued-left = record {
        ring = IsRing-left;
        members = members-left;
        in_range = in_range-left;
        prio_count = count-left;
        total = total-left;
      }
