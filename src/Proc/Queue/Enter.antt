-- ===== src/Proc/Queue/Enter.antt =====
-- A process that becomes runnable.
use sysres_os.Base.{
  ℕ, ◌<◌, ◌≡◌, refl, true, false, none, some, List, ◌∷◌, ◌==◌, has, count, arith, if◌then◌else◌,
  add32, ap, sym, ◌∙◌, count_drop, count-le, count_congr, Bool-cases, inl, inr,
}
use sysres_os.Ring.{IsRing, IsRing-congr}
use sysres_os.Proc.State.{Proc, Sys, ProcState, max_proc, n_prio, is_runnable}
use sysres_os.Proc.Run.{done, update, load, change}
use sysres_os.Proc.Queue.{enter_queue}
use sysres_os.Proc.Queue.Inv.{nexts, prevs, queues_at, runs, IsQueued}

-- What entering leaves in the descriptors: of an empty queue, and of one with head `h` and last
-- member `l`.
unfoldable pub linked_first : (ℕ → Proc) → ℕ → ℕ → Proc
linked_first f p = update f p (record (f p) { next_same_prio = some p; prev_same_prio = some p })

unfoldable pub linked_front : (ℕ → Proc) → ℕ → ℕ → ℕ → ℕ → Proc
linked_front f p h l =
    let g = update f p (record (f p) { next_same_prio = some h; prev_same_prio = some l }) in
    let g' = update g h (record (g h) { prev_same_prio = some p }) in
    update g' l (record (g' l) { next_same_prio = some p })

unfoldable pub after_enter : Sys → ℕ → ℕ → (ℕ → Proc) → Sys
after_enter s k p f = record s {
  procs = f;
  prio_proc = update s.prio_proc k (some p);
  n_runnable_procs = add32 s.n_runnable_procs 1;
  prio_proc_n = update s.prio_proc_n k (add32 (s.prio_proc_n k) 1);
}

pub enter_first_lem :
    (s : Sys) (p : ℕ)
    → p < max_proc
    → (s.procs p).priority < n_prio
    → s.prio_proc (s.procs p).priority ≡ none
    → enter_queue p s ≡ done tt (after_enter s (s.procs p).priority p (linked_first s.procs p))
unfolding enter_queue after_enter load change linked_first
enter_first_lem s p hp hk e = ground arith

pub enter_front_lem :
    (s : Sys) (p h l : ℕ)
    → p < max_proc
    → h < max_proc
    → l < max_proc
    → (h == p) ≡ false
    → (s.procs p).priority < n_prio
    → s.prio_proc (s.procs p).priority ≡ some h
    → (s.procs h).prev_same_prio ≡ some l
    → enter_queue p s ≡ done tt (after_enter s (s.procs p).priority p (linked_front s.procs p h l))
unfolding enter_queue after_enter load change linked_front
enter_front_lem s p h l hp hh hl ne hk e el = ground arith

-- The state after `change_state` to `runnable`.
unfoldable pub entered : Sys → ℕ → ℕ → (ℕ → Proc) → ProcState → Sys
unfolding after_enter
entered s k p f st =
    let t = after_enter s k p f in
    record t { procs = update t.procs p (record (t.procs p) { state = st }) }

-- Only links change, up to the entry of `p`.
abbrev pub SameButLinks : (f g : ℕ → Proc) → Type 0
SameButLinks f g =
    (x : ℕ)
    → (g x ≡ record (f x) {
      next_same_prio = (g x).next_same_prio;
      prev_same_prio = (g x).prev_same_prio;
    })

module _ (s : Sys) (k p : ℕ) (f : ℕ → Proc) (st : ProcState) (on : is_runnable st ≡ true)
    (same : SameButLinks s.procs f) (q : ℕ → List ℕ) (v : IsQueued s q) (hp : p < max_proc)
    (hk : (s.procs p).priority ≡ k) (hk' : k < n_prio) (off : runs s p ≡ false) where
  abbrev t : Sys
  t = entered s k p f st

  unfoldable pub enqueue : ℕ → List ℕ
  enqueue j = if j == k then p ∷ q j else q j

  pub links-entered :
      (x : ℕ) → (nexts t x ≡ (f x).next_same_prio) × (prevs t x ≡ (f x).prev_same_prio)
  unfolding entered
  links-entered x = ground arith

  state-entered : (x : ℕ) → (t.procs x).state ≡ (if x == p then st else (s.procs x).state)
  unfolding entered
  state-entered x = ground (arith, ap (λ r. r.state) (same x))

  priority-entered : (x : ℕ) → (t.procs x).priority ≡ (s.procs x).priority
  unfolding entered
  priority-entered x = ground (arith, ap (λ r. r.priority) (same x))

  runs-entered : (x : ℕ) → runs t x ≡ (if x == p then true else runs s x)
  runs-entered x = ground (arith, state-entered x)

  queues_at-entered : (j x : ℕ) → queues_at t j x ≡ (if x == p then j == k else queues_at s j x)
  queues_at-entered j x = ground (arith, state-entered x, priority-entered x)

  heads-entered : (j : ℕ) → t.prio_proc j ≡ (if j == k then some p else s.prio_proc j)
  unfolding entered
  heads-entered j = ground arith

  counts-entered :
      (j : ℕ) → t.prio_proc_n j ≡ (if j == k then add32 (s.prio_proc_n k) 1 else s.prio_proc_n j)
  unfolding entered
  counts-entered j = ground arith

  n_runnable-entered : t.n_runnable_procs ≡ add32 s.n_runnable_procs 1
  unfolding entered
  n_runnable-entered = refl

  members-entered : (j x : ℕ) → j < n_prio → has x (enqueue j) ≡ queues_at t j x
  unfolding enqueue
  members-entered j x hj = ground (arith, queues_at-entered j x, v.members j x hj, v.members j p hj)

  in_range-entered : (x : ℕ) → x < max_proc → runs t x ≡ true → (t.procs x).priority < n_prio
  in_range-entered x hx r =
      rw (priority-entered x) (ground (arith, runs-entered x, v.in_range x hx))

  count-entered : (j : ℕ) → j < n_prio → t.prio_proc_n j ≡ count (queues_at t j) max_proc
  count-entered j hj = elim (Bool-cases (j == k)) [
    | inl e ↦
        let eq : j ≡ k = ground arith in
        let more =
          count_drop {P = queues_at t k} {Q = queues_at s k} max_proc p hp
            (ground (arith, queues_at-entered k p)) (ground arith)
            (λ x ne. ground (arith, queues_at-entered k x)) in
        rw eq (
          ground
            (arith, more, counts-entered k, v.prio_count k hk', count-le (queues_at t k) max_proc))
    | inr e ↦
        ground (arith, counts-entered j)
        ∙ v.prio_count j hj
        ∙ sym (
            count_congr {P = queues_at s j} {Q = queues_at t j} max_proc
              (λ x h. ground (arith, queues_at-entered j x)))
  ]

  total-entered : t.n_runnable_procs ≡ count (runs t) max_proc
  total-entered =
      let more =
        count_drop {P = runs t} {Q = runs s} max_proc p hp (ground (arith, runs-entered p)) off
          (λ x ne. ground (arith, runs-entered x)) in
      omega (arith, more, n_runnable-entered, v.total, count-le (runs t) max_proc)

  module _ (own : IsRing (nexts t) (prevs t) (some p) (p ∷ q k))
      (others : (j x : ℕ)
        → j < n_prio
        → (j == k) ≡ false
        → has x (q j) ≡ true
        → ((f x).next_same_prio ≡ nexts s x) × ((f x).prev_same_prio ≡ prevs s x)) where
    IsRing-entered : (j : ℕ) → j < n_prio → IsRing (nexts t) (prevs t) (t.prio_proc j) (enqueue j)
    unfolding enqueue
    IsRing-entered j hj = elim (Bool-cases (j == k)) [
      | inl e ↦ let eq : j ≡ k = ground arith in rw (heads-entered j, e, ap q eq) own
      | inr e ↦
          rw (heads-entered j, e)
            (IsRing-congr (nexts s) (prevs s) (nexts t) (prevs t) (s.prio_proc j) (q j)
              (v.ring j hj) (λ x i. (links-entered x).0 ∙ (others j x hj e i).0)
              (λ x i. (links-entered x).1 ∙ (others j x hj e i).1))
    ]

    pub IsQueued-entered : IsQueued t enqueue
    IsQueued-entered = record {
      ring = IsRing-entered;
      members = members-entered;
      in_range = in_range-entered;
      prio_count = count-entered;
      total = total-entered;
    }
