-- ===== src/Proc/Schedule/Choice.antt =====
-- The priority that `schedule` chooses.
use mathlib.Core.Path.{subst}
use sysres_os.Base.{
  ℕ, ◌*◌, ◌<◌, ◌≤◌, ◌≡◌, ◌≢◌, refl, true, false, Option, none, some, List, arith, ltb, ◌==◌,
  Bool-cases, inl, inr, count-pos, pos-count, count-le, count_differ, count_mono, sym,
}
use sysres_os.Ring.{ring-head}
use sysres_os.Random.{random_law}
use sysres_os.Random.Law.{random_law-IsDrawn, weight_sum-pos}
use sysres_os.Proc.State.{Sys, max_proc, max_prio, n_prio}
use sysres_os.Proc.Queue.Inv.{nexts, prevs, queues_at, runs, IsQueued}
use sysres_os.Proc.Schedule.{next_priority, proba}

-- Process `p` heads the queue of priority `k`.
pub record IsHead (s : Sys) (k p : ℕ) : Type 0 where
  pub in_range : k < n_prio
  pub head : s.prio_proc k ≡ some p
  pub slot : p < max_proc
  pub running : runs s p ≡ true
  pub prio : (s.procs p).priority ≡ k

module _ (s : Sys) (q : ℕ → List ℕ) (v : IsQueued s q) where
  pub IsHead-count : (k : ℕ) → k < n_prio → 0 < s.prio_proc_n k → (p : ℕ) × IsHead s k p
  IsHead-count k hk pos =
      let (x, hx, at) = count-pos (queues_at s k) max_proc (omega (arith, v.prio_count k hk)) in
      let (h, eh, mh) =
        ring-head (nexts s) (prevs s) (s.prio_proc k) x (q k) (v.ring k hk)
          (ground (arith, v.members k x hk)) in
      (
        h,
        record {
          in_range = hk;
          head = eh;
          slot = ground (arith, v.members k h hk);
          running = ground (arith, v.members k h hk);
          prio = ground (arith, v.members k h hk);
        },
      )

  middle_at :
      (x : ℕ)
      → x < max_proc
      → runs s x ≡ true
      → (s.procs x).priority ≢ 0
      → s.prio_proc_n max_prio ≡ 0
      → (k : ℕ) × (0 < k) × (k < max_prio) × (0 < s.prio_proc_n k)
  middle_at x hx on ne none_high =
      let hk : (s.procs x).priority < n_prio = v.in_range x hx on in
      let pos : 0 < s.prio_proc_n (s.procs x).priority = omega (
        arith,
        pos-count (queues_at s (s.procs x).priority) max_proc x hx (ground arith),
        v.prio_count (s.procs x).priority hk,
      ) in
      ((s.procs x).priority, omega arith, ground arith, pos)

  -- A runnable process whose priority is neither 0 nor the highest.
  middle :
      s.n_runnable_procs ≢ s.prio_proc_n 0
      → s.prio_proc_n max_prio ≡ 0
      → (k : ℕ) × (0 < k) × (k < max_prio) × (0 < s.prio_proc_n k)
  middle ne none_high =
      let sub = count_mono (queues_at s 0) (runs s) max_proc (λ x h. ground arith) in
      let (x, hx, out, on) =
        count_differ (queues_at s 0) (runs s) max_proc
          (omega (arith, sub, v.total, v.prio_count 0 (omega arith))) in
      middle_at x hx on (ground arith) none_high

  -- The weights of the draw.
  proba_pos : (k : ℕ) → k < n_prio → (0 < proba s k) → 0 < s.prio_proc_n k
  unfolding proba
  proba_pos k hk pos = ground arith

  proba_ne_zero : (k : ℕ) → 0 < proba s k → k ≢ 0
  unfolding proba
  proba_ne_zero k pos = ground arith

  pos_proba : (k : ℕ) → 0 < k → k < max_prio → 0 < s.prio_proc_n k → 0 < proba s k
  unfolding proba
  pos_proba k h0 hk pos =
      let few : s.prio_proc_n k ≤ 32 =
        omega (arith, v.prio_count k (omega arith), count-le (queues_at s k) max_proc) in
      let square : k * k ≤ 225 = grind arith in ground arith

  drawn :
      (counter : ℕ)
      → s.n_runnable_procs ≢ s.prio_proc_n 0
      → s.prio_proc_n max_prio ≡ 0
      → let k = random_law counter (proba s) max_prio in
        (k < n_prio) × (0 < s.prio_proc_n k) × (k ≢ 0)
  drawn counter ne none_high =
      let (j, j0, j15, jn) = middle ne none_high in
      let total = weight_sum-pos (proba s) max_prio j j15 (pos_proba j j0 j15 jn) in
      let (d, pos) = random_law-IsDrawn (proba s) counter max_prio total in
      let hk : random_law counter (proba s) max_prio < n_prio = omega (arith, d.index) in
      (hk, proba_pos _ hk pos, proba_ne_zero _ pos)

  module _ (counter : ℕ) where
    choose_none : (s.n_runnable_procs == 0) ≡ true → next_priority counter s ≡ none
    unfolding next_priority
    choose_none idle = rw idle

    choose_high :
        (s.n_runnable_procs == 0) ≡ false
        → ltb 0 (s.prio_proc_n max_prio) ≡ true
        → next_priority counter s ≡ some max_prio
    unfolding next_priority
    choose_high busy high = rw (busy, high)

    choose_low :
        (s.n_runnable_procs == 0) ≡ false
        → ltb 0 (s.prio_proc_n max_prio) ≡ false
        → (s.n_runnable_procs == s.prio_proc_n 0) ≡ true
        → next_priority counter s ≡ some 0
    unfolding next_priority
    choose_low busy none_high low = rw (busy, none_high, low)

    choose_drawn :
        (s.n_runnable_procs == 0) ≡ false
        → ltb 0 (s.prio_proc_n max_prio) ≡ false
        → (s.n_runnable_procs == s.prio_proc_n 0) ≡ false
        → next_priority counter s ≡ some (random_law counter (proba s) max_prio)
    unfolding next_priority
    choose_drawn busy none_high mixed = rw (busy, none_high, mixed)

  -- What the choice has to be.
  abbrev pub Serves : Option ℕ → Type 0
  Serves none = s.n_runnable_procs ≡ 0
  Serves (some k) =
      (s.n_runnable_procs ≢ 0)
      × ((p : ℕ) × IsHead s k p)
      × (0 < s.prio_proc_n max_prio → k ≡ max_prio)
      × (k ≡ 0 → s.n_runnable_procs ≡ s.prio_proc_n 0)

  -- On queues in order, a priority is chosen exactly when a process is runnable, and then its queue has a head: a
  -- runnable process of that priority. The highest priority is chosen whenever it has a process, and
  -- the lowest only if no other has one.
  pub next_priority-Serves : (counter : ℕ) → Serves (next_priority counter s)
  next_priority-Serves counter = elim (Bool-cases (s.n_runnable_procs == 0)) [
    | inl idle ↦ subst Serves (sym (choose_none counter idle)) (ground arith)
    | inr busy ↦ elim (Bool-cases (ltb 0 (s.prio_proc_n max_prio))) [
      | inl high ↦ subst Serves (sym (choose_high counter busy high)) (
        ground arith,
        IsHead-count max_prio (omega arith) (ground arith),
        (λ h. refl),
        (λ e. absurd (omega arith)),
      )
      | inr none_high ↦ elim (Bool-cases (s.n_runnable_procs == s.prio_proc_n 0)) [
        | inl low ↦ subst Serves (sym (choose_low counter busy none_high low)) (
          ground arith,
          IsHead-count 0 (omega arith) (ground arith),
          (λ h. absurd (ground arith)),
          (λ e. ground arith),
        )
        | inr mixed ↦
            let (hk, pos, ne0) = drawn counter (ground arith) (ground arith) in
            subst Serves (sym (choose_drawn counter busy none_high mixed)) (
              ground arith,
              IsHead-count _ hk pos,
              (λ h. absurd (ground arith)),
              (λ e. absurd (ne0 e)),
            )
      ]
    ]
  ]
