-- ===== src/Proc/Queue/Entering.antt =====
-- `change_state` where a process enters its queue.
use mathlib.Core.Path.{fun_ext, subst}
use sysres_os.Base.{
  ℕ, ◌<◌, ◌≡◌, refl, true, false, none, some, List, [], ◌∷◌, ◌==◌, has, arith, if◌then◌else◌, ap,
  sym, last, lt→ltb, has-last, ◌∙◌,
}
use sysres_os.Ring.{IsRing, prev-stop}
use sysres_os.Ring.Insert.{insert_first, insert_front}
use sysres_os.Proc.State.{Proc, Sys, ProcState, max_proc, n_prio, is_runnable}
use sysres_os.Proc.Run.{done, load, change}
use sysres_os.Proc.Queue.{change_state, set_state}
use sysres_os.Proc.Queue.Inv.{nexts, prevs, runs, IsQueued}
use sysres_os.Proc.Queue.Enter.{
  after_enter, entered, linked_first, linked_front, enter_first_lem, enter_front_lem, enqueue,
  IsQueued-entered, SameButLinks, links-entered,
}
use sysres_os.Proc.Queue.Outcome.{unlinked, Changed, requeue, Result}

module _ (p : ℕ) (st : ProcState) (s : Sys) (q : ℕ → List ℕ) (v : IsQueued s q)
    (hp : p < max_proc) where
  abbrev k : ℕ
  k = (s.procs p).priority

  run_enter_first :
      runs s p ≡ false
      → is_runnable st ≡ true
      → k < n_prio
      → s.prio_proc k ≡ none
      → change_state p st s ≡ done tt (entered s k p (linked_first s.procs p) st)
  unfolding change_state set_state load change entered
  run_enter_first off on hk e = ground (arith, enter_first_lem s p hp hk e, lt→ltb p max_proc hp)

  run_enter_front :
      (h l : ℕ)
      → runs s p ≡ false
      → is_runnable st ≡ true
      → k < n_prio
      → h < max_proc
      → l < max_proc
      → (h == p) ≡ false
      → s.prio_proc k ≡ some h
      → prevs s h ≡ some l
      → change_state p st s ≡ done tt (entered s k p (linked_front s.procs p h l) st)
  unfolding change_state set_state load change entered
  run_enter_front h l off on hk hh hl ne e el =
      ground (arith, enter_front_lem s p h l hp hh hl ne hk e el, lt→ltb p max_proc hp)

  Changed-entered :
      (f : ℕ → Proc)
      → ((x : ℕ) → unlinked (f x) ≡ unlinked (s.procs x))
      → Changed p st s (entered s k p f st)
  unfolding entered after_enter
  Changed-entered f same = record {
    frame = λ x. ground (arith, ap (λ (r : Proc). record r { state = st }) (same x), same x);
    curr = refl;
    last = refl;
    alloc = refl;
    errno = refl;
  }

  unlinked_first : (x : ℕ) → unlinked (linked_first s.procs p x) ≡ unlinked (s.procs x)
  unfolding linked_first
  unlinked_first x = ground arith

  unlinked_front : (h l x : ℕ) → unlinked (linked_front s.procs p h l x) ≡ unlinked (s.procs x)
  unfolding linked_front
  unlinked_front h l x = ground arith

  same_first : SameButLinks s.procs (linked_first s.procs p)
  unfolding linked_first
  same_first x = ground arith

  same_front : (h l : ℕ) → SameButLinks s.procs (linked_front s.procs p h l)
  unfolding linked_front
  same_front h l x = ground arith

  -- The links after `p` has come in front of `h`, whose predecessor was `l`.
  nexts-front :
      (h l x : ℕ)
      → (h == p) ≡ false
      → (l == p) ≡ false
      → (linked_front s.procs p h l x).next_same_prio
        ≡ (if x == l then some p else if x == p then some h else nexts s x)
  unfolding linked_front
  nexts-front h l x nh nl = ground arith

  prevs-front :
      (h l x : ℕ)
      → (h == p) ≡ false
      → (l == p) ≡ false
      → (linked_front s.procs p h l x).prev_same_prio
        ≡ (if x == h then some p else if x == p then some l else prevs s x)
  unfolding linked_front
  prevs-front h l x nh nl = ground arith

  links-first :
      (x : ℕ)
      → let r = linked_first s.procs p x in
        (r.next_same_prio ≡ (if x == p then some p else nexts s x))
        × (r.prev_same_prio ≡ (if x == p then some p else prevs s x))
  unfolding linked_first
  links-first x = ground arith

  module _ (off : runs s p ≡ false) (on : is_runnable st ≡ true) (hk : k < n_prio) where
    queued_by :
        (f : ℕ → Proc)
        → SameButLinks s.procs f
        → IsRing (nexts (entered s k p f st)) (prevs (entered s k p f st)) (some p) (p ∷ q k)
        → ((j x : ℕ)
            → j < n_prio
            → (j == k) ≡ false
            → has x (q j) ≡ true
            → ((f x).next_same_prio ≡ nexts s x) × ((f x).prev_same_prio ≡ prevs s x))
        → IsQueued (entered s k p f st) (requeue s p st q)
    unfolding enqueue
    queued_by f same own others =
        subst (IsQueued (entered s k p f st)) (fun_ext λ j. ground arith)
          (IsQueued-entered s k p f st on same q v hp refl hk off own others)

    enters_empty : q k ≡ [] → Result p st s q
    enters_empty e =
        let f = linked_first s.procs p in
        let r : s.prio_proc k ≡ none =
          subst (IsRing (nexts s) (prevs s) (s.prio_proc k)) e (v.ring k hk) in
        let links = links-entered s k p f st on same_first q v hp refl hk off in
        (
          entered s k p f st,
          run_enter_first off on hk r,
          queued_by f same_first
              (subst
                (λ xs.
                  IsRing (nexts (entered s k p f st)) (prevs (entered s k p f st)) (some p)
                    (p ∷ xs))
                (sym e)
                (insert_first (nexts s) (prevs s) (nexts (entered s k p f st))
                  (prevs (entered s k p f st)) p (ground (arith, links p, links-first p))
                  (ground (arith, links p, links-first p))))
              (λ j x hj ne i. (
                ground (arith, links-first x, v.members j x hj),
                ground (arith, links-first x, v.members j x hj),
              )),
          Changed-entered f unlinked_first,
        )

    enters_front : (h : ℕ) (xs : List ℕ) → q k ≡ h ∷ xs → Result p st s q
    enters_front h xs e =
        let r : IsRing (nexts s) (prevs s) (s.prio_proc k) (h ∷ xs) =
          subst (IsRing (nexts s) (prevs s) (s.prio_proc k)) e (v.ring k hk) in
        let l = last h xs in
        let el : prevs s h ≡ some l = prev-stop (nexts s) (prevs s) h h xs r.1 in
        let mh : has h (q k) ≡ true = rw e (ground arith) in
        let ml : has l (q k) ≡ true = rw e (has-last h xs) in
        let hh : h < max_proc = ground (arith, v.members k h hk) in
        let hl : l < max_proc = ground (arith, v.members k l hk) in
        let nh : (h == p) ≡ false = ground (arith, v.members k h hk) in
        let nl : (l == p) ≡ false = ground (arith, v.members k l hk) in
        let f = linked_front s.procs p h l in
        let links = links-entered s k p f st on (same_front h l) q v hp refl hk off in
        let new : has p (h ∷ xs) ≡ false =
          subst (λ ys. has p ys ≡ false) e (ground (arith, v.members k p hk)) in
        (
          entered s k p f st,
          run_enter_front h l off on hk hh hl nh r.0 el,
          queued_by f (same_front h l)
              (subst
                (λ ys.
                  IsRing (nexts (entered s k p f st)) (prevs (entered s k p f st)) (some p)
                    (p ∷ ys))
                (sym e)
                (insert_front (nexts s) (prevs s) (nexts (entered s k p f st))
                  (prevs (entered s k p f st)) p h xs (refl, r.1, r.2) new
                  (λ x. (links x).0 ∙ nexts-front h l x nh nl)
                  (λ x. (links x).1 ∙ prevs-front h l x nh nl)))
              (λ j x hj ne i. (
                ground (arith, nexts-front h l x nh nl, v.members j x hj, v.members k l hk),
                ground (arith, prevs-front h l x nh nl, v.members j x hj, v.members k h hk),
              )),
          Changed-entered f (unlinked_front h l),
        )

    pub enters : (xs : List ℕ) → q k ≡ xs → Result p st s q
    enters [] e = enters_empty e
    enters (h ∷ xs) e = enters_front h xs e
