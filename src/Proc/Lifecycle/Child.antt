-- ===== src/Proc/Lifecycle/Child.antt =====
-- The part of `syscall_fork` behind its checks.
use mathlib.Core.Path.{fun_ext, subst}
use sysres_os.Base.{
  ℕ, suc, ◌+◌, ◌<◌, ◌≡◌, refl, true, false, List, [], ◌∷◌, arith, lt→ltb, ltb, has, ◌==◌, last,
  length, ap, ◌∙◌, of_int, has-last,
}
use sysres_os.Ring.{prev-stop}
use sysres_os.Proc.State.{Proc, Sys, max_proc, n_prio, runnable, is_free, is_runnable}
use sysres_os.Proc.Run.{done, fault, load, change, update, assert, ◌>>=◌, ◌>>◌}
use sysres_os.Step.{returns}
use sysres_os.Mmu.State.{Mmu}
use sysres_os.Proc.Context.{Setup, set_up_memory_new_proc}
use sysres_os.Proc.Descriptor.{child_descriptor, with_reg, set_reg}
use sysres_os.Proc.Lifecycle.{fork_child}
use sysres_os.Proc.Lifecycle.Forked.{
  told, newborn, newborn_lem, table_root, with_root, ready, forked, IsKin-forked, state-forked,
}
use sysres_os.Proc.Lifecycle.Reap.{Ends-with_procs}
use sysres_os.Proc.Family.{add_child, print_children}
use sysres_os.Proc.Family.Links.{
  with_procs, adopted_first, adopted_front, add_child_first_lem, add_child_front_lem,
}
use sysres_os.Proc.Family.Walk.{IsChildren, Slots, siblings_next, siblings_prev, print_children_lem}
use sysres_os.Proc.Family.Kin.{is_live, IsKin, Slots-kin, IsKin-unlinked}
use sysres_os.Proc.Family.Adopted.{adopted, kin_adopted}
use sysres_os.Proc.Queue.{change_state, enter_queue}
use sysres_os.Proc.Queue.Inv.{IsQueued, SameQueues, IsQueued-congr}
use sysres_os.Proc.Queue.Update.{change_lem}
use sysres_os.Proc.Queue.Ends.{
  Ends, Yields, start, then_change, then_change_state, with_state, Ends-congr,
}
use sysres_os.Proc.Queue.Outcome.{unlinked}

module _ (setup : Setup) (s : Sys) (q : ℕ → List ℕ) (v : IsQueued s q) (kin : ℕ → List ℕ)
    (k : IsKin s.procs kin) (p c priority : ℕ) (hp : p < max_proc) (hc : c < max_proc) (hc' : 1 < c)
    (vacant : is_free (s.procs c).state ≡ true) (alive : is_live s.procs p ≡ true) where
  apart : (p == c) ≡ false
  apart = ground arith

  abbrev child : Proc
  child = newborn s.procs p c priority

  abbrev answered : Sys
  answered = with_procs s (told s.procs p c)

  -- The child's descriptor is filled.
  abbrev filled : Sys
  filled = with_procs s (update (told s.procs p c) c child)

  filling :
      (x : ℕ)
      → update
          (update (told s.procs p c) c (child_descriptor (told s.procs p c p) c priority))
          c
          (with_reg 0 0
            (update (told s.procs p c) c (child_descriptor (told s.procs p c p) c priority) c))
          x
        ≡ update (told s.procs p c) c child x
  filling x = let e = newborn_lem s.procs p c priority in ground (arith, e)

  -- The links once the child is in front of its siblings.
  unfoldable linked : List ℕ → ℕ → Proc
  linked [] = adopted_first filled.procs p c
  linked (h ∷ ys) = adopted_front filled.procs p c h (last h ys)

  linked_lem :
      (xs : List ℕ) (x : ℕ)
      → with_state c runnable (linked xs) x ≡ adopted (told s.procs p c) p c child xs x
  unfolding linked adopted
  linked_lem [] x = refl
  linked_lem (h ∷ ys) x = refl

  linked_child : (xs : List ℕ) → ((linked xs c).priority ≡ priority) × ((linked xs c).pid ≡ c)
  unfolding linked adopted_first adopted_front newborn
  linked_child [] = (ground arith, ground arith)
  linked_child (h ∷ ys) = (ground arith, ground arith)

  SameQueues-linked : (xs : List ℕ) → SameQueues s (with_procs s (linked xs))
  unfolding linked adopted_first adopted_front newborn
  SameQueues-linked [] = record {
    same_runs = λ x. ground arith;
    same_prio = λ x h. ground arith;
    same_next = λ x h. ground arith;
    same_prev = λ x h. ground arith;
    same_heads = refl;
    same_counts = refl;
    same_total = refl;
  }
  SameQueues-linked (h ∷ ys) = record {
    same_runs = λ x. ground arith;
    same_prio = λ x h. ground arith;
    same_next = λ x h. ground arith;
    same_prev = λ x h. ground arith;
    same_heads = refl;
    same_counts = refl;
    same_total = refl;
  }

  adds :
      (xs : List ℕ)
      → IsChildren s.procs p xs
      → Slots xs
      → ((x : ℕ) → has x xs ≡ true → (c == x) ≡ false)
      → add_child p c filled ≡ done tt (with_procs s (linked xs))
  unfolding linked
  adds [] ring slots new = add_child_first_lem filled p c hp hc (ground (arith, apart))
  adds (h ∷ ys) ring slots new =
      let mh : has h (h ∷ ys) ≡ true = ground arith in
      let el = prev-stop (siblings_next s.procs) (siblings_prev s.procs) h h ys ring.1 in
      add_child_front_lem filled p c hp hc h (last h ys) (slots h mh)
        (slots (last h ys) (has-last h ys)) (new h mh) (ground (arith, apart))
        (ground (arith, new h mh))

  abbrev kids : List ℕ
  kids = kin p

  new_kids : (x : ℕ) → has x kids ≡ true → (c == x) ≡ false
  new_kids x i = ground (arith, k.member p x alive i)

  enters_out_of_range :
      (t : Sys)
      → is_runnable (t.procs c).state ≡ false
      → ltb (t.procs c).priority n_prio ≡ false
      → change_state c runnable t ≡ fault
  unfolding change_state enter_queue load
  enters_out_of_range t off out = rw (lt→ltb c max_proc hc, off, lt→ltb c max_proc hc, out) refl

  fork_prefix :
      fork_child setup p c priority (length kids) s
      ≡ (change_state c runnable
            >> (set_up_memory_new_proc setup c
                >> (change c (λ r. record r { initialized = true })
                    >> (print_children p >>= λ n. assert (length kids + 1 == n)))))
          (with_procs s (linked kids))
  unfolding fork_child set_reg load
  fork_prefix =
      let filled' =
        with_procs s
          (update (told s.procs p c) c (child_descriptor (told s.procs p c p) c priority)) in
      rw
        (
          change_lem s p (with_reg 0 (of_int c)) hp,
          lt→ltb p max_proc hp,
          change_lem answered c (λ _. child_descriptor (told s.procs p c p) c priority) hc,
          change_lem filled' c (with_reg 0 0) hc,
          ap (with_procs s) (fun_ext filling),
          adds kids (k.ring p alive) (Slots-kin s.procs kin k p alive) new_kids,
        )
        refl

  free_still : (xs : List ℕ) → is_runnable (linked xs c).state ≡ false
  unfolding linked adopted_first adopted_front newborn
  free_still [] = ground arith
  free_still (h ∷ ys) = ground arith

  -- A priority without a queue: the queue's head is read out of range.
  pub fork_child-faults :
      ltb priority n_prio ≡ false → fork_child setup p c priority (length kids) s ≡ fault
  fork_child-faults out =
      fork_prefix
      ∙ rw
          (enters_out_of_range (with_procs s (linked kids)) (free_still kids)
            (rw ((linked_child kids).0) out))
          refl

  module _ (prio : priority < n_prio) (lvl2 : ℕ) (m : Mmu) (mapped : setup c ≡ returns lvl2 m) where
    -- The child is in its queue.
    born :
        Ends
          (change_state c runnable (with_procs s (linked kids)))
          s
          (with_state c runnable (linked kids))
    born = Ends-with_procs s (linked kids) (
        then_change_state (done tt (with_procs s (linked kids))) (with_procs s (linked kids))
          (linked kids)
          (start (with_procs s (linked kids)) q
            (IsQueued-congr s (with_procs s (linked kids)) (SameQueues-linked kids) q v))
          c hc runnable (λ on. rw ((linked_child kids).0) prio))

    abbrev root : ℕ
    root = table_root lvl2 c

    -- The last two writes, together.
    last_writes :
        (h : ℕ → Proc) (x : ℕ)
        → let h' = update h c (with_root root (h c)) in
          unlinked (update h' c (record (h' c) { initialized = true }) x)
          ≡ unlinked (update h c (ready root (h c)) x)
    last_writes h x = ground arith

    as_forked :
        (x : ℕ)
        → let h = with_state c runnable (linked kids) in
          unlinked (update h c (ready root (h c)) x)
          ≡ unlinked (forked lvl2 s.procs p c priority kids x)
    unfolding forked
    as_forked x =
        ap (λ h. unlinked (update h c (ready root (h c)) x)) (fun_ext λ y. linked_lem kids y)

    module _ (t : Sys) (y : Yields s (with_state c runnable (linked kids)) t) where
      numbered : (t.procs c).pid ≡ c
      numbered = ap (λ (r : Proc). r.pid) (y.frame c) ∙ ground (arith, linked_child kids)

      maps : set_up_memory_new_proc setup c t ≡ change c (with_root root) t
      unfolding set_up_memory_new_proc load table_root
      maps = rw (lt→ltb c max_proc hc, numbered, mapped) refl

      -- The last writes.
      finished :
          (t6 t7 : Sys) × (change c (with_root root) t ≡ done tt t6)
          × (change c (λ r. record r { initialized = true }) t6 ≡ done tt t7)
          × Yields s (forked lvl2 s.procs p c priority kids) t7
      finished =
          let (t6, run6, y6) =
            then_change (done tt t) s (with_state c runnable (linked kids)) (t, refl, y) c hc
              (with_root root)
              (λ a. record {
                runnable = refl;
                prio = λ h. refl;
                next = λ h. refl;
                prev = λ h. refl;
              })
              (λ a b e. ap (with_root root) e) in
          let (t7, run7, y7) =
            then_change (done tt t6) s _ (t6, refl, y6) c hc (λ r. record r { initialized = true })
              (λ a. record {
                runnable = refl;
                prio = λ h. refl;
                next = λ h. refl;
                prev = λ h. refl;
              })
              (λ a b e. ap (λ (r : Proc). record r { initialized = true }) e) in
          let (t8, run8, y8) =
            Ends-congr (forked lvl2 s.procs p c priority kids) (t7, refl, y7)
              (λ x. last_writes (with_state c runnable (linked kids)) x ∙ as_forked x) in
          (t6, t8, run6, run7 ∙ run8, y8)

    -- The children are counted again.
    counts_again :
        (t : Sys)
        → Yields s (forked lvl2 s.procs p c priority kids) t
        → print_children p t ≡ done (suc (length kids)) t
    counts_again t y =
        let kin' = kin_adopted kin p c in
        let k' : IsKin t.procs kin' =
          IsKin-unlinked (forked lvl2 s.procs p c priority kids) t.procs kin' y.frame
            (IsKin-forked s.procs p c priority lvl2 kin k hp hc hc' vacant alive) in
        let live : is_live t.procs p ≡ true = ground (
          arith,
          ap (λ (r : Proc). r.state) (y.frame p),
          state-forked s.procs p c priority lvl2 p kids,
        ) in
        let eq : kin' p ≡ c ∷ kids = rw apart (ground arith) in
        print_children_lem t p (c ∷ kids) hp (subst (IsChildren t.procs p) eq (k'.ring p live))
          (subst Slots eq (Slots-kin t.procs kin' k' p live))

    fork_run :
        (t t6 t7 : Sys)
        → change_state c runnable (with_procs s (linked kids)) ≡ done tt t
        → Yields s (with_state c runnable (linked kids)) t
        → change c (with_root root) t ≡ done tt t6
        → change c (λ r. record r { initialized = true }) t6 ≡ done tt t7
        → print_children p t7 ≡ done (suc (length kids)) t7
        → fork_child setup p c priority (length kids) s ≡ done tt t7
    fork_run t t6 t7 run y run6 run7 counted =
        let same : (length kids + 1 == suc (length kids)) ≡ true = ground arith in
        fork_prefix ∙ rw (run, maps t y, run6, run7, counted, same) refl

    -- The child is made, with everything that the parent's descriptor passes on, and the assertion at
    -- the end holds.
    pub fork_child-Ends :
        Ends
          (fork_child setup p c priority (length kids) s)
          s
          (forked lvl2 s.procs p c priority kids)
    fork_child-Ends =
        let (t, run, y) = born in
        let (t6, t7, run6, run7, y7) = finished t y in
        (t7, fork_run t t6 t7 run y run6 run7 (counts_again t7 y7), y7)
