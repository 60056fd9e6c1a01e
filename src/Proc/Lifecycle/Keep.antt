-- ===== src/Proc/Lifecycle/Keep.antt =====
-- The system calls of the life cycle keep the process table steady.
use sysres_os.Base.{
  ℕ, ◌<◌, ◌≡◌, ◌^◌, refl, true, false, Option, none, some, List, [], ◌∷◌, arith, if◌then◌else◌,
  Bool-cases, inl, inr, lt_int, ◌==◌, ap,
}
use sysres_os.Proc.State.{Proc, Sys, max_proc, is_zombie, is_waiting, zombie, waiting}
use sysres_os.Proc.Errno
use sysres_os.Proc.Run.{update}
use sysres_os.Proc.Descriptor.{failed}
use sysres_os.Proc.Lifecycle.{syscall_fork, syscall_wait, syscall_exit}
use sysres_os.Proc.Lifecycle.Fork.{
  fork_result, free_slot, asked_priority, syscall_fork-refines, slot_found, in_range, IsMapped,
}
use sysres_os.Mmu.State.{Mmu}
use sysres_os.Proc.Context.{Setup}
use sysres_os.Proc.Lifecycle.Forked.{IsKin-forked, AreOrderly-forked}
use sysres_os.Proc.Lifecycle.Handled.{IsKin-handled, AreOrderly-handled}
use sysres_os.Proc.Lifecycle.Wait.{child_handled, wait_result, wait_outcome, syscall_wait-refines}
use sysres_os.Proc.Lifecycle.Exit.{
  exit_outcome, exit_noted, left_behind, syscall_exit-refines, IsKin-noted, alive_noted,
  exits_as_kid, parent_slot, orphans_keep,
}
use sysres_os.Proc.Lifecycle.Reap.{handled, informed}
use sysres_os.Proc.Family.Ended.{ended, IsKin-ended}
use sysres_os.Proc.Queue.Ends.{with_state}
use sysres_os.Proc.Queue.Inv.{runs}
use sysres_os.Proc.Family.Walk.{
  siblings_next, siblings_prev, orphaned, first_zombie, first_zombie_found,
}
use sysres_os.Proc.Family.Kin.{is_kid, is_live, IsKin, SameKin, IsKin-congr}
use sysres_os.Proc.Family.Links.{removed}
use sysres_os.Proc.Family.Reaped.{reaped, kin_reaped}
use sysres_os.Proc.Family.Adopted.{kin_adopted}
use sysres_os.Proc.Sound.{AreOrderly}
use sysres_os.Proc.Steady.{IsSteady, Keeps, Keeps-Ends}

-- Families and orderly descriptors.
abbrev Good : (ℕ → Proc) → Type 0
Good g = (kin : ℕ → List ℕ) × AreOrderly g × IsKin g kin

module _ (g : ℕ → Proc) (kin : ℕ → List ℕ) (k : IsKin g kin) (o : AreOrderly g) (p : ℕ)
    (hp : p < max_proc) (alive : is_live g p ≡ true) where
  pub failed-Good : (code : ℕ) → Good (update g p (failed code (g p)))
  failed-Good code = (
    kin,
    λ x hx. ground (arith, o x hx),
    IsKin-congr g _
        (λ x. record {
          same_free = ground arith;
          same_zombie = λ z. ground arith;
          same_kernel = λ z. ground arith;
          same_pid = ground arith;
          same_next = ground arith;
          same_prev = ground arith;
          same_child = ground arith;
          same_parent = ground arith;
        })
        kin k,
  )

  waiting-Good : Good (with_state p waiting g)
  waiting-Good = (
    kin,
    λ x hx. ground (arith, o x hx),
    IsKin-congr g _
        (λ x. record {
          same_free = ground arith;
          same_zombie = λ z. ground arith;
          same_kernel = λ z. ground arith;
          same_pid = ground arith;
          same_next = ground arith;
          same_prev = ground arith;
          same_child = ground arith;
          same_parent = ground arith;
        })
        kin k,
  )

  -- A zombie child is handled.
  handled-Good :
      (c : ℕ)
      → is_kid g c ≡ true
      → is_zombie (g c).state ≡ true
      → (g c).parent_pid ≡ p
      → Good (child_handled g p c)
  handled-Good c kid dead own =
      let (b, nb, pb, kb) = k.closed.behind c kid in
      let (a, pa, na, ka) = k.closed.before c kid in
      rw (pa, nb)
        (
          kin_reaped kin p c,
          AreOrderly-handled g p c a b o alive ((o p hp).prio (ground arith)),
          IsKin-handled g p c a b kin k nb pa own kid (ground arith) alive,
        )

  wait_result-Good : (o' : Option ℕ) → first_zombie g (kin p) ≡ o' → Good (wait_result g p o')
  wait_result-Good none e = waiting-Good
  wait_result-Good (some z) e =
      let (i, dead) = first_zombie_found g (kin p) z e in
      handled-Good z (k.member p z alive i) dead (k.parent p z alive i)

  pub wait-Good : (xs : List ℕ) → kin p ≡ xs → Good (wait_outcome g p xs)
  wait-Good [] e = failed-Good Errno.no_child
  wait-Good (h ∷ ys) e = wait_result-Good (first_zombie g (h ∷ ys)) (ap (first_zombie g) e)

-- To be handled, a process may as well be a zombie already.
module _ (g : ℕ → Proc) (parent c a b x : ℕ) (apart : (parent == c) ≡ false) where
  handled_zombie :
      SameKin (handled (with_state c zombie g) parent c a b x) (handled g parent c a b x)
  unfolding handled reaped removed informed
  handled_zombie = record {
    same_free = ground arith;
    same_zombie = λ z. ground arith;
    same_kernel = λ z. ground arith;
    same_pid = ground arith;
    same_next = ground arith;
    same_prev = ground arith;
    same_child = ground arith;
    same_parent = ground arith;
  }

module _ (s : Sys) (steady : IsSteady s) (hp : s.last_pid < max_proc)
    (on : runs s s.last_pid ≡ true) where
  abbrev p : ℕ
  p = s.last_pid

  alive : is_live s.procs p ≡ true
  alive = ground arith

  pub syscall_wait-Keeps : Keeps s (syscall_wait s)
  syscall_wait-Keeps =
      let (kin, o, k) =
        wait-Good s.procs steady.kin steady.kinned steady.sound.orderly p hp alive (steady.kin p)
          refl in
      Keeps-Ends _ s _ kin (syscall_wait-refines s steady hp on) o k

  module _ (setup : Setup) (lvl2 : ℕ) (m : Mmu) (pos : asked_priority s.procs p < 2 ^ 31) where
    fork-Good :
        (c : Option ℕ) → free_slot s.procs ≡ c → Good (fork_result lvl2 s.procs p (steady.kin p) c)
    fork-Good none e =
        failed-Good s.procs steady.kin steady.kinned steady.sound.orderly p hp alive
          Errno.max_proc_reached
    fork-Good (some c) e =
        elim (Bool-cases (lt_int (s.procs p).priority (asked_priority s.procs p))) [
          | inl high ↦ rw high (
              failed-Good s.procs steady.kin steady.kinned steady.sound.orderly p hp alive
                Errno.too_high_child_priority)
          | inr low ↦
              let (hc, hc', vacant) = slot_found setup s steady hp on c e in
              rw low (
                kin_adopted steady.kin p c,
                AreOrderly-forked s.procs p c (asked_priority s.procs p) lvl2 (steady.kin p)
                    steady.sound.orderly (in_range setup s steady hp on pos low),
                IsKin-forked s.procs p c (asked_priority s.procs p) lvl2 steady.kin steady.kinned hp
                    hc hc' vacant alive,
              )
        ]

    pub syscall_fork-Keeps : IsMapped setup s steady hp on lvl2 m → Keeps s (syscall_fork setup s)
    syscall_fork-Keeps mapped =
        let (kin, o, k) = fork-Good (free_slot s.procs) refl in
        Keeps-Ends _ s _ kin (syscall_fork-refines setup s steady hp on pos lvl2 m mapped) o k

  abbrev kids : List ℕ
  kids = steady.kin p

  -- The table behind the loop of `syscall_exit`, and the same with the caller ended.
  abbrev orphans : ℕ → Proc
  orphans = left_behind s.procs p kids

  abbrev gone : ℕ → Proc
  gone = ended (update s.procs p (exit_noted (s.procs p))) p kids

  IsKin-gone : IsKin gone steady.kin
  IsKin-gone =
      IsKin-ended (update s.procs p (exit_noted (s.procs p))) steady.kin
        (IsKin-noted s steady hp on) p (alive_noted s steady hp on)

  AreOrderly-orphans : AreOrderly orphans
  unfolding orphaned
  AreOrderly-orphans x hx = ground (arith, steady.sound.orderly x hx)

  AreOrderly-gone : AreOrderly gone
  unfolding ended orphaned
  AreOrderly-gone x hx = ground (arith, steady.sound.orderly x hx)

  gone_lem :
      (x : ℕ)
      → ((gone x).state ≡ (if x == p then zombie else (orphans x).state))
        × ((gone x).parent_pid ≡ (orphans x).parent_pid)
        × (siblings_next gone x ≡ siblings_next orphans x)
        × (siblings_prev gone x ≡ siblings_prev orphans x)
  unfolding ended
  gone_lem x = (ground arith, ground arith, ground arith, ground arith)

  exit_handled-Good :
      is_waiting (orphans (orphans p).parent_pid).state ≡ true
      → Good (child_handled orphans (orphans p).parent_pid p)
  unfolding ended
  exit_handled-Good w =
      let parent = (orphans p).parent_pid in
      let slot : parent < max_proc = parent_slot s steady hp on in
      let kept = orphans_keep s steady hp on p in
      let apart : (parent == p) ≡ false = ground (arith, kept) in
      let kid : is_kid gone p ≡ true = ground (arith, exits_as_kid s steady hp on w, gone_lem p) in
      let (b, nb, pb, kb) = IsKin-gone.closed.behind p kid in
      let (a, pa, na, ka) = IsKin-gone.closed.before p kid in
      let nb' : siblings_next orphans p ≡ some b = ground (arith, gone_lem p) in
      let pa' : siblings_prev orphans p ≡ some a = ground (arith, gone_lem p) in
      rw (pa', nb')
        (
          kin_reaped steady.kin parent p,
          AreOrderly-handled orphans parent p a b AreOrderly-orphans (ground (arith, slot))
              ((AreOrderly-orphans parent slot).prio (ground arith)),
          IsKin-congr (handled gone parent p a b) (handled orphans parent p a b)
              (λ x. handled_zombie orphans parent p a b x apart) (kin_reaped steady.kin parent p)
              (IsKin-handled gone parent p a b steady.kin IsKin-gone nb pa
                (ground (arith, gone_lem p)) kid (ground (arith, gone_lem p))
                (ground (arith, gone_lem parent))),
        )

  exit-Good : Good (exit_outcome s.procs p kids)
  unfolding ended
  exit-Good = elim (Bool-cases (is_waiting (orphans (orphans p).parent_pid).state)) [
    | inl w ↦ rw w (exit_handled-Good w)
    | inr w ↦ rw w (steady.kin, AreOrderly-gone, IsKin-gone)
  ]

  pub syscall_exit-Keeps : Keeps s (syscall_exit s)
  syscall_exit-Keeps =
      let (kin, o, k) = exit-Good in Keeps-Ends _ s _ kin (syscall_exit-refines s steady hp on) o k
