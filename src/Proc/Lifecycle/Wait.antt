-- ===== src/Proc/Lifecycle/Wait.antt =====
-- `syscall_wait` on every branch.
use mathlib.Core.Path.{subst}
use sysres_os.Base.{
  ℕ, ◌<◌, ◌≡◌, refl, true, false, Option, none, some, List, [], ◌∷◌, arith, if◌then◌else◌, lt→ltb,
  has, Bool-cases, inl, inr, ◌∙◌,
}
use sysres_os.Proc.State.{Proc, Sys, max_proc, n_prio, waiting, is_zombie}
use sysres_os.Proc.Errno
use sysres_os.Proc.Run.{done, load, update}
use sysres_os.Proc.Descriptor.{failed, fail}
use sysres_os.Proc.Lifecycle.{handle_zombie_child, syscall_wait, find_zombie}
use sysres_os.Proc.Lifecycle.Reap.{handled, handle_zombie_child-Ends}
use sysres_os.Proc.Queue.{change_state}
use sysres_os.Proc.Queue.Inv.{runs}
use sysres_os.Proc.Queue.Ends.{Ends, start, then_change_state, with_state, Ends-by, fail-Ends}
use sysres_os.Proc.Family.Walk.{
  IsChildren, Slots, first_zombie, stop_at, stop_at_zombie, has-stop_at, find_zombie_alone,
  find_zombie_lem, print_children_lem, length-Slots,
}
use sysres_os.Proc.Family.Kin.{is_live, Slots-kin}
use sysres_os.Proc.Steady.{IsSteady}

-- The slot that a pointer holds.
abbrev pub slot_of : Option ℕ → ℕ
slot_of none = 0
slot_of (some x) = x

-- The descriptors once the child `c` of `parent` is handled.
abbrev pub child_handled : (ℕ → Proc) → (parent c : ℕ) → ℕ → Proc
child_handled g parent c =
    handled g parent c (slot_of (g c).prev_sibling) (slot_of (g c).next_sibling)

-- The descriptors after process `p`, whose children are `xs`, waits, up to queue links.
abbrev pub wait_result : (ℕ → Proc) → ℕ → Option ℕ → ℕ → Proc
wait_result g p none = with_state p waiting g
wait_result g p (some z) = child_handled g p z

abbrev pub wait_outcome : (ℕ → Proc) → ℕ → List ℕ → ℕ → Proc
wait_outcome g p [] = update g p (failed Errno.no_child (g p))
wait_outcome g p (h ∷ ys) = wait_result g p (first_zombie g (h ∷ ys))

module _ (s : Sys) (steady : IsSteady s) (hp : s.last_pid < max_proc)
    (on : runs s s.last_pid ≡ true) where
  abbrev p : ℕ
  p = s.last_pid

  abbrev kids : List ℕ
  kids = steady.kin p

  alive : is_live s.procs p ≡ true
  alive = ground arith

  prio : (s.procs p).priority < n_prio
  prio = (steady.sound.orderly p hp).prio (ground arith)

  -- A child that is a zombie is handled.
  handles :
      (z : ℕ) → has z kids ≡ true → Ends (handle_zombie_child p z s) s (child_handled s.procs p z)
  handles z i =
      let kid = steady.kinned.member p z alive i in
      let (b, nb, pb, kb) = steady.kinned.closed.behind z kid in
      let (a, pa, na, ka) = steady.kinned.closed.before z kid in
      rw (pa, nb)
        (handle_zombie_child-Ends s steady.sound.queues steady.sound.queued p z a b hp
          (ground arith) (ground arith) (ground arith) nb pa prio)

  waits : Ends (change_state p waiting s) s (with_state p waiting s.procs)
  waits =
      then_change_state (done tt s) s s.procs (start s steady.sound.queues steady.sound.queued) p hp
        waiting (λ off. absurd (ground arith))

  module _ (h : ℕ) (ys : List ℕ) (eq : kids ≡ h ∷ ys) (ring : IsChildren s.procs p (h ∷ ys))
      (slots : Slots (h ∷ ys)) where
    -- The loop stops at the first zombie behind the first child, or at the last child.
    loop_stops :
        (zs : List ℕ)
        → ys ≡ zs
        → is_zombie (s.procs h).state ≡ false
        → find_zombie max_proc h h s ≡ done (stop_at s.procs ys h) s
    unfolding stop_at
    loop_stops [] e off = rw e (
        find_zombie_alone s h (slots h (ground arith))
          (subst (λ zs. IsChildren s.procs p (h ∷ zs)) e ring).1.0 off)
    loop_stops (z ∷ zs) e off =
        let ring' = subst (λ ws. IsChildren s.procs p (h ∷ ws)) e ring in
        let slots' = subst (λ ws. Slots (h ∷ ws)) e slots in
        rw e (
          find_zombie_lem h s max_proc h z zs
            (omega (arith, length-Slots (h ∷ z ∷ zs) ring'.2 slots')) slots' ring'.2.0 ring'.1)

    run_first : is_zombie (s.procs h).state ≡ true → syscall_wait s ≡ handle_zombie_child p h s
    unfolding syscall_wait load
    run_first z =
        rw
          (
            print_children_lem s p (h ∷ ys) hp ring slots,
            lt→ltb p max_proc hp,
            ring.0,
            lt→ltb h max_proc (slots h (ground arith)),
            z,
          )
          refl

    abbrev stop : ℕ
    stop = stop_at s.procs ys h

    run_later :
        is_zombie (s.procs h).state ≡ false
        → syscall_wait s
          ≡ (if is_zombie (s.procs stop).state
                then handle_zombie_child p stop
                else change_state p waiting)
              s
    unfolding syscall_wait load
    run_later off =
        rw
          (
            print_children_lem s p (h ∷ ys) hp ring slots,
            lt→ltb p max_proc hp,
            ring.0,
            lt→ltb h max_proc (slots h (ground arith)),
            off,
            loop_stops ys refl off,
            lt→ltb stop max_proc (slots stop (has-stop_at s.procs ys h)),
          )
          refl

    wait_some : Ends (syscall_wait s) s (wait_outcome s.procs p (h ∷ ys))
    unfolding first_zombie
    wait_some = elim (Bool-cases (is_zombie (s.procs h).state)) [
      | inl z ↦
          Ends-by (wait_outcome s.procs p (h ∷ ys)) (run_first z) (handles h (rw eq (ground arith)))
            (λ x. rw z refl)
      | inr off ↦ elim (Bool-cases (is_zombie (s.procs stop).state)) [
        | inl z ↦
            Ends-by (wait_outcome s.procs p (h ∷ ys)) (run_later off ∙ rw z refl)
              (handles stop (rw eq (has-stop_at s.procs ys h)))
              (λ x. rw (off, stop_at_zombie s.procs ys h off, z) refl)
        | inr none_left ↦
            Ends-by (wait_outcome s.procs p (h ∷ ys)) (run_later off ∙ rw none_left refl) waits
              (λ x. rw (off, stop_at_zombie s.procs ys h off, none_left) refl)
      ]
    ]

  run_none : kids ≡ [] → IsChildren s.procs p [] → syscall_wait s ≡ fail p Errno.no_child s
  unfolding syscall_wait load
  run_none eq ring =
      rw
        (
          print_children_lem s p [] hp ring (λ x i. absurd (ground arith)),
          lt→ltb p max_proc hp,
          ring,
        )
        refl

  wait_by :
      (xs : List ℕ)
      → kids ≡ xs
      → IsChildren s.procs p xs
      → Slots xs
      → Ends (syscall_wait s) s (wait_outcome s.procs p xs)
  wait_by [] eq ring slots =
      Ends-by (wait_outcome s.procs p []) (run_none eq ring)
        (fail-Ends s steady.sound.queues p Errno.no_child steady.sound.queued hp) (λ x. refl)
  wait_by (h ∷ ys) eq ring slots = wait_some h ys eq ring slots

  -- `syscall_wait` by a running process returns, and the descriptors are those of `wait_outcome`: no
  -- child gives the error `NO_CHILD`; the first child that is a zombie, in the order of the ring, is
  -- handled, so its slot is free, it is no sibling any more, and the caller runs with its number and
  -- status; if no child is a zombie, the caller waits. The run queues stay in order.
  pub syscall_wait-refines : Ends (syscall_wait s) s (wait_outcome s.procs p (steady.kin p))
  syscall_wait-refines =
      wait_by kids refl (steady.kinned.ring p alive)
        (Slots-kin s.procs steady.kin steady.kinned p alive)
