-- ===== src/Proc/Lifecycle/Reap.antt =====
-- `handle_zombie_child`: the parent gets the child's number and status, the child's slot is free, and
-- the parent runs.
use sysres_os.Base.{
  ℕ, ◌<◌, ◌≡◌, refl, some, List, arith, lt→ltb, ltb, ◌==◌, if◌then◌else◌, of_int, ◌/◌, ◌%◌, ◌^◌,
  ◌-◌, Bool-cases, inl, inr,
}
use sysres_os.Proc.State.{Proc, Err, Sys, max_proc, n_prio, runnable, free}
use sysres_os.Proc.Run.{Run, done, load, update}
use sysres_os.Proc.Lifecycle.{take_status, handle_zombie_child}
use sysres_os.Proc.Descriptor.{err_bytes}
use sysres_os.Proc.Queue.Inv.{IsQueued, SameQueues, IsQueued-congr}
use sysres_os.Proc.Queue.Update.{written, change_lem, IsQueued-written}
use sysres_os.Proc.Queue.Ends.{Ends, start, then_change_state, with_state}
use sysres_os.Proc.Family.Links.{removed, remove_child_lem, with_procs}
use sysres_os.Proc.Family.Walk.{siblings_next, siblings_prev}
use sysres_os.Proc.Family.Reaped.{reaped}

-- A run from a state with other descriptors.
pub Ends-with_procs :
    {r : Run (Unit {0})} (s : Sys) (f : ℕ → Proc) {g : ℕ → Proc}
    → Ends r (with_procs s f) g
    → Ends r s g
Ends-with_procs s f (s', run, y) = (
  s',
  run,
  record {
    queues = y.queues;
    queued = y.queued;
    frame = y.frame;
    curr = y.curr;
    last = y.last;
    alloc = y.alloc;
    errno = y.errno;
  },
)

SameQueues-removed :
    (s : Sys) (parent c a b : ℕ) → SameQueues s (with_procs s (removed s.procs parent c a b))
unfolding removed
SameQueues-removed s parent c a b = record {
  same_runs = λ x. refl;
  same_prio = λ x h. refl;
  same_next = λ x h. refl;
  same_prev = λ x h. refl;
  same_heads = refl;
  same_counts = refl;
  same_total = refl;
}

-- The bytes of an exit status: the number in the lowest four, and the data from the eighth on, the
-- lowest byte first.
abbrev status_byte : Err → ℕ → ℕ
status_byte e i =
    if ltb i 4 then e.no / 256 ^ i % 256 else if ltb i 8 then 0 else e.errdata / 256 ^ (i - 8) % 256

-- A parent that has its answer: the child's number in register 0 and, if register 0 held an address,
-- the 16 bytes of the child's status in the buffer, to be written there.
unfoldable pub informed : Proc → Proc → Proc
informed ch r = record r {
  saved_context = record (r.saved_context) {
    registers = λ i. if i == 0 then of_int ch.pid else r.saved_context.registers i;
  };
  buffer = if r.saved_context.registers 0 == 0 then r.buffer else record {
    buff = λ i. if ltb i 16 then status_byte ch.err i else r.buffer.buff i;
    used_size = 16;
    write_addr = r.saved_context.registers 0;
  };
}

take_status_lem : (ch r : Proc) → take_status ch r ≡ informed ch r
unfolding take_status informed err_bytes
take_status_lem ch r = elim (Bool-cases (r.saved_context.registers 0 == 0)) [
  | inl e ↦ rw e refl
  | inr e ↦ rw e refl
]

-- The descriptors once the zombie `c`, between the siblings `a` and `b`, is handled.
unfoldable pub handled : (ℕ → Proc) → (parent c a b : ℕ) → ℕ → Proc
handled g parent c a b =
    with_state parent runnable (reaped (update g parent (informed (g c) (g parent))) parent c a b)

module _ (s : Sys) (q : ℕ → List ℕ) (v : IsQueued s q) (parent c a b : ℕ) (hp : parent < max_proc)
    (hc : c < max_proc) (ha : a < max_proc) (hb : b < max_proc)
    (en : siblings_next s.procs c ≡ some b) (ep : siblings_prev s.procs c ≡ some a)
    (prio : (s.procs parent).priority < n_prio) where
  abbrev told : Sys
  told = written s parent (informed (s.procs c) (s.procs parent))

  abbrev unlinked_child : Sys
  unlinked_child = with_procs told (removed told.procs parent c a b)

  IsQueued-told : IsQueued told q
  unfolding informed
  IsQueued-told =
      IsQueued-written s parent _
        (record {
          runnable = ground arith;
          prio = λ h. ground arith;
          next = λ h. ground arith;
          prev = λ h. ground arith;
        })
        q v

  en-told : siblings_next told.procs c ≡ some b
  unfolding informed
  en-told = ground arith

  ep-told : siblings_prev told.procs c ≡ some a
  unfolding informed
  ep-told = ground arith

  prio-told : ((with_state c free (removed told.procs parent c a b)) parent).priority < n_prio
  unfolding informed removed
  prio-told = ground arith

  pub handle_zombie_child-Ends :
      Ends (handle_zombie_child parent c s) s (handled s.procs parent c a b)
  unfolding handle_zombie_child load handled reaped
  handle_zombie_child-Ends =
      let f = removed told.procs parent c a b in
      let queued =
        IsQueued-congr told unlinked_child (SameQueues-removed told parent c a b) q IsQueued-told in
      let ends1 =
        then_change_state (done tt unlinked_child) unlinked_child f (start unlinked_child q queued)
          c hc free (λ off. absurd (ground arith)) in
      let (s1, run1, y1) = ends1 in
      let (s2, run2, y2) =
        then_change_state (done tt s1) unlinked_child (with_state c free f) (s1, refl, y1) parent hp
          runnable (λ on. prio-told) in
      Ends-with_procs s f (
        s2,
        rw
            (
              lt→ltb c max_proc hc,
              change_lem s parent (take_status (s.procs c)) hp,
              take_status_lem (s.procs c) (s.procs parent),
              remove_child_lem told parent c hp hc a b ha hb en-told ep-told,
              run1,
            )
            run2,
        y2,
      )
