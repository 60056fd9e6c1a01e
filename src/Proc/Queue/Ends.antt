-- ===== src/Proc/Queue/Ends.antt =====
-- Runs that return with the queues in order, composed step by step.
use sysres_os.Base.{ℕ, ◌<◌, ◌≡◌, refl, true, List, ◌==◌, arith, if◌then◌else◌, ap, ◌∙◌}
use sysres_os.Proc.State.{Proc, Sys, ProcState, max_proc, n_prio, is_runnable}
use sysres_os.Proc.Run.{Run, done, and_then, change, update}
use sysres_os.Proc.Descriptor.{failed, fail}
use sysres_os.Proc.Queue.{change_state}
use sysres_os.Proc.Queue.Inv.{IsQueued}
use sysres_os.Proc.Queue.Outcome.{unlinked, requeue}
use sysres_os.Proc.Queue.Change.{change_state-refines}
use sysres_os.Proc.Queue.Update.{written, change_lem, Keeps, IsQueued-written}

-- `s'` has its queues in order and the descriptors `g`, up to queue links; nothing else differs from
-- `s`.
pub record Yields (s : Sys) (g : ℕ → Proc) (s' : Sys) : Type 0 where
  pub queues : ℕ → List ℕ
  pub queued : IsQueued s' queues
  pub frame : (x : ℕ) → unlinked (s'.procs x) ≡ unlinked (g x)
  pub curr : s'.curr_pid ≡ s.curr_pid
  pub last : s'.last_pid ≡ s.last_pid
  pub alloc : s'.alloc ≡ s.alloc
  pub errno : s'.errno ≡ s.errno

-- The run returns, with such a state.
abbrev pub Ends : Run (Unit {0}) → Sys → (ℕ → Proc) → Type 0
Ends r s g = (s' : Sys) × (r ≡ done tt s') × Yields s g s'

pub start : (s : Sys) (q : ℕ → List ℕ) → IsQueued s q → Ends (done tt s) s s.procs
start s q v = (
  s,
  refl,
  record {
    queues = q;
    queued = v;
    frame = λ x. refl;
    curr = refl;
    last = refl;
    alloc = refl;
    errno = refl;
  },
)

-- The descriptors with a new state for `p`, and with a new descriptor there.
abbrev pub with_state : ℕ → ProcState → (ℕ → Proc) → ℕ → Proc
with_state p st g x = if x == p then record (g x) { state = st } else g x

module _ (r : Run (Unit {0})) (s : Sys) (g : ℕ → Proc) (e : Ends r s g) (p : ℕ)
    (hp : p < max_proc) where
  pub then_change_state :
      (st : ProcState)
      → (is_runnable st ≡ true → (g p).priority < n_prio)
      → Ends (and_then r (λ _. change_state p st)) s (with_state p st g)
  then_change_state st hk =
      let (s', run, y) = e in
      let same : (s'.procs p).priority ≡ (g p).priority =
        ap (λ (a : Proc). a.priority) (y.frame p) in
      let (s2, run2, v2, c2) =
        change_state-refines p st s' y.queues y.queued hp (λ on. rw same (hk on)) in
      (
        s2,
        rw run run2,
        record {
          queues = requeue s' p st y.queues;
          queued = v2;
          frame = λ x.
              c2.frame x
              ∙ ground (arith, y.frame x, ap (λ (a : Proc). record a { state = st }) (y.frame x));
          curr = c2.curr ∙ y.curr;
          last = c2.last ∙ y.last;
          alloc = c2.alloc ∙ y.alloc;
          errno = c2.errno ∙ y.errno;
        },
      )

  -- A write that keeps the process in its queue and does not depend on the links.
  pub then_change :
      (f : Proc → Proc)
      → ((a : Proc) → Keeps a (f a))
      → ((a b : Proc) → unlinked a ≡ unlinked b → unlinked (f a) ≡ unlinked (f b))
      → Ends (and_then r (λ _. change p f)) s (update g p (f (g p)))
  then_change f keeps blind =
      let (s', run, y) = e in
      (
        written s' p (f (s'.procs p)),
        rw run (change_lem s' p f hp),
        record {
          queues = y.queues;
          queued = IsQueued-written s' p _ (keeps (s'.procs p)) y.queues y.queued;
          frame = λ x. ground (arith, y.frame x, blind (s'.procs p) (g p) (y.frame p));
          curr = y.curr;
          last = y.last;
          alloc = y.alloc;
          errno = y.errno;
        },
      )

-- Descriptors that agree up to queue links may be put for one another.
pub Ends-congr :
    {r : Run (Unit {0})} {s : Sys} {g : ℕ → Proc} (g' : ℕ → Proc)
    → Ends r s g
    → ((x : ℕ) → unlinked (g x) ≡ unlinked (g' x))
    → Ends r s g'
Ends-congr g' (s', run, y) same = (
  s',
  run,
  record {
    queues = y.queues;
    queued = y.queued;
    frame = λ x. y.frame x ∙ same x;
    curr = y.curr;
    last = y.last;
    alloc = y.alloc;
    errno = y.errno;
  },
)

-- A failed system call: the caller gets the error, and nothing else changes.
pub fail-Ends :
    (s : Sys) (q : ℕ → List ℕ) (p code : ℕ)
    → IsQueued s q
    → p < max_proc
    → Ends (fail p code s) s (update s.procs p (failed code (s.procs p)))
unfolding fail
fail-Ends s q p code v hp =
    then_change (done tt s) s s.procs (start s q v) p hp (failed code)
      (λ a. record { runnable = refl; prio = λ h. refl; next = λ h. refl; prev = λ h. refl })
      (λ a b e. ap (λ (r : Proc). failed code r) e)

-- A run from a state in which one descriptor was written.
pub Ends-written :
    {r : Run (Unit {0})} (s : Sys) (p : ℕ) (a : Proc) {g : ℕ → Proc}
    → Ends r (written s p a) g
    → Ends r s g
Ends-written s p a (s', run, y) = (
  s',
  run,
  record {
    queues = y.queues;
    queued = y.queued;
    frame = y.frame;
    curr = y.curr;
    last = y.last;
    alloc = y.alloc;
    errno = y.errno;
  },
)

-- A run that is equal to one that is known.
pub Ends-by :
    {r r' : Run (Unit {0})} {s : Sys} {g : ℕ → Proc} (g' : ℕ → Proc)
    → r ≡ r'
    → Ends r' s g
    → ((x : ℕ) → unlinked (g x) ≡ unlinked (g' x))
    → Ends r s g'
Ends-by g' e known same = let (s', run, y) = Ends-congr g' known same in (s', e ∙ run, y)

-- A run from a state that a known run has left.
pub Ends-after :
    {r : Run (Unit {0})} {s t : Sys} {f : ℕ → Proc} {g : ℕ → Proc}
    → Yields s f t
    → Ends r t g
    → Ends r s g
Ends-after y (s', run, z) = (
  s',
  run,
  record {
    queues = z.queues;
    queued = z.queued;
    frame = z.frame;
    curr = z.curr ∙ y.curr;
    last = z.last ∙ y.last;
    alloc = z.alloc ∙ y.alloc;
    errno = z.errno ∙ y.errno;
  },
)
