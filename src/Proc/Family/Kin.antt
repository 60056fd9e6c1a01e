-- ===== src/Proc/Family/Kin.antt =====
-- The invariant of the families: numbers, parents, and the rings of siblings.
use sysres_os.Base.{ℕ, ◌<◌, ◌≡◌, Bool, true, false, not, List, ◌&&◌, arith, has, ltb, ap, ◌∙◌}
use sysres_os.Ring.{IsRing-congr}
use sysres_os.Ring.Closed.{IsClosed}
use sysres_os.Proc.State.{Proc, max_proc, is_free, is_zombie, is_kernel}
use sysres_os.Proc.Queue.Outcome.{unlinked}
use sysres_os.Proc.Family.Walk.{siblings_next, siblings_prev, IsChildren, Slots}

-- A process that was forked.
abbrev pub is_kid : (ℕ → Proc) → ℕ → Bool
is_kid g x = ltb x max_proc && (ltb 1 x && not (is_free (g x).state))

-- A process, not the kernel, that has not ended.
abbrev pub is_live : (ℕ → Proc) → ℕ → Bool
is_live g x =
    ltb x max_proc
    && (not (is_free (g x).state) && (not (is_zombie (g x).state) && not (is_kernel (g x).state)))

-- Each process has its slot's number and a parent's, the two first ones their own; slot 0 is
-- the kernel's; the forked ones stand in rings of siblings; and
-- the children of a process that has not ended are a ring of processes that have it as their parent.
-- What a parent has left at its end has no head any more.
pub record IsKin (g : ℕ → Proc) (kin : ℕ → List ℕ) : Type 0 where
  pub numbered : (x : ℕ) → x < max_proc → is_free (g x).state ≡ false → (g x).pid ≡ x
  pub parents : (x : ℕ) → x < max_proc → is_free (g x).state ≡ false → (g x).parent_pid < max_proc
  pub roots : (x : ℕ) → is_free (g x).state ≡ false → ltb 1 x ≡ false → (g x).parent_pid ≡ x
  pub idle : is_kernel (g 0).state ≡ true
  pub closed : IsClosed (siblings_next g) (siblings_prev g) (is_kid g)
  pub ring : (p : ℕ) → is_live g p ≡ true → IsChildren g p (kin p)
  pub member : (p x : ℕ) → is_live g p ≡ true → has x (kin p) ≡ true → is_kid g x ≡ true
  pub parent : (p x : ℕ) → is_live g p ≡ true → has x (kin p) ≡ true → (g x).parent_pid ≡ p

pub Slots-kin :
    (g : ℕ → Proc) (kin : ℕ → List ℕ) → IsKin g kin → (p : ℕ) → is_live g p ≡ true → Slots (kin p)
Slots-kin g kin k p l x i = ground (arith, k.member p x l i)

-- What the invariant reads of a descriptor.
pub record SameKin (r r' : Proc) : Type 0 where
  pub same_free : is_free r'.state ≡ is_free r.state
  pub same_zombie : is_zombie r.state ≡ true → is_zombie r'.state ≡ true
  pub same_kernel : is_kernel r.state ≡ true → is_kernel r'.state ≡ true
  pub same_pid : r'.pid ≡ r.pid
  pub same_next : r'.next_sibling ≡ r.next_sibling
  pub same_prev : r'.prev_sibling ≡ r.prev_sibling
  pub same_child : r'.child ≡ r.child
  pub same_parent : r'.parent_pid ≡ r.parent_pid

module _ (g g' : ℕ → Proc) (same : (x : ℕ) → SameKin (g x) (g' x)) where
  live_congr : (p : ℕ) → is_live g' p ≡ true → is_live g p ≡ true
  live_congr p l = ground (arith, (same p).same_free, (same p).same_zombie, (same p).same_kernel)

  -- A process may end, and nothing else may change.
  pub IsKin-congr : (kin : ℕ → List ℕ) → IsKin g kin → IsKin g' kin
  IsKin-congr kin k = record {
    numbered = λ x h f. ground (arith, same x, k.numbered x h);
    parents = λ x h f. ground (arith, same x, k.parents x h);
    roots = λ x f o. ground (arith, same x, k.roots x);
    idle = (same 0).same_kernel k.idle;
    closed = record {
      behind = λ x i.
          let (y, ny, py, ky) = k.closed.behind x (ground (arith, same x)) in
          (y, (same x).same_next ∙ ny, (same y).same_prev ∙ py, ground (arith, same y));
      before = λ x i.
          let (y, py, ny, ky) = k.closed.before x (ground (arith, same x)) in
          (y, (same x).same_prev ∙ py, (same y).same_next ∙ ny, ground (arith, same y));
    };
    ring = λ p l. rw ((same p).same_child) (
        IsRing-congr (siblings_next g) (siblings_prev g) (siblings_next g') (siblings_prev g')
          (g p).child (kin p) (k.ring p (live_congr p l)) (λ x i. (same x).same_next)
          (λ x i. (same x).same_prev));
    member = λ p x l i. ground (arith, same x, k.member p x (live_congr p l) i);
    parent = λ p x l i. (same x).same_parent ∙ k.parent p x (live_congr p l) i;
  }

SameKin-unlinked : (a b : Proc) → unlinked a ≡ unlinked b → SameKin b a
SameKin-unlinked a b e = record {
  same_free = ap (λ (r : Proc). is_free r.state) e;
  same_zombie = λ h. ap (λ (r : Proc). is_zombie r.state) e ∙ h;
  same_kernel = λ h. ap (λ (r : Proc). is_kernel r.state) e ∙ h;
  same_pid = ap (λ (r : Proc). r.pid) e;
  same_next = ap (λ (r : Proc). r.next_sibling) e;
  same_prev = ap (λ (r : Proc). r.prev_sibling) e;
  same_child = ap (λ (r : Proc). r.child) e;
  same_parent = ap (λ (r : Proc). r.parent_pid) e;
}

-- Queue links do not matter.
pub IsKin-unlinked :
    (g g' : ℕ → Proc) (kin : ℕ → List ℕ)
    → ((x : ℕ) → unlinked (g' x) ≡ unlinked (g x))
    → IsKin g kin
    → IsKin g' kin
IsKin-unlinked g g' kin e k = IsKin-congr g g' (λ x. SameKin-unlinked (g' x) (g x) (e x)) kin k
