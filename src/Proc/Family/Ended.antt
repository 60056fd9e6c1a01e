-- ===== src/Proc/Family/Ended.antt =====
-- A process ends: its children go to process 1, and it waits to be reaped.
use sysres_os.Base.{ℕ, ◌≡◌, true, false, List, ◌==◌, arith, if◌then◌else◌, has}
use sysres_os.Ring.{IsRing-congr}
use sysres_os.Proc.State.{Proc, zombie, init_pid, is_free, is_kernel}
use sysres_os.Proc.Queue.Ends.{with_state}
use sysres_os.Proc.Family.Walk.{siblings_next, siblings_prev, orphaned}
use sysres_os.Proc.Family.Kin.{is_kid, is_live, IsKin}

unfoldable pub ended : (ℕ → Proc) → ℕ → List ℕ → ℕ → Proc
ended g p xs = with_state p zombie (orphaned g xs)

module _ (g : ℕ → Proc) (kin : ℕ → List ℕ) (k : IsKin g kin) (p : ℕ)
    (alive : is_live g p ≡ true) where
  abbrev g' : ℕ → Proc
  g' = ended g p (kin p)

  links-ended :
      (x : ℕ)
      → (siblings_next g' x ≡ siblings_next g x)
        × (siblings_prev g' x ≡ siblings_prev g x)
        × ((g' x).child ≡ (g x).child)
        × ((g' x).pid ≡ (g x).pid)
  unfolding ended orphaned
  links-ended x = ground arith

  parent-ended :
      (x : ℕ) → (g' x).parent_pid ≡ (if has x (kin p) then init_pid else (g x).parent_pid)
  unfolding ended orphaned
  parent-ended x = ground arith

  kid-ended : (x : ℕ) → is_kid g' x ≡ is_kid g x
  unfolding ended orphaned
  kid-ended x = ground arith

  free-ended : (x : ℕ) → is_free (g' x).state ≡ is_free (g x).state
  unfolding ended orphaned
  free-ended x = ground arith

  kernel-ended : is_kernel (g' 0).state ≡ (if 0 == p then false else is_kernel (g 0).state)
  unfolding ended orphaned
  kernel-ended = ground arith

  live-ended : (x : ℕ) → is_live g' x ≡ (if x == p then false else is_live g x)
  unfolding ended orphaned
  live-ended x = ground arith

  pub IsKin-ended : IsKin g' kin
  IsKin-ended = record {
    numbered = λ x h f. ground (arith, links-ended x, free-ended x, k.numbered x h);
    parents = λ x h f. ground (arith, parent-ended x, free-ended x, k.parents x h);
    roots = λ x f o. ground (arith, parent-ended x, free-ended x, k.roots x, k.member p x alive);
    idle = ground (arith, kernel-ended, k.idle);
    closed = record {
      behind = λ x i.
          let (y, ny, py, ky) = k.closed.behind x (ground (arith, kid-ended x)) in
          (
            y,
            ground (arith, links-ended x),
            ground (arith, links-ended y),
            ground (arith, kid-ended y),
          );
      before = λ x i.
          let (y, py, ny, ky) = k.closed.before x (ground (arith, kid-ended x)) in
          (
            y,
            ground (arith, links-ended x),
            ground (arith, links-ended y),
            ground (arith, kid-ended y),
          );
    };
    ring = λ q l.
        let lq : is_live g q ≡ true = ground (arith, live-ended q) in
        rw ((links-ended q).2) (
          IsRing-congr (siblings_next g) (siblings_prev g) (siblings_next g') (siblings_prev g')
            (g q).child (kin q) (k.ring q lq) (λ x i. (links-ended x).0)
            (λ x i. (links-ended x).1));
    member = λ q x l i. ground (arith, kid-ended x, live-ended q, k.member q x);
    parent =
        λ q x l i. ground (arith, parent-ended x, live-ended q, k.parent q x, k.parent p x alive);
  }
