-- ===== src/Proc/Lifecycle/Handled.antt =====
-- What `handle_zombie_child` leaves keeps the invariants of the table.
use sysres_os.Base.{ℕ, ◌<◌, ◌≡◌, true, false, some, List, ◌==◌, arith, if◌then◌else◌}
use sysres_os.Proc.State.{Proc, n_prio, runnable, free}
use sysres_os.Proc.Run.{update}
use sysres_os.Proc.Lifecycle.Reap.{handled, informed}
use sysres_os.Proc.Queue.Ends.{with_state}
use sysres_os.Proc.Sound.{AreOrderly}
use sysres_os.Proc.Family.Links.{removed}
use sysres_os.Proc.Family.Walk.{siblings_next, siblings_prev}
use sysres_os.Proc.Family.Kin.{is_kid, is_live, IsKin, SameKin, IsKin-congr}
use sysres_os.Proc.Family.Reaped.{reaped, kin_reaped, IsKin-reaped}

-- A process that has not ended may go to another state.
pub IsKin-runs :
    (g : ℕ → Proc) (kin : ℕ → List ℕ) (p : ℕ)
    → is_live g p ≡ true
    → IsKin g kin
    → IsKin (with_state p runnable g) kin
IsKin-runs g kin p l k =
    IsKin-congr g (with_state p runnable g)
      (λ x. record {
        same_free = ground arith;
        same_zombie = λ z. ground arith;
        same_kernel = λ z. ground arith;
        same_pid = ground arith;
        same_next = ground arith;
        same_prev = ground arith;
        same_child = ground arith;
        same_parent = ground arith;
      })
      kin k

module _ (g : ℕ → Proc) (parent c a b : ℕ) where
  abbrev told : ℕ → Proc
  told = update g parent (informed (g c) (g parent))

  told_same : (x : ℕ) → SameKin (g x) (told x)
  unfolding informed
  told_same x = record {
    same_free = ground arith;
    same_zombie = λ z. ground arith;
    same_kernel = λ z. ground arith;
    same_pid = ground arith;
    same_next = ground arith;
    same_prev = ground arith;
    same_child = ground arith;
    same_parent = ground arith;
  }

  told_state : (x : ℕ) → (told x).state ≡ (g x).state
  unfolding informed
  told_state x = ground arith

  state-told : (x : ℕ) → (reaped told parent c a b x).state ≡ (if x == c then free else (g x).state)
  unfolding reaped removed informed
  state-told x = ground arith

  live-told :
      is_live g parent ≡ true
      → is_live g c ≡ false
      → is_live (reaped told parent c a b) parent ≡ true
  live-told alive ended = ground (arith, state-told parent)

  pub IsKin-handled :
      (kin : ℕ → List ℕ)
      → IsKin g kin
      → siblings_next g c ≡ some b
      → siblings_prev g c ≡ some a
      → (g c).parent_pid ≡ parent
      → is_kid g c ≡ true
      → is_live g c ≡ false
      → is_live g parent ≡ true
      → IsKin (handled g parent c a b) (kin_reaped kin parent c)
  unfolding handled
  IsKin-handled kin k en ep own kid ended alive =
      IsKin-runs (reaped told parent c a b) (kin_reaped kin parent c) parent (live-told alive ended)
        (IsKin-reaped told kin (IsKin-congr g told told_same kin k) parent c a b
          (ground (arith, told_same c)) (ground (arith, told_same c)) (ground (arith, told_same c))
          (ground (arith, told_state c)) (ground (arith, told_state c))
          (ground (arith, told_state parent)))

  pub AreOrderly-handled :
      AreOrderly g
      → is_live g parent ≡ true
      → (g parent).priority < n_prio
      → AreOrderly (handled g parent c a b)
  unfolding handled reaped removed informed
  AreOrderly-handled o alive prio x hx = ground (arith, o x hx, o parent)
