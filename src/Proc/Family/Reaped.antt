-- ===== src/Proc/Family/Reaped.antt =====
-- A process that has ended leaves its family: `remove_child`, then the state `FREE`.
use sysres_os.Base.{
  ℕ, ◌≡◌, true, false, none, some, List, ◌==◌, arith, same_ptr, if◌then◌else◌, has, erase,
  has-erase, Bool-cases, inl, inr,
}
use sysres_os.Ring.{IsRing, IsRing-congr, ring-Distinct}
use sysres_os.Ring.Remove.{remove}
use sysres_os.Ring.Closed.{erase-absent, head_outside, next_outside, prev_outside, leave-IsClosed}
use sysres_os.Proc.State.{Proc, free}
use sysres_os.Proc.Queue.Ends.{with_state}
use sysres_os.Proc.Family.Links.{removed}
use sysres_os.Proc.Family.Walk.{siblings_next, siblings_prev, IsChildren}
use sysres_os.Proc.Family.Kin.{is_kid, is_live, IsKin}

-- The descriptors once `c` is free, whose neighbours were `a` and `b`.
unfoldable pub reaped : (ℕ → Proc) → (parent c a b : ℕ) → ℕ → Proc
reaped g parent c a b = with_state c free (removed g parent c a b)

abbrev pub kin_reaped : (ℕ → List ℕ) → (parent c : ℕ) → ℕ → List ℕ
kin_reaped kin parent c p = if p == parent then erase c (kin parent) else kin p

module _ (g : ℕ → Proc) (kin : ℕ → List ℕ) (k : IsKin g kin) (parent c a b : ℕ)
    (en : siblings_next g c ≡ some b) (ep : siblings_prev g c ≡ some a)
    (own : (g c).parent_pid ≡ parent) (kid : is_kid g c ≡ true) (ended : is_live g c ≡ false)
    (alive : is_live g parent ≡ true) where
  abbrev g' : ℕ → Proc
  g' = reaped g parent c a b

  next-reaped : (x : ℕ) → siblings_next g' x ≡ (if x == a then some b else siblings_next g x)
  unfolding reaped removed
  next-reaped x = ground arith

  prev-reaped : (x : ℕ) → siblings_prev g' x ≡ (if x == b then some a else siblings_prev g x)
  unfolding reaped removed
  prev-reaped x = ground arith

  kid-reaped : (x : ℕ) → is_kid g' x ≡ (if x == c then false else is_kid g x)
  unfolding reaped removed
  kid-reaped x = ground arith

  live-reaped : (x : ℕ) → is_live g' x ≡ is_live g x
  unfolding reaped removed
  live-reaped x = ground arith

  child-reaped :
      (x : ℕ)
      → (g' x).child ≡ (
          if x == parent
          then (if same_ptr (g parent).child c
              then (if b == c then none else some b)
              else (g parent).child)
          else (g x).child)
  unfolding reaped removed
  child-reaped x = ground arith

  numbers-reaped : (x : ℕ) → ((g' x).pid ≡ (g x).pid) × ((g' x).parent_pid ≡ (g x).parent_pid)
  unfolding reaped removed
  numbers-reaped x = (ground arith, ground arith)

  -- A ring of siblings without `c` stays.
  untouched :
      (p : ℕ)
      → is_live g p ≡ true
      → has c (kin p) ≡ false
      → IsRing (siblings_next g') (siblings_prev g') (g p).child (kin p)
  untouched p l out =
      let ra =
        next_outside (siblings_next g) (siblings_prev g) (g p).child (kin p) (k.ring p l) c out a in
      let rb =
        prev_outside (siblings_next g) (siblings_prev g) (g p).child (kin p) (k.ring p l) c out b in
      let (y, ny, py, ky) = k.closed.behind c kid in
      let (z, pz, nz, kz) = k.closed.before c kid in
      IsRing-congr (siblings_next g) (siblings_prev g) (siblings_next g') (siblings_prev g')
        (g p).child (kin p) (k.ring p l) (λ x i. ground (arith, next-reaped x, ra))
        (λ x i. ground (arith, prev-reaped x, rb))

  own_head : (g' parent).child ≡ (
      if same_ptr (g parent).child c then (if b == c then none else some b) else (g parent).child)
  own_head = ground (arith, child-reaped parent)

  own_ring : IsChildren g' parent (erase c (kin parent))
  own_ring = elim (Bool-cases (has c (kin parent))) [
    | inl i ↦ rw own_head (
        remove (siblings_next g) (siblings_prev g) (siblings_next g') (siblings_prev g') c a b ep en
          next-reaped prev-reaped (g parent).child (kin parent) (k.ring parent alive) i)
    | inr o ↦
        rw
          (
            own_head,
            head_outside (siblings_next g) (siblings_prev g) (g parent).child c (kin parent)
                (k.ring parent alive) o,
            erase-absent c (kin parent) o,
          )
          (untouched parent alive o)
  ]

  ring-reaped : (p : ℕ) → is_live g' p ≡ true → IsChildren g' p (kin_reaped kin parent c p)
  ring-reaped p l = elim (Bool-cases (p == parent)) [
    | inl e ↦ let eq : p ≡ parent = ground arith in rw (e, eq) own_ring
    | inr e ↦
        rw (e, child-reaped p, e)
          (untouched p (ground (arith, live-reaped p))
            (ground (arith, live-reaped p, k.parent p c)))
  ]

  pub IsKin-reaped : IsKin g' (kin_reaped kin parent c)
  unfolding reaped removed
  IsKin-reaped = record {
    numbered = λ x h f. ground (arith, k.numbered x h);
    parents = λ x h f. ground (arith, k.parents x h);
    roots = λ x f o. ground (arith, k.roots x);
    idle = ground (arith, k.idle);
    closed =
        leave-IsClosed (siblings_next g) (siblings_prev g) (is_kid g) k.closed (siblings_next g')
          (siblings_prev g') (is_kid g') c a b en ep kid next-reaped prev-reaped kid-reaped;
    ring = ring-reaped;
    member = λ p x l i. ground (
      arith,
      live-reaped p,
      kid-reaped x,
      k.member p x,
      k.parent p c,
      has-erase x c (kin parent) (ring-Distinct _ _ _ (kin parent) (k.ring parent alive)),
    );
    parent = λ p x l i. ground (
      arith,
      live-reaped p,
      k.parent p x,
      has-erase x c (kin parent) (ring-Distinct _ _ _ (kin parent) (k.ring parent alive)),
    );
  }
