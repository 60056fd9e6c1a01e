-- ===== src/Proc/Family/Adopted.antt =====
-- A new process comes into its family: the new descriptor, `add_child`, then a state that runs.
use mathlib.Core.Path.{subst}
use sysres_os.Base.{
  ℕ, ◌<◌, ◌≡◌, refl, true, false, Option, none, some, List, [], ◌∷◌, ◌==◌, arith, if◌then◌else◌,
  has, Bool-cases, inl, inr, last, has-last, ◌⊎◌,
}
use sysres_os.Ring.{IsRing, IsRing-congr, prev-stop}
use sysres_os.Ring.Insert.{insert_first, insert_front}
use sysres_os.Ring.Closed.{IsClosed, alone-IsClosed, enter-IsClosed}
use sysres_os.Proc.State.{Proc, max_proc, is_free, runnable}
use sysres_os.Proc.Run.{update}
use sysres_os.Proc.Queue.Ends.{with_state}
use sysres_os.Proc.Family.Links.{adopted_first, adopted_front}
use sysres_os.Proc.Family.Walk.{siblings_next, siblings_prev, IsChildren}
use sysres_os.Proc.Family.Kin.{is_kid, is_live, IsKin}

-- The descriptors once `r` is in slot `c` and in front of the children `xs` of `parent`.
unfoldable pub adopted : (ℕ → Proc) → (parent c : ℕ) → Proc → List ℕ → ℕ → Proc
adopted g parent c r [] = with_state c runnable (adopted_first (update g c r) parent c)
adopted g parent c r (h ∷ xs) =
    with_state c runnable (adopted_front (update g c r) parent c h (last h xs))

abbrev pub kin_adopted : (ℕ → List ℕ) → (parent c : ℕ) → ℕ → List ℕ
kin_adopted kin parent c p = if p == c then [] else if p == parent then c ∷ kin parent else kin p

module _ (g : ℕ → Proc) (kin : ℕ → List ℕ) (k : IsKin g kin) (parent c : ℕ) (r : Proc)
    (hc : c < max_proc) (hc' : 1 < c) (vacant : is_free (g c).state ≡ true)
    (alive : is_live g parent ≡ true) (number : r.pid ≡ c) (own : r.parent_pid ≡ parent)
    (childless : r.child ≡ none) where
  -- What the links look like behind the change: `n` and `p` say which.
  pub record Entered (g' : ℕ → Proc) (n p : ℕ → Option ℕ) : Type 0 where
    pub next : (x : ℕ) → siblings_next g' x ≡ n x
    pub prev : (x : ℕ) → siblings_prev g' x ≡ p x
    pub heads :
        (x : ℕ)
        → (g' x).child ≡ (if x == c then none else if x == parent then some c else (g x).child)
    pub states : (x : ℕ) → (g' x).state ≡ (if x == c then runnable else (g x).state)
    pub pids : (x : ℕ) → (g' x).pid ≡ (if x == c then c else (g x).pid)
    pub fathers : (x : ℕ) → (g' x).parent_pid ≡ (if x == c then parent else (g x).parent_pid)

  apart : (parent == c) ≡ false
  apart = ground arith

  module _ (g' : ℕ → Proc) (n p : ℕ → Option ℕ) (e : Entered g' n p) where
    kid-adopted : (x : ℕ) → is_kid g' x ≡ (if x == c then true else is_kid g x)
    kid-adopted x = ground (arith, e.states x)

    live-adopted : (x : ℕ) → is_live g' x ≡ (if x == c then true else is_live g x)
    live-adopted x = ground (arith, e.states x)

    -- A child of another process is not one of the parent's, and not the new one.
    elsewhere :
        (q x : ℕ)
        → (q == parent) ≡ false
        → is_live g q ≡ true
        → has x (kin q) ≡ true
        → has x (kin parent) ≡ false
    elsewhere q x j l m = elim (Bool-cases (has x (kin parent))) [
      | inl i ↦ absurd (ground (arith, k.parent q x l m, k.parent parent x alive i))
      | inr i ↦ i
    ]

    kid_apart : (q x : ℕ) → is_live g q ≡ true → has x (kin q) ≡ true → (x == c) ≡ false
    kid_apart q x l m = ground (arith, k.member q x l m)

    -- The ring of the parent is given, and the others are not touched.
    pub IsKin-entered :
        IsClosed (siblings_next g') (siblings_prev g') (is_kid g')
        → IsRing (siblings_next g') (siblings_prev g') (some c) (c ∷ kin parent)
        → ((x : ℕ)
            → has x (kin parent) ≡ false
            → (x == c) ≡ false
            → (siblings_next g' x ≡ siblings_next g x) × (siblings_prev g' x ≡ siblings_prev g x))
        → IsKin g' (kin_adopted kin parent c)
    IsKin-entered closed' mine others = record {
      numbered = λ x h f. ground (arith, e.states x, e.pids x, k.numbered x h);
      parents = λ x h f. ground (arith, e.states x, e.fathers x, k.parents x h);
      roots = λ x f o. ground (arith, e.states x, e.fathers x, k.roots x);
      idle = ground (arith, e.states 0, k.idle);
      closed = closed';
      ring = λ q l. elim (Bool-cases (q == c)) [
        | inl i ↦ ground (arith, e.heads q)
        | inr i ↦ elim (Bool-cases (q == parent)) [
          | inl j ↦ rw (e.heads q, i, j) mine
          | inr j ↦
              let lq : is_live g q ≡ true = ground (arith, live-adopted q) in
              rw (e.heads q, i, j)
                (IsRing-congr (siblings_next g) (siblings_prev g) (siblings_next g')
                  (siblings_prev g') (g q).child (kin q) (k.ring q lq)
                  (λ x m. (others x (elsewhere q x j lq m) (kid_apart q x lq m)).0)
                  (λ x m. (others x (elsewhere q x j lq m) (kid_apart q x lq m)).1))
        ]
      ];
      member =
          λ q x l i. ground (arith, live-adopted q, kid-adopted x, k.member q x, k.member parent x);
      parent = λ q x l i. ground (
        arith,
        live-adopted q,
        e.fathers x,
        k.parent q x,
        k.parent parent x,
        k.member q x,
        k.member parent x,
      );
    }

  first-Entered :
      (g parent).child ≡ none
      → Entered
          (adopted g parent c r [])
          (λ x. if x == c then some c else siblings_next g x)
          (λ x. if x == c then some c else siblings_prev g x)
  unfolding adopted adopted_first
  first-Entered e = record {
    next = λ x. ground arith;
    prev = λ x. ground arith;
    heads = λ x. ground arith;
    states = λ x. ground arith;
    pids = λ x. ground arith;
    fathers = λ x. ground arith;
  }

  front-Entered :
      (h : ℕ) (xs : List ℕ)
      → (h == c) ≡ false
      → (last h xs == c) ≡ false
      → Entered
          (adopted g parent c r (h ∷ xs))
          (λ x. if x == last h xs then some c else if x == c then some h else siblings_next g x)
          (λ x. if x == h then some c else if x == c then some (last h xs) else siblings_prev g x)
  unfolding adopted adopted_front
  front-Entered h xs nh nl = record {
    next = λ x. ground arith;
    prev = λ x. ground arith;
    heads = λ x. ground arith;
    states = λ x. ground arith;
    pids = λ x. ground arith;
    fathers = λ x. ground arith;
  }

  kids_apart : (x : ℕ) → has x (kin parent) ≡ true → (is_kid g x ≡ true) × ((x == c) ≡ false)
  kids_apart x i = (k.member parent x alive i, ground (arith, k.member parent x alive i))

  IsKin-first :
      (g parent).child ≡ none
      → kin parent ≡ []
      → IsKin (adopted g parent c r []) (kin_adopted kin parent c)
  IsKin-first e none_yet =
      let g' = adopted g parent c r [] in
      let entered = first-Entered e in
      let kids = kid-adopted g' _ _ entered in
      IsKin-entered g' _ _ entered
        (alone-IsClosed (siblings_next g) (siblings_prev g) (is_kid g) k.closed (siblings_next g')
          (siblings_prev g') (is_kid g') c (ground arith) kids entered.next entered.prev)
        (rw none_yet (
          insert_first (siblings_next g) (siblings_prev g) (siblings_next g') (siblings_prev g') c
            (ground (arith, entered.next c)) (ground (arith, entered.prev c))))
        (λ x o ne. (ground (arith, entered.next x), ground (arith, entered.prev x)))

  IsKin-front :
      (h : ℕ) (xs : List ℕ)
      → kin parent ≡ h ∷ xs
      → IsChildren g parent (h ∷ xs)
      → IsKin (adopted g parent c r (h ∷ xs)) (kin_adopted kin parent c)
  IsKin-front h xs eq ring =
      let g' = adopted g parent c r (h ∷ xs) in
      let mh : has h (kin parent) ≡ true = rw eq (ground arith) in
      let ml : has (last h xs) (kin parent) ≡ true = rw eq (has-last h xs) in
      let nh = (kids_apart h mh).1 in
      let nl = (kids_apart (last h xs) ml).1 in
      let entered = front-Entered h xs nh nl in
      let kids = kid-adopted g' _ _ entered in
      let el = prev-stop (siblings_next g) (siblings_prev g) h h xs ring.1 in
      let out : has c (h ∷ xs) ≡ false =
        subst (λ ys. has c ys ≡ false) eq (not_own (Bool-cases (has c (kin parent)))) in
      IsKin-entered g' _ _ entered
        (enter-IsClosed (siblings_next g) (siblings_prev g) (is_kid g) k.closed (siblings_next g')
          (siblings_prev g') (is_kid g') c (ground arith) kids h (last h xs) (kids_apart h mh).0 el
          entered.next entered.prev)
        (rw eq (
          insert_front (siblings_next g) (siblings_prev g) (siblings_next g') (siblings_prev g') c h
            xs (refl, ring.1, ring.2) out entered.next entered.prev))
        (λ x o ne. (ground (arith, entered.next x, mh, ml), ground (arith, entered.prev x, mh, ml)))
    where
      not_own :
          (has c (kin parent) ≡ true) ⊎ (has c (kin parent) ≡ false) → has c (kin parent) ≡ false
      not_own (inl i) = absurd (ground (arith, kids_apart c i))
      not_own (inr i) = i

  adopts :
      (xs : List ℕ) → kin parent ≡ xs → IsKin (adopted g parent c r xs) (kin_adopted kin parent c)
  adopts [] eq = IsKin-first (subst (IsChildren g parent) eq (k.ring parent alive)) eq
  adopts (h ∷ xs) eq = IsKin-front h xs eq (subst (IsChildren g parent) eq (k.ring parent alive))

  pub IsKin-adopted : IsKin (adopted g parent c r (kin parent)) (kin_adopted kin parent c)
  IsKin-adopted = adopts (kin parent) refl
