-- ===== src/Ring/Remove.antt =====
-- Taking a member out of a ring, wherever it stands.
use sysres_os.Base.{
  ℕ, ◌≡◌, refl, Option, none, some, List, [], ◌∷◌, arith, has, Distinct, last, true, false, ◌==◌,
  if◌then◌else◌, erase, Bool-cases, inl, inr, Distinct-erase, has-erase, ◌||◌, same_ptr,
}
use sysres_os.Ring.Defs.{Seg, IsRing, prev-stop}
use sysres_os.Ring.Insert.{relink}

module _ (n p n' p' : ℕ → Option ℕ) where
  -- A segment on which no link changes.
  frame :
      (a : ℕ) (xs : List ℕ) (b : ℕ)
      → Seg n p a xs b
      → ((x : ℕ) → has x (a ∷ xs) ≡ true → n' x ≡ n x)
      → ((x : ℕ) → has x xs ≡ true → p' x ≡ p x)
      → p' b ≡ p b
      → Seg n' p' a xs b
  frame a [] b s sn sp e = (ground (arith, sn a), ground arith)
  frame a (x ∷ xs) b s sn sp e = (
    (ground (arith, sn a), ground (arith, sp x)),
    frame x xs b s.1 (λ y h. sn y (ground arith)) (λ y h. sp y (ground arith)) e,
  )

Distinct-erase_cons : (q h : ℕ) (xs : List ℕ) → Distinct (h ∷ xs) → Distinct (h ∷ erase q xs)
Distinct-erase_cons q h xs d = (ground (arith, has-erase h q xs d.1), Distinct-erase q xs d.1)

module _ (n p n' p' : ℕ → Option ℕ) (q pq nq : ℕ) (hp : p q ≡ some pq) (hn : n q ≡ some nq)
    (cn : (x : ℕ) → n' x ≡ (if x == pq then some nq else n x))
    (cp : (x : ℕ) → p' x ≡ (if x == nq then some pq else p x)) where
  prev_inside :
      (a : ℕ) (xs : List ℕ) (b : ℕ) → Seg n p a xs b → has q xs ≡ true → has pq (a ∷ xs) ≡ true
  prev_inside a [] b s h = ground arith
  prev_inside a (x ∷ xs) b s h = elim (Bool-cases (q == x)) [
    | inl e ↦ ground arith
    | inr e ↦ ground (arith, prev_inside x xs b s.1)
  ]

  next_inside :
      (a : ℕ) (xs : List ℕ) (b : ℕ)
      → Seg n p a xs b
      → has q xs ≡ true
      → Distinct xs
      → (has nq xs || (nq == b)) ≡ true
  next_inside a [] b s h d = ground arith
  next_inside a (x ∷ []) b s h d = ground arith
  next_inside a (x ∷ y ∷ xs) b s h d = elim (Bool-cases (q == x)) [
    | inl e ↦ ground arith
    | inr e ↦ ground (arith, next_inside x (y ∷ xs) b s.1)
  ]

  -- Past the head, the neighbours of `q` are joined.
  unlink :
      (a : ℕ) (xs : List ℕ) (b : ℕ)
      → Seg n p a xs b
      → has q xs ≡ true
      → Distinct (a ∷ xs)
      → has b xs ≡ false
      → Seg n' p' a (erase q xs) b
  unlink a [] b s h d out = absurd (ground arith)
  unlink a (x ∷ []) b s h d out = ground (arith, cn a, cp b)
  unlink a (x ∷ y ∷ xs) b s h d out = elim (Bool-cases (q == x)) [
    | inl e ↦ rw e (
      ground (arith, cn a, cp y),
      frame n p n' p' y xs b s.1.1 (λ z i. ground (arith, cn z)) (λ z i. ground (arith, cp z))
          (ground (arith, cp b)),
    )
    | inr e ↦ rw e (
      ground (arith, cn a, cp x, prev_inside x (y ∷ xs) b s.1, next_inside x (y ∷ xs) b s.1),
      unlink x (y ∷ xs) b s.1 (ground arith) d.1 (ground arith),
    )
  ]

  -- The head itself is taken out.
  unlink_head :
      (xs : List ℕ)
      → IsRing n p (some q) (q ∷ xs)
      → IsRing n' p' (if nq == q then none else some nq) xs
  unlink_head [] r = ground arith
  unlink_head (y ∷ ys) r =
      let at_end : pq ≡ last y ys = ground (arith, prev-stop n p q q (y ∷ ys) r.1) in
      let ne : (nq == q) ≡ false = ground arith in
      rw ne (
        ground arith,
        relink n p n' p' y ys q y r.1.1 r.2.1 (λ x i ne'. ground (arith, cn x))
            (λ x i. ground (arith, cp x)) (ground (arith, cn (last y ys))) (ground (arith, cp y)),
        r.2.1,
      )

  -- A ring without `q`, whose head moves on if it is `q`.
  pub remove-IsRing :
      (h : ℕ) (xs : List ℕ)
      → IsRing n p (some h) (h ∷ xs)
      → has q (h ∷ xs) ≡ true
      → IsRing n' p'
          (if h == q then (if nq == q then none else some nq) else some h)
          (erase q (h ∷ xs))
  remove-IsRing h xs r i = elim (Bool-cases (h == q)) [
    | inl e ↦
        let eq : h ≡ q = ground arith in
        let flip : (q == h) ≡ true = ground arith in rw (e, flip) (unlink_head xs (rw eq at r))
    | inr e ↦
        let flip : (q == h) ≡ false = ground arith in
        rw (e, flip)
          (refl, unlink h xs h r.1 (ground arith) r.2 r.2.0, Distinct-erase_cons q h xs r.2)
  ]

  -- The same with any head pointer.
  pub remove :
      (head : Option ℕ) (xs : List ℕ)
      → IsRing n p head xs
      → has q xs ≡ true
      → IsRing n' p'
          (if same_ptr head q then (if nq == q then none else some nq) else head)
          (erase q xs)
  remove head [] r i = absurd (ground arith)
  remove head (x ∷ xs) r i = rw r.0 (remove-IsRing x xs (refl, r.1, r.2) i)
