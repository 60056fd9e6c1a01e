-- ===== src/Ring/Closed.antt =====
-- Slots whose links stay among them, in both directions: any number of rings, with no heads.
use sysres_os.Base.{
  ℕ, ◌≡◌, refl, Option, some, List, arith, has, true, false, Bool, ◌==◌, if◌then◌else◌, Bool-cases,
  inl, inr, erase, [], ◌∷◌, ap, same_ptr,
}
use sysres_os.Ring.Defs.{IsRing, ring-next, ring-prev}

module _ (n p : ℕ → Option ℕ) (k : ℕ → Bool) where
  abbrev pub Next : ℕ → Type 0
  Next x = (y : ℕ) × (n x ≡ some y) × (p y ≡ some x) × (k y ≡ true)

  abbrev pub Prev : ℕ → Type 0
  Prev x = (y : ℕ) × (p x ≡ some y) × (n y ≡ some x) × (k y ≡ true)

  pub record IsClosed : Type 0 where
    pub behind : (x : ℕ) → k x ≡ true → Next x
    pub before : (x : ℕ) → k x ≡ true → Prev x

-- Every list below the first occurrence stays.
pub erase-absent : (q : ℕ) (xs : List ℕ) → has q xs ≡ false → erase q xs ≡ xs
erase-absent q [] h = refl
erase-absent q (x ∷ xs) h = rw (left) (ap (λ ys. x ∷ ys) (erase-absent q xs (ground arith)))
  where
    left : (q == x) ≡ false
    left = ground arith

-- A slot that leads into a ring is on it.
module _ (n p : ℕ → Option ℕ) (head : Option ℕ) (xs : List ℕ) (r : IsRing n p head xs) (q : ℕ)
    (out : has q xs ≡ false) where
  pub next_outside : (a : ℕ) → n a ≡ some q → has a xs ≡ false
  next_outside a e = elim (Bool-cases (has a xs)) [
    | inl i ↦ let (y, ey, hy) = ring-next n p head a xs r i in absurd (ground arith)
    | inr o ↦ o
  ]

  pub prev_outside : (b : ℕ) → p b ≡ some q → has b xs ≡ false
  prev_outside b e = elim (Bool-cases (has b xs)) [
    | inl i ↦ let (y, ey, hy) = ring-prev n p head b xs r i in absurd (ground arith)
    | inr o ↦ o
  ]

-- A ring is headed by a member only.
pub head_outside :
    (n p : ℕ → Option ℕ) (head : Option ℕ) (q : ℕ) (xs : List ℕ)
    → IsRing n p head xs
    → has q xs ≡ false
    → same_ptr head q ≡ false
head_outside n p head q [] r out = rw r refl
head_outside n p head q (x ∷ xs) r out = rw r.0 (ground arith)

module _ (n p : ℕ → Option ℕ) (k : ℕ → Bool) (closed : IsClosed n p k) (n' p' : ℕ → Option ℕ)
    (k' : ℕ → Bool) where
  -- The slot `q` leaves.
  module _ (q a b : ℕ) (en : n q ≡ some b) (ep : p q ≡ some a) (here : k q ≡ true)
      (cn : (x : ℕ) → n' x ≡ (if x == a then some b else n x))
      (cp : (x : ℕ) → p' x ≡ (if x == b then some a else p x))
      (ck : (x : ℕ) → k' x ≡ (if x == q then false else k x)) where
    leave-behind : (x : ℕ) → k' x ≡ true → Next n' p' k' x
    leave-behind x h =
        let kx : k x ≡ true = ground (arith, ck x) in
        let (y, ny, py, ky) = closed.behind x kx in
        let (y', ny', py', ky') = closed.behind q here in
        let (z', pz', nz', kz') = closed.before q here in
        elim (Bool-cases (x == a)) [
          | inl e ↦ (b, ground (arith, cn x), ground (arith, cp b), ground (arith, ck b, ck x))
          | inr e ↦
              (y, ground (arith, cn x), ground (arith, cp y, ck x), ground (arith, ck y, ck x))
        ]

    leave-before : (x : ℕ) → k' x ≡ true → Prev n' p' k' x
    leave-before x h =
        let kx : k x ≡ true = ground (arith, ck x) in
        let (y, py, ny, ky) = closed.before x kx in
        let (y', ny', py', ky') = closed.behind q here in
        let (z', pz', nz', kz') = closed.before q here in
        elim (Bool-cases (x == b)) [
          | inl e ↦ (a, ground (arith, cp x), ground (arith, cn a), ground (arith, ck a, ck x))
          | inr e ↦
              (y, ground (arith, cp x), ground (arith, cn y, ck x), ground (arith, ck y, ck x))
        ]

    pub leave-IsClosed : IsClosed n' p' k'
    leave-IsClosed = record { behind = leave-behind; before = leave-before }

  -- The slot `c` comes in alone.
  module _ (c : ℕ) (new : k c ≡ false) (ck : (x : ℕ) → k' x ≡ (if x == c then true else k x)) where
    pub alone-IsClosed :
        ((x : ℕ) → n' x ≡ (if x == c then some c else n x))
        → ((x : ℕ) → p' x ≡ (if x == c then some c else p x))
        → IsClosed n' p' k'
    alone-IsClosed cn cp = record {
      behind = λ x h. elim (Bool-cases (x == c)) [
        | inl e ↦ (c, ground (arith, cn x), ground (arith, cp c), ground (arith, ck c))
        | inr e ↦
            let (y, ny, py, ky) = closed.behind x (ground (arith, ck x)) in
            (y, ground (arith, cn x), ground (arith, cp y), ground (arith, ck y))
      ];
      before = λ x h. elim (Bool-cases (x == c)) [
        | inl e ↦ (c, ground (arith, cp x), ground (arith, cn c), ground (arith, ck c))
        | inr e ↦
            let (y, py, ny, ky) = closed.before x (ground (arith, ck x)) in
            (y, ground (arith, cp x), ground (arith, cn y), ground (arith, ck y))
      ];
    }

    -- It comes between `l` and `h`.
    pub enter-IsClosed :
        (h l : ℕ)
        → k h ≡ true
        → p h ≡ some l
        → ((x : ℕ) → n' x ≡ (if x == l then some c else if x == c then some h else n x))
        → ((x : ℕ) → p' x ≡ (if x == h then some c else if x == c then some l else p x))
        → IsClosed n' p' k'
    enter-IsClosed h l kh el cn cp =
        let (z, pz, nz, kz) = closed.before h kh in
        record {
          behind = λ x hx. elim (Bool-cases (x == c)) [
            | inl e ↦ (h, ground (arith, cn x), ground (arith, cp h), ground (arith, ck h))
            | inr e ↦
                let (y, ny, py, ky) = closed.behind x (ground (arith, ck x)) in
                elim (Bool-cases (x == l)) [
                  | inl f ↦ (c, ground (arith, cn x), ground (arith, cp c), ground (arith, ck c))
                  | inr f ↦ (y, ground (arith, cn x), ground (arith, cp y), ground (arith, ck y))
                ]
          ];
          before = λ x hx. elim (Bool-cases (x == c)) [
            | inl e ↦ (l, ground (arith, cp x), ground (arith, cn l), ground (arith, ck l))
            | inr e ↦
                let (y, py, ny, ky) = closed.before x (ground (arith, ck x)) in
                elim (Bool-cases (x == h)) [
                  | inl f ↦ (c, ground (arith, cp x), ground (arith, cn c), ground (arith, ck c))
                  | inr f ↦ (y, ground (arith, cp x), ground (arith, cn y), ground (arith, ck y))
                ]
          ];
        }
