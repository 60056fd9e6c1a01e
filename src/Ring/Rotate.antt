-- ===== src/Ring/Rotate.antt =====
-- The head of a ring moves on to the next member.
use sysres_os.Base.{
  ℕ, ◌≡◌, refl, Option, some, List, [], ◌∷◌, ◌++◌, arith, has, Distinct, false, ◌==◌, ◌||◌,
}
use sysres_os.Ring.Defs.{Seg, IsRing}

abbrev pub rotate : List ℕ → List ℕ
rotate [] = []
rotate (h ∷ xs) = xs ++ h ∷ []

Seg-append :
    (n p : ℕ → Option ℕ) (a : ℕ) (xs : List ℕ) (h b : ℕ)
    → Seg n p a xs h
    → Seg n p h [] b
    → Seg n p a (xs ++ h ∷ []) b
Seg-append n p a [] h b s t = (s, t)
Seg-append n p a (x ∷ xs) h b s t = (s.0, Seg-append n p x xs h b s.1 t)

has-append : (y : ℕ) (xs : List ℕ) (h : ℕ) → has y (xs ++ h ∷ []) ≡ (has y xs || (y == h))
has-append y [] h = ground arith
has-append y (x ∷ xs) h = ground (arith, has-append y xs h)

pub has-rotate : (y : ℕ) (xs : List ℕ) → has y (rotate xs) ≡ has y xs
has-rotate y [] = refl
has-rotate y (h ∷ xs) = ground (arith, has-append y xs h)

Distinct-append : (xs : List ℕ) (h : ℕ) → Distinct xs → has h xs ≡ false → Distinct (xs ++ h ∷ [])
Distinct-append [] h d new = (refl, tt)
Distinct-append (x ∷ xs) h d new =
    (ground (arith, has-append x xs h), Distinct-append xs h d.1 (ground arith))

pub rotate-IsRing :
    (n p : ℕ → Option ℕ) (h : ℕ) (xs : List ℕ)
    → IsRing n p (some h) (h ∷ xs)
    → IsRing n p (n h) (rotate (h ∷ xs))
rotate-IsRing n p h [] r = (r.1.0, r.1, r.2)
rotate-IsRing n p h (y ∷ ys) r =
    rw r.1.0.0 (refl, Seg-append n p y ys h y r.1.1 r.1.0, Distinct-append (y ∷ ys) h r.2.1 r.2.0)
