-- ===== src/Ring/Defs.antt =====
-- Segments of a doubly linked list, and rings.
use sysres_os.Base.{
  ℕ, ◌≡◌, Option, none, some, List, [], ◌∷◌, arith, has, Distinct, last, true, inl, inr, Bool-cases,
  ◌==◌,
}

module _ (next prev : ℕ → Option ℕ) where
  -- `b` comes behind `a`.
  abbrev pub Linked : ℕ → ℕ → Type 0
  Linked a b = (next a ≡ some b) × (prev b ≡ some a)

  -- From `a` the links lead through `xs` to `b`, in both directions.
  abbrev pub Seg : ℕ → List ℕ → ℕ → Type 0
  Seg a [] b = Linked a b
  Seg a (x ∷ xs) b = Linked a x × Seg x xs b

  -- `head` points to the first of the members, which are linked in a circle.
  abbrev pub IsRing : Option ℕ → List ℕ → Type 0
  IsRing head [] = head ≡ none
  IsRing head (h ∷ xs) = (head ≡ some h) × Seg h xs h × Distinct (h ∷ xs)

-- The member that the links leave from and the one that they come back from.
pub prev-stop :
    (next prev : ℕ → Option ℕ) (a b : ℕ) (xs : List ℕ)
    → Seg next prev a xs b
    → prev b ≡ some (last a xs)
prev-stop next prev a b [] s = s.1
prev-stop next prev a b (x ∷ xs) s = prev-stop next prev x b xs s.1

abbrev pub first : List ℕ → ℕ → ℕ
first [] b = b
first (x ∷ xs) b = x

pub next-start :
    (next prev : ℕ → Option ℕ) (a b : ℕ) (xs : List ℕ)
    → Seg next prev a xs b
    → next a ≡ some (first xs b)
next-start next prev a b [] s = s.0
next-start next prev a b (x ∷ xs) s = s.0.0

-- What the links of a member lead to is a member again.
Seg-next :
    (next prev : ℕ → Option ℕ) (q a b : ℕ) (xs : List ℕ)
    → Seg next prev a xs b
    → has q (a ∷ xs) ≡ true
    → (y : ℕ) × (next q ≡ some y) × (has y (b ∷ xs) ≡ true)
Seg-next next prev q a b [] s h = (b, ground arith, ground arith)
Seg-next next prev q a b (x ∷ xs) s h = elim (Bool-cases (q == a)) [
  | inl e ↦ (x, ground arith, ground arith)
  | inr e ↦
      let (y, ey, hy) = Seg-next next prev q x b xs s.1 (ground arith) in (y, ey, ground arith)
]

Seg-prev :
    (next prev : ℕ → Option ℕ) (q a b : ℕ) (xs : List ℕ)
    → Seg next prev a xs b
    → has q (b ∷ xs) ≡ true
    → (y : ℕ) × (prev q ≡ some y) × (has y (a ∷ xs) ≡ true)
Seg-prev next prev q a b [] s h = (a, ground arith, ground arith)
Seg-prev next prev q a b (x ∷ xs) s h = elim (Bool-cases (q == x)) [
  | inl e ↦ (a, ground arith, ground arith)
  | inr e ↦
      let (y, ey, hy) = Seg-prev next prev q x b xs s.1 (ground arith) in (y, ey, ground arith)
]

module _ (next prev : ℕ → Option ℕ) (head : Option ℕ) (q : ℕ) where
  pub ring-next :
      (xs : List ℕ)
      → IsRing next prev head xs
      → has q xs ≡ true
      → (y : ℕ) × (next q ≡ some y) × (has y xs ≡ true)
  ring-next [] r h = absurd (ground arith)
  ring-next (x ∷ xs) r h = Seg-next next prev q x x xs r.1 h

  pub ring-prev :
      (xs : List ℕ)
      → IsRing next prev head xs
      → has q xs ≡ true
      → (y : ℕ) × (prev q ≡ some y) × (has y xs ≡ true)
  ring-prev [] r h = absurd (ground arith)
  ring-prev (x ∷ xs) r h = Seg-prev next prev q x x xs r.1 h

-- A ring is untouched by a change of links elsewhere.
pub Seg_congr :
    (n p n' p' : ℕ → Option ℕ) (a b : ℕ) (xs : List ℕ)
    → Seg n p a xs b
    → ((x : ℕ) → has x (a ∷ xs) ≡ true → n' x ≡ n x)
    → ((x : ℕ) → has x (b ∷ xs) ≡ true → p' x ≡ p x)
    → Seg n' p' a xs b
Seg_congr n p n' p' a b [] s sn sp = (ground (arith, sn a), ground (arith, sp b))
Seg_congr n p n' p' a b (x ∷ xs) s sn sp = (
  (ground (arith, sn a), ground (arith, sp x)),
  Seg_congr n p n' p' x b xs s.1 (λ y h. sn y (ground arith)) (λ y h. sp y (ground arith)),
)

pub IsRing-congr :
    (n p n' p' : ℕ → Option ℕ) (head : Option ℕ) (xs : List ℕ)
    → IsRing n p head xs
    → ((x : ℕ) → has x xs ≡ true → n' x ≡ n x)
    → ((x : ℕ) → has x xs ≡ true → p' x ≡ p x)
    → IsRing n' p' head xs
IsRing-congr n p n' p' head [] r sn sp = r
IsRing-congr n p n' p' head (h ∷ xs) r sn sp = (r.0, Seg_congr n p n' p' h h xs r.1 sn sp, r.2)

pub ring-Distinct :
    (n p : ℕ → Option ℕ) (head : Option ℕ) (xs : List ℕ) → IsRing n p head xs → Distinct xs
ring-Distinct n p head [] r = tt
ring-Distinct n p head (h ∷ xs) r = r.2

-- A ring with a member has a head, which is a member.
pub ring-head :
    (n p : ℕ → Option ℕ) (head : Option ℕ) (q : ℕ) (xs : List ℕ)
    → IsRing n p head xs
    → has q xs ≡ true
    → (h : ℕ) × (head ≡ some h) × (has h xs ≡ true)
ring-head n p head q [] r i = absurd (ground arith)
ring-head n p head q (h ∷ xs) r i = (h, r.0, ground arith)
