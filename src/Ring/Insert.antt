-- ===== src/Ring/Insert.antt =====
-- Putting a new member in front of a ring.
use sysres_os.Base.{
  ℕ, ◌≡◌, refl, Option, some, List, [], ◌∷◌, arith, has, Distinct, last, has-last, true, false, ◌≢◌,
  ◌==◌, if◌then◌else◌,
}
use sysres_os.Ring.Defs.{Seg, IsRing}

module _ (n p n' p' : ℕ → Option ℕ) where
  -- The segment may be sent to another end, if nothing else on it changes.
  pub relink :
      (a : ℕ) (xs : List ℕ) (b c : ℕ)
      → Seg n p a xs b
      → Distinct (a ∷ xs)
      → ((x : ℕ) → has x (a ∷ xs) ≡ true → x ≢ last a xs → n' x ≡ n x)
      → ((x : ℕ) → has x xs ≡ true → p' x ≡ p x)
      → n' (last a xs) ≡ some c
      → p' c ≡ some (last a xs)
      → Seg n' p' a xs c
  relink a [] b c s d sn sp e f = (e, f)
  relink a (x ∷ xs) b c s d sn sp e f = (
    (ground (arith, sn a, has-last x xs), ground (arith, sp x)),
    relink x xs b c s.1 d.1 (λ y h ne. sn y (ground arith) ne) (λ y h. sp y (ground arith)) e f,
  )

  -- A first member is linked to itself.
  pub insert_first : (a : ℕ) → n' a ≡ some a → p' a ≡ some a → IsRing n' p' (some a) (a ∷ [])
  insert_first a hn hp = (refl, (hn, hp), (refl, tt))

  -- A member `a` is put between the last member and the head `h`.
  pub insert_front :
      (a h : ℕ) (xs : List ℕ)
      → IsRing n p (some h) (h ∷ xs)
      → has a (h ∷ xs) ≡ false
      → ((x : ℕ) → n' x ≡ (if x == last h xs then some a else if x == a then some h else n x))
      → ((x : ℕ) → p' x ≡ (if x == h then some a else if x == a then some (last h xs) else p x))
      → IsRing n' p' (some a) (a ∷ h ∷ xs)
  insert_front a h xs r new hn hp = (
    refl,
    (
      (ground (arith, hn a, has-last h xs), ground (arith, hp h)),
      relink h xs h a r.1 r.2 (λ x i ne. ground (arith, hn x)) (λ x i. ground (arith, hp x))
          (ground (arith, hn (last h xs))) (ground (arith, hp a)),
    ),
    (new, r.2),
  )
