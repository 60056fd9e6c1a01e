-- ===== src/Alloc/Blocks.antt =====
-- The blocks as a list of cells that lie side by side.
pub mod Split
pub mod Merge
pub mod Absorb
pub mod Free
pub mod Reuse
use sysres_os.Base.{
  ℕ, zero, suc, ◌+◌, ◌-◌, ◌≤◌, ◌<◌, ◌≡◌, ◌≢◌, refl, Bool, true, false, ◌&&◌, ◌||◌, ltb, leb, ◌==◌,
  if◌then◌else◌, List, [], ◌∷◌, ◌++◌, arith, Bool-cases, inl, inr,
}
use sysres_os.Alloc.State.{Block, Heap}

pub record Cell : Type 0 where
  pub size : ℕ
  pub free : Bool

-- The address behind a list of cells that begins at `a`.
unfoldable pub end_of : ℕ → List Cell → ℕ
end_of a [] = a
end_of a (c ∷ cs) = end_of (a + 32 + c.size) cs

-- The last of them, or `p` if there is none.
unfoldable pub last_of : ℕ → ℕ → List Cell → ℕ
last_of p a [] = p
last_of p a (c ∷ cs) = last_of a (a + 32 + c.size) cs

-- The first of them, or `n` if there is none.
abbrev pub first_of : ℕ → ℕ → List Cell → ℕ
first_of n a [] = n
first_of n a (c ∷ cs) = a

-- Whether `x` is the address of a cell.
abbrev pub is_start : ℕ → List Cell → ℕ → Bool
is_start a [] x = false
is_start a (c ∷ cs) x = (x == a) || is_start (a + 32 + c.size) cs x

-- The headers from `a` on are those of the cells, linked in their order, between `p` and `n`.
unfoldable pub Linked : (ℕ → Block) → (p a : ℕ) → List Cell → ℕ → Type 0
Linked f p a [] n = Unit
Linked f p a (c ∷ cs) n =
    (f a
      ≡ record { size = c.size; next = first_of n (a + 32 + c.size) cs; prev = p; free = c.free })
    × Linked f a (a + 32 + c.size) cs n

pub is_start-append :
    (a : ℕ) (cs ds : List Cell) (x : ℕ)
    → is_start a (cs ++ ds) x ≡ (is_start a cs x || is_start (end_of a cs) ds x)
unfolding end_of
is_start-append a [] ds x = refl
is_start-append a (c ∷ cs) ds x = ground (arith, is_start-append (a + 32 + c.size) cs ds x)

pub end_of_mono : (a : ℕ) (cs : List Cell) → a ≤ end_of a cs
unfolding end_of
end_of_mono a [] = omega arith
end_of_mono a (c ∷ cs) = omega (arith, end_of_mono (a + 32 + c.size) cs)

module _ (f g : ℕ → Block) where
  -- Headers outside the cells do not matter.
  pub Linked-frame :
      (p a : ℕ) (cs : List Cell) (n : ℕ)
      → ((x : ℕ) → a ≤ x → x < end_of a cs → g x ≡ f x)
      → Linked f p a cs n
      → Linked g p a cs n
  unfolding Linked end_of
  Linked-frame p a [] n same h = tt
  Linked-frame p a (c ∷ cs) n same (e, h) =
      let far = end_of_mono (a + 32 + c.size) cs in
      (
        rw (same a (omega arith) (omega (arith, far))) e,
        Linked-frame a (a + 32 + c.size) cs n (λ x from below. same x (omega arith) below) h,
      )

  -- A new neighbour on the left.
  pub Linked-prev :
      (p q a : ℕ) (cs : List Cell) (n : ℕ)
      → ((x : ℕ) → a < x → x < end_of a cs → g x ≡ f x)
      → (a < end_of a cs → g a ≡ record (f a) { prev = q })
      → Linked f p a cs n
      → Linked g q a cs n
  unfolding Linked end_of
  Linked-prev p q a [] n same here h = tt
  Linked-prev p q a (c ∷ cs) n same here (e, h) =
      let far = end_of_mono (a + 32 + c.size) cs in
      (
        rw (here (omega (arith, far)), e) refl,
        Linked-frame a (a + 32 + c.size) cs n (λ x from below. same x (omega arith) below) h,
      )

-- Two lists of cells, side by side.
module _ (f : ℕ → Block) where
  pub Linked-append :
      (p a : ℕ) (cs ds : List Cell) (n : ℕ)
      → Linked f p a cs (first_of n (end_of a cs) ds)
      → Linked f (last_of p a cs) (end_of a cs) ds n
      → Linked f p a (cs ++ ds) n
  unfolding Linked end_of last_of
  Linked-append p a [] ds n h k = k
  Linked-append p a (c ∷ []) ds n (e, h) k = (e, k)
  Linked-append p a (c ∷ d ∷ cs) ds n (e, h) k =
      (e, Linked-append a (a + 32 + c.size) (d ∷ cs) ds n h k)

  pub append-Linked :
      (p a : ℕ) (cs ds : List Cell) (n : ℕ)
      → Linked f p a (cs ++ ds) n
      → Linked f p a cs (first_of n (end_of a cs) ds) × Linked f (last_of p a cs) (end_of a cs) ds n
  unfolding Linked end_of last_of
  append-Linked p a [] ds n h = (tt, h)
  append-Linked p a (c ∷ []) ds n (e, h) = ((e, tt), h)
  append-Linked p a (c ∷ d ∷ cs) ds n (e, h) =
      let (h', k) = append-Linked a (a + 32 + c.size) (d ∷ cs) ds n h in ((e, h'), k)
