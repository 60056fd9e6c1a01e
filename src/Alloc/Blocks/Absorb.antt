-- ===== src/Alloc/Blocks/Absorb.antt =====
-- The cells after a block is freed.
use sysres_os.Base.{
  ℕ, ◌+◌, ◌≡◌, refl, true, false, if◌then◌else◌, List, [], ◌∷◌, ◌++◌, ◌⊎◌, ◌∙◌, arith, Bool-cases,
  inl, inr, ap,
}
use sysres_os.Alloc.Blocks.{Cell, end_of, is_start, is_start-append}
use sysres_os.Alloc.Blocks.Merge.{union}

-- A block is marked free.
abbrev pub freed_cell : Cell → Cell
freed_cell c = record c { free = true }

-- A cell takes in the next one if that is free.
abbrev pub absorb : Cell → List Cell → List Cell
absorb c [] = c ∷ []
absorb c (d ∷ ds) = if d.free then union c d ∷ ds else c ∷ d ∷ ds

pub absorb_free : (c d : Cell) (ds : List Cell) → d.free ≡ true → absorb c (d ∷ ds) ≡ union c d ∷ ds
absorb_free c d ds e = rw e refl

pub absorb_used : (c d : Cell) (ds : List Cell) → d.free ≡ false → absorb c (d ∷ ds) ≡ c ∷ d ∷ ds
absorb_used c d ds e = rw e refl

-- Once `c` is free and has taken in what follows, the cell before it does the same if it is free.
abbrev pub settle : List Cell → List Cell → List Cell
settle [] rest = rest
settle (d ∷ []) rest = if d.free then absorb d rest else d ∷ rest
settle (d ∷ e ∷ ds) rest = d ∷ settle (e ∷ ds) rest

pub settle_last :
    (ds : List Cell) (d : Cell) (rest : List Cell)
    → settle (ds ++ d ∷ []) rest ≡ ds ++ (if d.free then absorb d rest else d ∷ rest)
settle_last [] d rest = refl
settle_last (x ∷ []) d rest = refl
settle_last (x ∷ y ∷ ds) d rest = ap (λ (l : List Cell). x ∷ l) (settle_last (y ∷ ds) d rest)

pub append_last :
    (ds : List Cell) (d : Cell) (rest : List Cell) → (ds ++ d ∷ []) ++ rest ≡ ds ++ d ∷ rest
append_last [] d rest = refl
append_last (x ∷ ds) d rest = ap (λ (l : List Cell). x ∷ l) (append_last ds d rest)

pub end_of_last :
    (a : ℕ) (ds : List Cell) (d : Cell) → end_of a (ds ++ d ∷ []) ≡ end_of a ds + 32 + d.size
unfolding end_of
end_of_last a [] d = refl
end_of_last a (x ∷ ds) d = end_of_last (a + 32 + x.size) ds d

pub last_cell :
    (pre : List Cell) → (pre ≡ []) ⊎ ((ds : List Cell) × (d : Cell) × (pre ≡ ds ++ d ∷ []))
last_cell [] = inl refl
last_cell (x ∷ xs) = elim (last_cell xs) [
  | inl e ↦ inr ([], x, rw e refl)
  | inr (ds, d, e) ↦ inr (x ∷ ds, d, rw e refl)
]

-- What `absorb` gives is a cell with the mark of the first, and it ends where the cells ended.
pub absorb_head :
    (c : Cell) (post : List Cell)
    → (k : Cell) × (rest : List Cell) × (absorb c post ≡ k ∷ rest) × (k.free ≡ c.free)
absorb_head c [] = (c, [], refl, refl)
absorb_head c (d ∷ ds) = elim (Bool-cases d.free) [
  | inl y ↦ (union c d, ds, rw y refl, refl)
  | inr n ↦ (c, d ∷ ds, rw n refl, refl)
]

pub absorb_end :
    (a : ℕ) (c : Cell) (post : List Cell) → end_of a (absorb c post) ≡ end_of (a + 32 + c.size) post
unfolding end_of
absorb_end a c [] = refl
absorb_end a c (d ∷ ds) = elim (Bool-cases d.free) [
  | inl y ↦
      let same : a + 32 + (c.size + 32 + d.size) ≡ a + 32 + c.size + 32 + d.size = omega arith in
      ap (end_of a) (absorb_free c d ds y) ∙ ap (λ x. end_of x ds) same
  | inr n ↦ ap (end_of a) (absorb_used c d ds n)
]

-- What is no cell's address is none after the cell has taken in the next one.
pub start_absorb :
    (a : ℕ) (c : Cell) (post : List Cell) (x : ℕ)
    → is_start a (c ∷ post) x ≡ false
    → is_start a (absorb c post) x ≡ false
start_absorb a c [] x h = h
start_absorb a c (d ∷ ds) x h = elim (Bool-cases d.free) [
  | inl y ↦
      let same : a + 32 + (c.size + 32 + d.size) ≡ a + 32 + c.size + 32 + d.size = omega arith in
      rw (y, same) (ground arith)
  | inr n ↦ rw n h
]

pub start_absorb_later :
    (a : ℕ) (pre : List Cell) (c : Cell) (post : List Cell) (x : ℕ)
    → is_start a (pre ++ c ∷ post) x ≡ false
    → is_start a (pre ++ absorb c post) x ≡ false
start_absorb_later a pre c post x h = ground (
  arith,
  is_start-append a pre (c ∷ post) x,
  is_start-append a pre (absorb c post) x,
  start_absorb (end_of a pre) c post x,
)

pub end_of-append : (a : ℕ) (cs ds : List Cell) → end_of a (cs ++ ds) ≡ end_of (end_of a cs) ds
unfolding end_of
end_of-append a [] ds = refl
end_of-append a (c ∷ cs) ds = end_of-append (a + 32 + c.size) cs ds
