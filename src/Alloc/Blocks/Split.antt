-- ===== src/Alloc/Blocks/Split.antt =====
-- `split_block` on the list of cells.
use mathlib.Core.Path.{fun_ext, subst}
use sysres_os.Base.{
  ℕ, ◌+◌, ◌-◌, ◌≤◌, ◌<◌, ◌≡◌, ◌≢◌, refl, true, false, not, ◌&&◌, ltb, leb, ◌==◌, if◌then◌else◌,
  List, [], ◌∷◌, ◌++◌, ◌⊎◌, arith, Bool-cases, inl, inr, ap, add64, sub64, u64,
}
use sysres_os.Alloc.State.{Block, Heap, returns, put, ablock_size}
use sysres_os.Alloc.{cut_block, split_block}
use sysres_os.Alloc.Blocks.{
  Cell, end_of, last_of, first_of, Linked, Linked-frame, Linked-prev, Linked-append, append-Linked,
  is_start, is_start-append,
}

-- The cells after a split, which leaves a block whose rest has no room for a header and a byte.
abbrev pub carve : ℕ → Cell → List Cell → List Cell
carve size c post =
    if ltb (size + 32) c.size
    then record { size = size; free = c.free }
      ∷ record { size = c.size - size - 32; free = true }
      ∷ post
    else c ∷ post

carve_large :
    (size : ℕ) (c : Cell) (post : List Cell)
    → ltb (size + 32) c.size ≡ true
    → carve size c post
      ≡ record { size = size; free = c.free }
        ∷ record { size = c.size - size - 32; free = true }
        ∷ post
carve_large size c post e = rw e refl

-- The headers after a cut.
abbrev cut : (ℕ → Block) → (b size : ℕ) → ℕ → Block
cut f b size x =
    if x == b
    then record (f b) { size = size; next = b + 32 + size }
    else if x == b + 32 + size
    then record { size = (f b).size - size - 32; next = (f b).next; prev = b; free = true }
    else if x == (f b).next && not (x == 0)
    then record (f x) { prev = b + 32 + size }
    else f x

cut_run :
    (h : Heap) (b size : ℕ)
    → size + 32 < (h.block b).size
    → b + 32 + (h.block b).size < u64
    → ((h.block b).next ≢ 0 → (h.block b).next ≡ b + 32 + (h.block b).size)
    → cut_block b size h ≡ returns tt (record h { block = cut h.block b size })
unfolding cut_block put
cut_run h b size room fits adj =
    let at_new : add64 (add64 b ablock_size) size ≡ b + 32 + size = omega arith in
    let rest : sub64 (sub64 (h.block b).size size) ablock_size ≡ (h.block b).size - size - 32 =
      omega arith in
    elim (Bool-cases ((h.block b).next == 0)) [
      | inl e ↦
          rw (e, at_new, rest)
            (ap (λ f. returns tt (record h { block = f })) (fun_ext λ x. ground arith))
      | inr e ↦
          rw (e, at_new, rest)
            (ap (λ f. returns tt (record h { block = f })) (fun_ext λ x. ground (arith, adj)))
    ]

module _ (f : ℕ → Block) (base : ℕ) (pre : List Cell) (c : Cell) (post : List Cell)
    (l : Linked f 0 base (pre ++ c ∷ post) 0) (size : ℕ) where
  abbrev b : ℕ
  b = end_of base pre

  abbrev behind : ℕ
  behind = b + 32 + c.size

  header_of : f b ≡ record {
    size = c.size;
    next = first_of 0 behind post;
    prev = last_of 0 base pre;
    free = c.free;
  }
  unfolding Linked
  header_of = (append-Linked f 0 base pre (c ∷ post) 0 l).1.0

  Linked-post : Linked f b behind post 0
  unfolding Linked
  Linked-post = (append-Linked f 0 base pre (c ∷ post) 0 l).1.1

  next_of : ((f b).next ≡ 0) ⊎ ((f b).next ≡ behind)
  next_of = rw header_of (one post)
    where
      one : (cs : List Cell) → (first_of 0 behind cs ≡ 0) ⊎ (first_of 0 behind cs ≡ behind)
      one [] = inl refl
      one (d ∷ ds) = inr refl

  next_some : behind < end_of behind post → (f b).next ≡ behind
  unfolding end_of
  next_some h = rw header_of (one post h)
    where
      one : (cs : List Cell) → behind < end_of behind cs → first_of 0 behind cs ≡ behind
      one [] h = absurd (omega arith)
      one (d ∷ ds) h = refl

  cut_post : size + 32 < c.size → Linked (cut f b size) (b + 32 + size) behind post 0
  unfolding end_of
  cut_post room =
      Linked-prev f (cut f b size) b (b + 32 + size) behind post 0
        (λ x from below. ground (arith, next_of)) (λ some_post. ground (arith, next_some some_post))
        Linked-post

  cut-Linked :
      size + 32 < c.size
      → Linked
          (cut f b size)
          0
          base
          (pre
            ++ record { size = size; free = c.free }
              ∷ record { size = c.size - size - 32; free = true }
              ∷ post)
          0
  unfolding Linked
  cut-Linked room =
      let ends : b + 32 + size + 32 + (c.size - size - 32) ≡ behind = omega arith in
      Linked-append (cut f b size) 0 base pre _ 0
        (Linked-frame f (cut f b size) 0 base pre b (λ x from below. ground (arith, next_of))
          (append-Linked f 0 base pre (c ∷ post) 0 l).0)
        (ground (arith, header_of), rw ends (ground (arith, header_of), cut_post room))

-- A cut writes to the header, to the new one and to the next one.
cut_frame :
    (f : ℕ → Block) (base : ℕ) (pre : List Cell) (c : Cell) (post : List Cell)
    → Linked f 0 base (pre ++ c ∷ post) 0
    → (size x : ℕ) → is_start base (pre ++ c ∷ post) x ≡ false
    → is_start base
        (pre
          ++ record { size = size; free = c.free }
            ∷ record { size = c.size - size - 32; free = true }
            ∷ post)
        x
      ≡ false
    → cut f (end_of base pre) size x ≡ f x
cut_frame f base pre c [] l size x old new = ground (
  arith,
  is_start-append base pre (c ∷ []) x,
  is_start-append base pre
      (record { size = size; free = c.free }
        ∷ record { size = c.size - size - 32; free = true }
        ∷ [])
      x,
  header_of f base pre c [] l size,
)
cut_frame f base pre c (d ∷ ds) l size x old new = ground (
  arith,
  is_start-append base pre (c ∷ d ∷ ds) x,
  is_start-append base pre
      (record { size = size; free = c.free }
        ∷ record { size = c.size - size - 32; free = true }
        ∷ d
        ∷ ds)
      x,
  header_of f base pre c (d ∷ ds) l size,
)

-- `split_block` at a block of the list, which has the size asked for and ends below 2 ^ 64, returns.
-- Its cell is split into one of that size and a free one if the rest has room for more than a header,
-- and stays whole otherwise. Nothing is written but at the addresses of cells, those before or those
-- after.
pub split_block-refines :
    (h : Heap) (base : ℕ) (pre : List Cell) (c : Cell) (post : List Cell) (size : ℕ)
    → Linked h.block 0 base (pre ++ c ∷ post) 0
    → end_of base pre + 32 + c.size < u64
    → size ≤ c.size
    → (f : ℕ → Block) × (split_block (end_of base pre) size h ≡ returns tt (record h { block = f }))
      × Linked f 0 base (pre ++ carve size c post) 0
      × ((x : ℕ)
          → is_start base (pre ++ c ∷ post) x ≡ false
          → is_start base (pre ++ carve size c post) x ≡ false
          → f x ≡ h.block x)
unfolding split_block
split_block-refines h base pre c post size l fits enough =
    let e = ap (λ (k : Block). k.size) (header_of h.block base pre c post l size) in
    elim (Bool-cases (ltb (size + 32) c.size)) [
      | inl room ↦ (
        cut h.block (end_of base pre) size,
        (let leq : leb size (h.block (end_of base pre)).size ≡ true = ground (arith, e) in
            let fit : ltb (add64 size ablock_size) (h.block (end_of base pre)).size ≡ true =
              ground (arith, e) in
            rw (leq, fit)
              (cut_run h (end_of base pre) size (ground (arith, e)) (ground (arith, e))
                (λ ne. ground (arith, e, next_of h.block base pre c post l size)))),
        rw room (cut-Linked h.block base pre c post l size (ground arith)),
        λ x old new. cut_frame h.block base pre c post l size x old (
            subst (λ (cells : List Cell). is_start base (pre ++ cells) x ≡ false)
              (carve_large size c post room) new),
      )
      | inr tight ↦ (
        h.block,
        (let leq : leb size (h.block (end_of base pre)).size ≡ true = ground (arith, e) in
            let full : ltb (add64 size ablock_size) (h.block (end_of base pre)).size ≡ false =
              ground (arith, e) in
            rw (leq, full) refl),
        rw tight l,
        λ x old new. refl,
      )
    ]
