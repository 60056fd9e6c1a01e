-- ===== src/Alloc/Blocks/Merge.antt =====
-- `merge_block` on the list of cells.
use mathlib.Core.Path.{fun_ext}
use sysres_os.Base.{
  ℕ, ◌+◌, ◌<◌, ◌≡◌, refl, true, false, not, ◌&&◌, ◌==◌, if◌then◌else◌, List, [], ◌∷◌, ◌++◌, ◌⊎◌,
  arith, Bool-cases, inl, inr, ap, u64,
}
use sysres_os.Alloc.State.{Block, Heap, returns, put}
use sysres_os.Alloc.{merge_block}
use sysres_os.Alloc.Blocks.{
  Cell, end_of, last_of, first_of, Linked, Linked-frame, Linked-prev, Linked-append, append-Linked,
  is_start, is_start-append,
}

-- Two cells as one, with the mark of the first.
abbrev pub union : Cell → Cell → Cell
union c d = record { size = c.size + 32 + d.size; free = c.free }

-- The headers after a merge.
abbrev merged : (ℕ → Block) → ℕ → ℕ → Block
merged f b x =
    if x == b
    then record (f b) { size = (f b).size + 32 + (f (f b).next).size; next = (f (f b).next).next }
    else if x == (f (f b).next).next && not (x == 0)
    then record (f x) { prev = b }
    else f x

module _ (f : ℕ → Block) (base : ℕ) (pre : List Cell) (c d : Cell) (post : List Cell)
    (l : Linked f 0 base (pre ++ c ∷ d ∷ post) 0) where
  abbrev b : ℕ
  b = end_of base pre

  abbrev n : ℕ
  n = b + 32 + c.size

  abbrev behind : ℕ
  behind = n + 32 + d.size

  pub header_of : f b ≡ record { size = c.size; next = n; prev = last_of 0 base pre; free = c.free }
  unfolding Linked
  header_of = (append-Linked f 0 base pre (c ∷ d ∷ post) 0 l).1.0

  pub header_next :
      f n ≡ record { size = d.size; next = first_of 0 behind post; prev = b; free = d.free }
  unfolding Linked
  header_next = (append-Linked f 0 base pre (c ∷ d ∷ post) 0 l).1.1.0

  Linked-post : Linked f n behind post 0
  unfolding Linked
  Linked-post = (append-Linked f 0 base pre (c ∷ d ∷ post) 0 l).1.1.1

  next_of : ((f n).next ≡ 0) ⊎ ((f n).next ≡ behind)
  next_of = rw header_next (one post)
    where
      one : (cs : List Cell) → (first_of 0 behind cs ≡ 0) ⊎ (first_of 0 behind cs ≡ behind)
      one [] = inl refl
      one (d ∷ ds) = inr refl

  next_some : behind < end_of behind post → (f n).next ≡ behind
  unfolding end_of
  next_some h = rw header_next (one post h)
    where
      one : (cs : List Cell) → behind < end_of behind cs → first_of 0 behind cs ≡ behind
      one [] h = absurd (omega arith)
      one (d ∷ ds) h = refl

  at_next : (f b).next ≡ n
  at_next = ap (λ (k : Block). k.next) header_of

  merged_post : Linked (merged f b) b behind post 0
  merged_post =
      Linked-prev f (merged f b) n b behind post 0
        (λ x from below. ground (arith, next_of, at_next))
        (λ some_post. ground (arith, next_some some_post, at_next)) Linked-post

  merged-Linked : Linked (merged f b) 0 base (pre ++ union c d ∷ post) 0
  unfolding Linked
  merged-Linked =
      let ends : b + 32 + (c.size + 32 + d.size) ≡ behind = omega arith in
      Linked-append (merged f b) 0 base pre _ 0
        (Linked-frame f (merged f b) 0 base pre b (λ x from below. ground (arith, next_of, at_next))
          (append-Linked f 0 base pre (c ∷ d ∷ post) 0 l).0)
        (rw ends (ground (arith, header_of, header_next, at_next)), rw ends merged_post)

merge_run :
    (h : Heap) (base : ℕ) (pre : List Cell) (c d : Cell) (post : List Cell)
    → Linked h.block 0 base (pre ++ c ∷ d ∷ post) 0
    → end_of base pre + 32 + c.size + 32 + d.size < u64
    → d.free ≡ true
    → merge_block (end_of base pre) h
      ≡ returns tt (record h { block = merged h.block (end_of base pre) })
unfolding merge_block put
merge_run h base pre c d post l fits is_free =
    let e = header_of h.block base pre c d post l in
    let k = header_next h.block base pre c d post l in
    let no = next_of h.block base pre c d post l in
    let at_n : (h.block (end_of base pre)).next ≡ end_of base pre + 32 + c.size =
      ap (λ (x : Block). x.next) e in
    let free_n : (h.block (end_of base pre + 32 + c.size)).free ≡ true = ground (arith, k) in
    let prev_n : (end_of base pre == (h.block (end_of base pre + 32 + c.size)).prev) ≡ true =
      ground (arith, k) in
    let size_b = ap (λ (x : Block). x.size) e in
    let size_n = ap (λ (x : Block). x.size) k in
    elim (Bool-cases ((h.block (end_of base pre + 32 + c.size)).next == 0)) [
      | inl z ↦
          rw (at_n, free_n, prev_n, z)
            (ap (λ f. returns tt (record h { block = f }))
              (fun_ext λ x. ground (arith, size_b, size_n)))
      | inr z ↦
          rw (at_n, free_n, prev_n, z)
            (ap (λ f. returns tt (record h { block = f }))
              (fun_ext λ x. ground (arith, size_b, size_n, no)))
    ]

-- A merge writes to the header and to the one behind the two.
merged_frame :
    (f : ℕ → Block) (base : ℕ) (pre : List Cell) (c d : Cell) (post : List Cell)
    → Linked f 0 base (pre ++ c ∷ d ∷ post) 0
    → (x : ℕ) → is_start base (pre ++ c ∷ d ∷ post) x ≡ false
    → merged f (end_of base pre) x ≡ f x
merged_frame f base pre c d [] l x old = ground (
  arith,
  is_start-append base pre (c ∷ d ∷ []) x,
  header_of f base pre c d [] l,
  header_next f base pre c d [] l,
)
merged_frame f base pre c d (e ∷ es) l x old = ground (
  arith,
  is_start-append base pre (c ∷ d ∷ e ∷ es) x,
  header_of f base pre c d (e ∷ es) l,
  header_next f base pre c d (e ∷ es) l,
)

-- `merge_block` at a block that a free block follows, which ends below 2 ^ 64, returns and makes one
-- cell of the two. Nothing is written but at the addresses of the cells.
pub merge_block-refines :
    (h : Heap) (base : ℕ) (pre : List Cell) (c d : Cell) (post : List Cell)
    → Linked h.block 0 base (pre ++ c ∷ d ∷ post) 0
    → end_of base pre + 32 + c.size + 32 + d.size < u64
    → d.free ≡ true
    → (f : ℕ → Block) × (merge_block (end_of base pre) h ≡ returns tt (record h { block = f }))
      × Linked f 0 base (pre ++ union c d ∷ post) 0
      × ((x : ℕ) → is_start base (pre ++ c ∷ d ∷ post) x ≡ false → f x ≡ h.block x)
merge_block-refines h base pre c d post l fits is_free = (
  merged h.block (end_of base pre),
  merge_run h base pre c d post l fits is_free,
  merged-Linked h.block base pre c d post l,
  merged_frame h.block base pre c d post l,
)
