-- ===== src/Alloc/Blocks/Free.antt =====
-- `kfree` on the list of cells.
use mathlib.Core.Path.{subst}
use sysres_os.Base.{
  ℕ, ◌+◌, ◌<◌, ◌≡◌, refl, Bool, true, false, not, ◌&&◌, ◌==◌, if◌then◌else◌, List, [], ◌∷◌, ◌++◌,
  sym, ◌∙◌, arith, Bool-cases, inl, inr, ap, sub64, u64,
}
use sysres_os.Proc.Run.{update}
use sysres_os.Alloc.State.{
  Block, Heap, Result, returns, put, ablock_size, and_then, Cmd, skip, assert,
}
use sysres_os.Alloc.{merge_block, release, kfree}
use sysres_os.Alloc.Blocks.{
  Cell, end_of, last_of, first_of, Linked, end_of_mono, Linked-frame, Linked-append, append-Linked,
  is_start, is_start-append,
}
use sysres_os.Alloc.Blocks.Merge.{union, header_next, merge_block-refines}
use sysres_os.Alloc.Blocks.Merge
use sysres_os.Alloc.Blocks.Absorb.{
  freed_cell, absorb, settle, absorb_free, absorb_used, settle_last, append_last, end_of_last,
  last_cell, absorb_head, absorb_end, end_of-append, start_absorb_later,
}

-- The rest of `release`, after the mark, and after the merge with the next block.
abbrev with_next : ℕ → Cmd (Unit {0})
with_next b t =
    (if not ((t.block b).next == 0) && (t.block (t.block b).next).free then merge_block b else skip)
      t

abbrev with_prev : ℕ → Cmd (Unit {0})
with_prev b u =
    (if not ((u.block b).prev == 0) && (u.block (u.block b).prev).free
        then merge_block (u.block b).prev
        else skip)
      u

module _ (f : ℕ → Block) (base : ℕ) (pre : List Cell) (c : Cell) (post : List Cell)
    (l : Linked f 0 base (pre ++ c ∷ post) 0) where
  abbrev b : ℕ
  b = end_of base pre

  pub header_of : f b ≡ record {
    size = c.size;
    next = first_of 0 (b + 32 + c.size) post;
    prev = last_of 0 base pre;
    free = c.free;
  }
  unfolding Linked
  header_of = (append-Linked f 0 base pre (c ∷ post) 0 l).1.0

  Linked-post : Linked f b (b + 32 + c.size) post 0
  unfolding Linked
  Linked-post = (append-Linked f 0 base pre (c ∷ post) 0 l).1.1

  abbrev pub marked : Bool → ℕ → Block
  marked flag = update f b (record (f b) { free = flag })

  pub marked-Linked :
      (flag : Bool) → Linked (marked flag) 0 base (pre ++ record c { free = flag } ∷ post) 0
  unfolding Linked
  marked-Linked flag =
      Linked-append (marked flag) 0 base pre _ 0
        (Linked-frame f (marked flag) 0 base pre b (λ x from below. ground arith)
          (append-Linked f 0 base pre (c ∷ post) 0 l).0)
        (
          ground (arith, header_of),
          Linked-frame f (marked flag) b (b + 32 + c.size) post 0 (λ x from below. ground arith)
              Linked-post,
        )

pub freed_start :
    (base : ℕ) (pre : List Cell) (c : Cell) (post : List Cell) (x : ℕ)
    → is_start base (pre ++ c ∷ post) x ≡ false
    → is_start base (pre ++ freed_cell c ∷ post) x ≡ false
freed_start base pre c post x old =
    ground (
      arith,
      is_start-append base pre (c ∷ post) x,
      is_start-append base pre (freed_cell c ∷ post) x,
    )

pub marked_frame :
    (f : ℕ → Block) (base : ℕ) (pre : List Cell) (c : Cell) (post : List Cell)
    → (l : Linked f 0 base (pre ++ c ∷ post) 0) (flag : Bool) (x : ℕ)
    → is_start base (pre ++ c ∷ post) x ≡ false
    → marked f base pre c post l flag x ≡ f x
marked_frame f base pre c post l flag x old = ground (arith, is_start-append base pre (c ∷ post) x)

-- The run returns with the new cells, and with nothing written but at the addresses of the old ones.
abbrev pub Ends : Result (Unit {0}) → Heap → ℕ → (old cells : List Cell) → Type 0
Ends r h base old cells =
    (f : ℕ → Block) × (r ≡ returns tt (record h { block = f }))
    × Linked f 0 base cells 0
    × ((x : ℕ) → is_start base old x ≡ false → f x ≡ h.block x)

next_absorbed :
    (h : Heap) (base : ℕ) (pre : List Cell) (c : Cell) (post : List Cell)
    → Linked h.block 0 base (pre ++ c ∷ post) 0
    → 0 < base
    → end_of (end_of base pre + 32 + c.size) post < u64
    → Ends (with_next (end_of base pre) h) h base (pre ++ c ∷ post) (pre ++ absorb c post)
unfolding Linked end_of
next_absorbed h base pre c [] l pos fits =
    let e = ap (λ (x : Block). x.next) (header_of h.block base pre c [] l) in
    (h.block, rw e refl, l, λ x old. refl)
next_absorbed h base pre c (d ∷ ds) l pos fits =
    let e = ap (λ (x : Block). x.next) (header_of h.block base pre c (d ∷ ds) l) in
    let k = ap (λ (x : Block). x.free) (Linked-post h.block base pre c (d ∷ ds) l).0 in
    let far = end_of_mono (end_of base pre + 32 + c.size + 32 + d.size) ds in
    let near = end_of_mono base pre in
    let some_next : (end_of base pre + 32 + c.size == 0) ≡ false = ground (arith, near) in
    elim (Bool-cases d.free) [
      | inl y ↦
          let (f, run, o, same) = merge_block-refines h base pre c d ds l (omega (arith, far)) y in
          let go : with_next (end_of base pre) h ≡ merge_block (end_of base pre) h =
            rw (e, some_next, k, y) refl in
          (
            f,
            go ∙ run,
            subst (λ cells. Linked f 0 base (pre ++ cells) 0) (sym (absorb_free c d ds y)) o,
            same,
          )
      | inr n ↦ (
        h.block,
        rw (e, some_next, k, n) refl,
        subst (λ cells. Linked h.block 0 base (pre ++ cells) 0) (sym (absorb_used c d ds n)) l,
        λ x old. refl,
      )
    ]

-- The step back to the cell before.
prev_absorbed :
    (h : Heap) (base : ℕ) (ds : List Cell) (d c : Cell) (post : List Cell)
    → Linked h.block 0 base (ds ++ d ∷ c ∷ post) 0
    → 0 < base
    → end_of base ds + 32 + d.size + 32 + c.size < u64
    → c.free ≡ true
    → Ends
        (with_prev (end_of base ds + 32 + d.size) h)
        h
        base
        (ds ++ d ∷ c ∷ post)
        (ds ++ (if d.free then absorb d (c ∷ post) else d ∷ c ∷ post))
prev_absorbed h base ds d c post l pos fits is_free =
    let e = ap (λ (x : Block). x.prev) (header_next h.block base ds d c post l) in
    let k = ap (λ (x : Block). x.free) (Merge.header_of h.block base ds d c post l) in
    let near = end_of_mono base ds in
    let some_prev : (end_of base ds == 0) ≡ false = ground (arith, near) in
    elim (Bool-cases d.free) [
      | inl y ↦
          let (f, run, o, same) = merge_block-refines h base ds d c post l fits is_free in
          let go : with_prev (end_of base ds + 32 + d.size) h ≡ merge_block (end_of base ds) h =
            rw (e, some_prev, k, y) refl in
          let cells : (if d.free then absorb d (c ∷ post) else d ∷ c ∷ post) ≡ union d c ∷ post =
            rw (y, is_free) refl in
          (f, go ∙ run, subst (λ (x : List Cell). Linked f 0 base (ds ++ x) 0) (sym cells) o, same)
      | inr n ↦
          let cells : (if d.free then absorb d (c ∷ post) else d ∷ c ∷ post) ≡ d ∷ c ∷ post =
            rw n refl in
          (
            h.block,
            rw (e, some_prev, k, n) refl,
            subst (λ (x : List Cell). Linked h.block 0 base (ds ++ x) 0) (sym cells) l,
            λ x old. refl,
          )
    ]

-- The same for any cells before.
module _ (h : Heap) (base : ℕ) (c : Cell) (post : List Cell) (pos : 0 < base)
    (is_free : c.free ≡ true) where
  abbrev Settled : List Cell → Type 0
  Settled pre =
      Linked h.block 0 base (pre ++ c ∷ post) 0
      → end_of base pre + 32 + c.size < u64
      → Ends (with_prev (end_of base pre) h) h base (pre ++ c ∷ post) (settle pre (c ∷ post))

  Settled-first : Settled []
  unfolding Linked end_of
  Settled-first l fits =
      let e = ap (λ (x : Block). x.prev) l.0 in (h.block, rw e refl, l, λ x old. refl)

  Settled-later : (ds : List Cell) (d : Cell) → Settled (ds ++ d ∷ [])
  Settled-later ds d l fits =
      let at = end_of_last base ds d in
      let (f, run, o, same) =
        prev_absorbed h base ds d c post
          (subst (λ (x : List Cell). Linked h.block 0 base x 0) (append_last ds d (c ∷ post)) l) pos
          (ground (arith, at)) is_free in
      (
        f,
        rw at run,
        subst (λ (x : List Cell). Linked f 0 base x 0) (sym (settle_last ds d (c ∷ post))) o,
        λ x old. same x (
            subst (λ (cells : List Cell). is_start base cells x ≡ false)
              (append_last ds d (c ∷ post)) old),
      )

  prev-Settled : (pre : List Cell) → Settled pre
  prev-Settled pre = elim (last_cell pre) [
    | inl none ↦ subst Settled (sym none) Settled-first
    | inr (ds, d, e) ↦ subst Settled (sym e) (Settled-later ds d)
  ]

assert_passes :
    (x : Bool) (h : Heap) (k : Unit {0} → Cmd (Unit {0}))
    → x ≡ false
    → and_then (assert (not x) h) k ≡ k tt h
assert_passes x h k e = rw e refl

-- `release` in steps.
run_release :
    (h : Heap) (b : ℕ)
    → (h.block b).free ≡ false
    → release b h
      ≡ and_then
          (with_next b (record h { block = update h.block b (record (h.block b) { free = true }) }))
          (λ _. with_prev b)
unfolding release put
run_release h b used = assert_passes (h.block b).free h _ used

pub release-refines :
    (h : Heap) (base : ℕ) (pre : List Cell) (c : Cell) (post : List Cell)
    → Linked h.block 0 base (pre ++ c ∷ post) 0
    → 0 < base
    → end_of base (pre ++ c ∷ post) < u64
    → c.free ≡ false
    → Ends
        (release (end_of base pre) h)
        h
        base
        (pre ++ c ∷ post)
        (settle pre (absorb (freed_cell c) post))
unfolding end_of
release-refines h base pre c post l pos fits used =
    let b = end_of base pre in
    let free_b : (h.block b).free ≡ false =
      ap (λ (x : Block). x.free) (header_of h.block base pre c post l) ∙ used in
    let ends = end_of-append base pre (c ∷ post) in
    let h1 = record h { block = marked h.block base pre c post l true } in
    let (f, run, o, frame) =
      next_absorbed h1 base pre (freed_cell c) post (marked-Linked h.block base pre c post l true)
        pos (omega (arith, ends)) in
    let (k, rest, same, mark) = absorb_head (freed_cell c) post in
    let k_end = absorb_end b (freed_cell c) post in
    let rest_end = end_of_mono (b + 32 + k.size) rest in
    let o' = subst (λ (x : List Cell). Linked f 0 base (pre ++ x) 0) same o in
    let (g, run', o'', frame') =
      prev-Settled (record h { block = f }) base k rest pos mark pre o'
        (omega (arith, ends, k_end, ap (end_of b) same, rest_end)) in
    (
      g,
      run_release h b free_b ∙ rw run run',
      subst (λ (x : List Cell). Linked g 0 base (settle pre x) 0) (sym same) o'',
      λ x old.
          let next : is_start base (pre ++ k ∷ rest) x ≡ false =
            subst (λ (cells : List Cell). is_start base (pre ++ cells) x ≡ false) same
              (start_absorb_later base pre (freed_cell c) post x
                (freed_start base pre c post x old)) in
          frame' x next
          ∙ frame x (freed_start base pre c post x old)
          ∙ marked_frame h.block base pre c post l true x old,
    )

-- `kfree` of the address behind the header of a used block, on a heap that ends below 2 ^ 64, returns.
-- The block is free and has taken in a free block that follows, and a free block before has taken it
-- in. Nothing is written but at the addresses of the cells before the call. The heap does not begin at
-- address 0.
pub kfree-refines :
    (h : Heap) (base : ℕ) (pre : List Cell) (c : Cell) (post : List Cell)
    → Linked h.block 0 base (pre ++ c ∷ post) 0
    → 0 < base
    → end_of base (pre ++ c ∷ post) < u64
    → c.free ≡ false
    → Ends
        (kfree (end_of base pre + 32) h)
        h
        base
        (pre ++ c ∷ post)
        (settle pre (absorb (freed_cell c) post))
unfolding kfree end_of
kfree-refines h base pre c post l pos fits used =
    let ends = end_of-append base pre (c ∷ post) in
    let far = end_of_mono (end_of base pre + 32 + c.size) post in
    let some_ptr : (end_of base pre + 32 == 0) ≡ false = ground arith in
    let block : sub64 (end_of base pre + 32) ablock_size ≡ end_of base pre =
      omega (arith, ends, far) in
    rw (some_ptr, block) (release-refines h base pre c post l pos fits used)
