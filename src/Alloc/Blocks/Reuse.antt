-- ===== src/Alloc/Blocks/Reuse.antt =====
-- `find_free_block`, and `kmalloc` where a block fits, on the list of cells.
use mathlib.Core.Path.{subst}
use sysres_os.Base.{
  ℕ, zero, suc, ◌+◌, ◌≤◌, ◌<◌, ◌≡◌, refl, Bool, true, false, ◌&&◌, ◌||◌, ltb, leb, ◌==◌, List, [],
  ◌∷◌, ◌++◌, ◌⊎◌, ◌∙◌, arith, Bool-cases, inl, inr, ap, add64, u64, length,
}
use sysres_os.Alloc.State.{Block, Heap, Result, returns, put, ablock_size}
use sysres_os.Alloc.{find_free_block, reuse_block, take_block, kmalloc, rounded}
use sysres_os.Alloc.Blocks.{
  Cell, end_of, last_of, first_of, Linked, end_of_mono, is_start, is_start-append,
}
use sysres_os.Alloc.Blocks.Absorb.{end_of-append}
use sysres_os.Alloc.Blocks.Free.{header_of, marked, marked-Linked, marked_frame}
use sysres_os.Alloc.Blocks.Split.{carve, split_block-refines}

abbrev pub fits : ℕ → Cell → Bool
fits size c = c.free && leb size c.size

abbrev pub any_fits : ℕ → List Cell → Bool
any_fits size [] = false
any_fits size (c ∷ cs) = fits size c || any_fits size cs

-- `c` is the first of the cells that fits.
pub record FirstFit (size : ℕ) (cells pre : List Cell) (c : Cell) (post : List Cell) : Type 0 where
  pub parts : cells ≡ pre ++ c ∷ post
  pub fit : fits size c ≡ true
  pub none_before : any_fits size pre ≡ false

module _ (h : Heap) (size : ℕ) where
  abbrev Searched : Result (ℕ × ℕ) → (q a : ℕ) → List Cell → Type 0
  Searched r q a cs =
      ((any_fits size cs ≡ false) × (r ≡ returns (last_of q a cs, 0) h))
      ⊎ ((pre : List Cell) × (c : Cell) × (post : List Cell) × FirstFit size cs pre c post
          × (r ≡ returns (last_of q a pre, end_of a pre) h))

  Searched-later :
      (r : Result (ℕ × ℕ)) (q a : ℕ) (c : Cell) (cs : List Cell)
      → fits size c ≡ false
      → Searched r a (a + 32 + c.size) cs
      → Searched r q a (c ∷ cs)
  unfolding last_of end_of
  Searched-later r q a c cs out (inl (none, run)) = inl (ground (arith, none), run)
  Searched-later r q a c cs out (inr (pre, d, post, first, run)) = inr (
    c ∷ pre,
    d,
    post,
    record {
      parts = ap (λ (l : List Cell). c ∷ l) first.parts;
      fit = first.fit;
      none_before = ground (arith, first.none_before);
    },
    run,
  )

  search :
      (fuel p q a : ℕ) (cs : List Cell)
      → length cs < fuel
      → Linked h.block p a cs 0
      → 0 < a
      → Searched (find_free_block fuel size q (first_of 0 a cs) h) q a cs
  unfolding find_free_block Linked last_of end_of
  search zero p q a cs enough l pos = absurd (omega arith)
  search (suc fuel) p q a [] enough l pos = inl (refl, refl)
  search (suc fuel) p q a (c ∷ cs) enough (e, l) pos =
      let some_block : (a == 0) ≡ false = ground arith in
      let next = ap (λ (x : Block). x.next) e in
      let is_fit : ((h.block a).free && leb size (h.block a).size) ≡ fits size c = rw e refl in
      elim (Bool-cases (fits size c)) [
        | inl y ↦ inr (
          [],
          c,
          cs,
          record { parts = refl; fit = y; none_before = refl },
          rw (some_block, is_fit, y) refl,
        )
        | inr n ↦
            subst (λ (r : Result (ℕ × ℕ)). Searched r q a (c ∷ cs))
              (rw (some_block, is_fit, n, next) refl)
              (Searched-later _ q a c cs n
                (search fuel a a (a + 32 + c.size) cs (ground (arith, enough)) l (omega arith)))
      ]

abbrev pub used_cell : Cell → Cell
used_cell c = record c { free = false }

used_cell_start :
    (base : ℕ) (pre : List Cell) (c : Cell) (post : List Cell) (x : ℕ)
    → is_start base (pre ++ c ∷ post) x ≡ false
    → is_start base (pre ++ used_cell c ∷ post) x ≡ false
used_cell_start base pre c post x old =
    ground (
      arith,
      is_start-append base pre (c ∷ post) x,
      is_start-append base pre (used_cell c ∷ post) x,
    )

reuse_block-refines :
    (h : Heap) (base : ℕ) (pre : List Cell) (c : Cell) (post : List Cell) (size : ℕ)
    → Linked h.block 0 base (pre ++ c ∷ post) 0
    → end_of base pre + 32 + c.size < u64
    → size ≤ c.size
    → (f : ℕ → Block) × (reuse_block (end_of base pre) size h
        ≡ returns (end_of base pre + 32) (record h { block = f }))
      × Linked f 0 base (pre ++ carve size (used_cell c) post) 0
      × ((x : ℕ)
          → is_start base (pre ++ c ∷ post) x ≡ false
          → is_start base (pre ++ carve size (used_cell c) post) x ≡ false
          → f x ≡ h.block x)
unfolding reuse_block put
reuse_block-refines h base pre c post size l fit enough =
    let e = ap (λ (x : Block). x.size) (header_of h.block base pre c post l) in
    let h1 = record h { block = marked h.block base pre c post l false } in
    let l1 = marked-Linked h.block base pre c post l false in
    let e1 = ap (λ (x : Block). x.size) (header_of h1.block base pre (used_cell c) post l1) in
    let (f, run, o, frame) =
      split_block-refines h1 base pre (used_cell c) post size l1 fit enough in
    let at : add64 (end_of base pre) ablock_size ≡ end_of base pre + 32 = omega arith in
    let used_start = λ (x : ℕ) (old : is_start base (pre ++ c ∷ post) x ≡ false).
      used_cell_start base pre c post x old in
    let mark = marked_frame h.block base pre c post l false in
    elim (Bool-cases (ltb size c.size)) [
      | inl large ↦ (
        f,
        rw (e1, large, run, at) refl,
        o,
        λ x old new. frame x (used_start x old) new ∙ mark x old,
      )
      | inr exact ↦
          let tight : ltb (size + 32) c.size ≡ false = ground arith in
          (h1.block, rw (e1, exact, at) refl, rw tight l1, λ x old new. mark x old)
    ]

-- The run takes the first cell that fits.
abbrev pub Takes : Result ℕ → (size : ℕ) → Heap → List Cell → Type 0
Takes r size h cells =
    (pre : List Cell) × (c : Cell) × (post : List Cell) × FirstFit size cells pre c post
    × ((f : ℕ → Block) × (r ≡ returns (end_of h.global_base pre + 32) (record h { block = f }))
        × Linked f 0 h.global_base (pre ++ carve size (used_cell c) post) 0
        × ((x : ℕ)
            → is_start h.global_base cells x ≡ false
            → is_start h.global_base (pre ++ carve size (used_cell c) post) x ≡ false
            → f x ≡ h.block x))

take_block-refines :
    (fuel size : ℕ) (h : Heap) (cells : List Cell)
    → Linked h.block 0 h.global_base cells 0
    → 0 < h.global_base
    → end_of h.global_base cells < u64
    → length cells < fuel
    → any_fits size cells ≡ true
    → Takes (take_block fuel size h) size h cells
unfolding take_block end_of
take_block-refines fuel size h [] l pos fit enough some_fit = absurd (ground arith)
take_block-refines fuel size h (d ∷ ds) l pos fit enough some_fit =
    let base = h.global_base in
    elim (search h size fuel 0 base base (d ∷ ds) enough l pos) [
      | inl (none, run) ↦ absurd (ground (arith, none, some_fit))
      | inr (pre, c, post, first, run) ↦
          let l' = subst (λ (x : List Cell). Linked h.block 0 base x 0) first.parts l in
          let whole = ap (end_of base) first.parts ∙ end_of-append base pre (c ∷ post) in
          let far = end_of_mono (end_of base pre + 32 + c.size) post in
          let near = end_of_mono base pre in
          let (f, run', o, frame) =
            reuse_block-refines h base pre c post size l' (omega (arith, whole, far))
              (ground (arith, first.fit)) in
          let some_base : (base == 0) ≡ false = ground arith in
          let found : (end_of base pre == 0) ≡ false = ground (arith, near) in
          (
            pre,
            c,
            post,
            first,
            (
              f,
              rw (some_base, run, found) run',
              o,
              λ x old new.
                  frame x (subst (λ (y : List Cell). is_start base y x ≡ false) first.parts old)
                    new,
            ),
          )
    ]

-- On a heap that ends below 2 ^ 64, if the rounded size is not 0 and a block fits it, `kmalloc`, with
-- more fuel than there are blocks, takes the first that does: it returns the address behind its header,
-- the block is used, and what it does not need is a free block if there is room for a header. Nothing
-- is written but at the addresses of the cells, those before or those after.
pub kmalloc-refines :
    (fuel size : ℕ) (h : Heap) (cells : List Cell)
    → Linked h.block 0 h.global_base cells 0
    → 0 < h.global_base
    → end_of h.global_base cells < u64
    → length cells < fuel
    → 0 < rounded size
    → any_fits (rounded size) cells ≡ true
    → Takes (kmalloc fuel size h) (rounded size) h cells
unfolding kmalloc
kmalloc-refines fuel size h cells l pos fit enough some_size some_fit =
    let test : (rounded size == 0) ≡ false = ground arith in
    subst (λ (r : Result ℕ). Takes r (rounded size) h cells) (rw test refl)
      (take_block-refines fuel (rounded size) h cells l pos fit enough some_fit)
