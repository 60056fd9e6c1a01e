-- ===== src/Alloc/Tests.antt =====
-- A heap of three blocks, and the theorems at it.
use mathlib.Core.List.{◌++◌}
use sysres_os.Base.{
  ◌^◌, ◌*◌, ◌≤◌, ◌<◌, ◌+◌, ℕ, ◌≡◌, refl, Bool, true, false, [], ◌∷◌, ◌==◌, if◌then◌else◌, arith,
}
use sysres_os.Alloc.Power.{next_power_of_2_lem}
use sysres_os.Alloc.State.{Block, Heap, returns}
use sysres_os.Alloc.{split_block, merge_block, kfree, kmalloc, rounded, next_power_of_2}
use sysres_os.Alloc.Blocks.Absorb.{settle, absorb, freed_cell}
use sysres_os.Alloc.Blocks.Reuse.{Takes, kmalloc-refines}
use sysres_os.Alloc.Blocks.Free.{Ends, kfree-refines}
use sysres_os.Alloc.Blocks.{is_start, Cell, end_of, Linked}
use sysres_os.Alloc.Blocks.Split.{carve, split_block-refines}
use sysres_os.Alloc.Blocks.Merge.{union, merge_block-refines}

abbrev cell : ℕ → Bool → Cell
cell size is_free = record { size = size; free = is_free }

-- A used block at 4096, a free one at 4192, and a used one at 4324.
abbrev blocks : ℕ → Block
blocks x =
    if x == 4096
    then record { size = 64; next = 4192; prev = 0; free = false }
    else if x == 4192
    then record { size = 100; next = 4324; prev = 4096; free = true }
    else record { size = 32; next = 0; prev = 4192; free = false }

abbrev three : Heap
three = record {
  heap_begin = 4096;
  end_offset = 292;
  global_base = 4096;
  block = blocks;
  freed = [];
}

three_Linked : Linked blocks 0 4096 (cell 64 false ∷ cell 100 true ∷ cell 32 false ∷ []) 0
unfolding Linked
three_Linked = (refl, (refl, (refl, tt)))

split_block-refines_example :
    (f : ℕ → Block) × (split_block (end_of 4096 (cell 64 false ∷ [])) 32 three
      ≡ returns tt (record three { block = f }))
    × Linked f 0 4096 ((cell 64 false ∷ []) ++ carve 32 (cell 100 true) (cell 32 false ∷ [])) 0
    × ((x : ℕ)
        → is_start 4096 (cell 64 false ∷ cell 100 true ∷ cell 32 false ∷ []) x ≡ false
        → is_start 4096 ((cell 64 false ∷ []) ++ carve 32 (cell 100 true) (cell 32 false ∷ [])) x
          ≡ false
        → f x ≡ three.block x)
unfolding end_of
split_block-refines_example =
    split_block-refines three 4096 (cell 64 false ∷ []) (cell 100 true) (cell 32 false ∷ []) 32
      three_Linked (omega arith) (omega arith)

merge_block-refines_example :
    (f : ℕ → Block) × (merge_block (end_of 4096 []) three ≡ returns tt (record three { block = f }))
    × Linked f 0 4096 ([] ++ union (cell 64 false) (cell 100 true) ∷ cell 32 false ∷ []) 0
    × ((x : ℕ)
        → is_start 4096 (cell 64 false ∷ cell 100 true ∷ cell 32 false ∷ []) x ≡ false
        → f x ≡ three.block x)
unfolding end_of
merge_block-refines_example =
    merge_block-refines three 4096 [] (cell 64 false) (cell 100 true) (cell 32 false ∷ [])
      three_Linked (omega arith) refl

-- The block at 4096 is freed, and takes in the free one behind it.
kfree-refines_example :
    Ends
      (kfree (end_of 4096 [] + 32) three)
      three
      4096
      (cell 64 false ∷ cell 100 true ∷ cell 32 false ∷ [])
      (settle [] (absorb (freed_cell (cell 64 false)) (cell 100 true ∷ cell 32 false ∷ [])))
unfolding end_of
kfree-refines_example =
    kfree-refines three 4096 [] (cell 64 false) (cell 100 true ∷ cell 32 false ∷ []) three_Linked
      (omega arith) (omega arith) refl

-- 32 bytes come from the block of 100.
kmalloc-refines_example :
    Takes
      (kmalloc 5 32 three)
      (rounded 32)
      three
      (cell 64 false ∷ cell 100 true ∷ cell 32 false ∷ [])
unfolding end_of next_power_of_2
kmalloc-refines_example =
    kmalloc-refines 5 32 three (cell 64 false ∷ cell 100 true ∷ cell 32 false ∷ []) three_Linked
      (omega arith) (omega arith) (omega arith) (omega arith) refl

next_power_of_2_lem_example :
    (w : ℕ) × (next_power_of_2 5000 ≡ 2 ^ w) × (5000 ≤ 2 ^ w) × (2 ^ w < 2 * 5000)
next_power_of_2_lem_example = next_power_of_2_lem 5000 (omega arith) (omega arith)
