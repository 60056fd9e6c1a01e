-- ===== src/Files/Content/Reading.antt =====
-- Reading inside one block.
use mathlib.Core.Path.{fun_ext}
use sysres_os.Base.{
  ℕ, suc, ◌+◌, ◌-◌, ◌%◌, ◌^◌, ◌<◌, ◌≤◌, ◌≡◌, ◌∙◌, refl, true, false, ltb, if◌then◌else◌, add32,
  sub32, add64, of_int, lt_int, arith,
}
use sysres_os.Proc.Run.{update}
use sysres_os.Step.{returns}
use sysres_os.Files.State.{Files, FileDescriptor, max_file_descriptors}
use sysres_os.Files.Words.{min}
use sysres_os.Files.Blocks.{block_address}
use sysres_os.Files.Blocks.Transfer.{covered, sought, copy_in_lem, read_block_lem}
use sysres_os.Files.Descriptors.{descriptor, change_descriptor}
use sysres_os.Files.Content.{block_number, left_in_block, read_blocks, read}

pub min_small : (a b : ℕ) → a < 2 ^ 31 → b < 2 ^ 31 → min a b ≡ (if ltb b a then b else a)
unfolding min
min_small a b h g = let same : lt_int b a ≡ ltb b a = ground (arith, h, g) in rw same refl

-- The state after `n` bytes of the block `block` are read to `buffer`.
abbrev pub transferred : (s : Files) (fd block buffer n : ℕ) → Files
transferred s fd block buffer n =
    let f = s.file_descriptor_table fd in
    record (sought s block) {
      memory =
          covered buffer n
            (λ i. s.memory (block_address s block + (f.pos % s.filesystem.block_size + i)))
            s.memory;
      file_descriptor_table = update s.file_descriptor_table fd (record f { pos = f.pos + n });
    }

module _ (s : Files) (fd : ℕ) (open_fd : fd < max_file_descriptors) where
  abbrev f : FileDescriptor
  f = s.file_descriptor_table fd

  abbrev block : ℕ
  block = block_number s f.inode.blocks f.pos

  in_table : ltb fd max_file_descriptors ≡ true
  in_table = ground (arith, open_fd)

  pub read_done :
      (fuel buffer stop len : ℕ)
      → stop ≤ f.pos
      → read_blocks (suc fuel) fd buffer stop len s ≡ returns tt s
  unfolding read_blocks descriptor
  read_done fuel buffer stop len h =
      let over : ltb f.pos stop ≡ false = ground (arith, h) in rw (in_table, over) refl

  module _ (n : ℕ) (some_bytes : 0 < n)
      (one_block : f.pos % s.filesystem.block_size + n ≤ s.filesystem.block_size)
      (sized : s.filesystem.block_size < 2 ^ 31) (low : f.pos + n < 2 ^ 31)
      (present : block < s.filesystem.block_count) where
    copied :
        (buffer : ℕ)
        → covered buffer n
            (λ i.
              if ltb (f.pos % s.filesystem.block_size + i) s.filesystem.block_size
              then s.memory (block_address s block + (f.pos % s.filesystem.block_size + i))
              else 0)
            s.memory
          ≡ (transferred s fd block buffer n).memory
    copied buffer = fun_ext λ x. ground (arith, one_block)

    read_round :
        (fuel buffer : ℕ)
        → read_blocks (suc fuel) fd buffer (f.pos + n) n s
          ≡ read_blocks fuel fd (add64 buffer n) (f.pos + n) n (transferred s fd block buffer n)
    unfolding read_blocks descriptor change_descriptor
    read_round fuel buffer =
        let under : ltb f.pos (f.pos + n) ≡ true = ground (arith, some_bytes) in
        let left : left_in_block s f.pos
            ≡ s.filesystem.block_size - f.pos % s.filesystem.block_size =
          omega (arith, one_block, sized) in
        let count : min n (left_in_block s f.pos) ≡ n =
          min_small n (left_in_block s f.pos) (omega (arith, low)) (omega (arith, left, sized))
          ∙ ground (arith, left, one_block) in
        let small : of_int n ≡ n = ground (arith, low) in
        let position : add32 f.pos n ≡ f.pos + n = omega (arith, low) in
        rw
          (
            in_table,
            under,
            read_block_lem s block present,
            count,
            small,
            position,
            copy_in_lem n buffer
                (λ i.
                  if ltb (f.pos % s.filesystem.block_size + i) s.filesystem.block_size
                  then s.memory (block_address s block + (f.pos % s.filesystem.block_size + i))
                  else 0)
                s.memory,
            copied buffer,
          )
          refl

-- `read` of `n` bytes that lie in one block of the file gives `n`. The bytes of the block are copied to
-- the buffer and nothing else in memory changes, and the position of the descriptor goes up by `n`. Two
-- rounds are enough.
pub read-transferred :
    (s : Files) (fd : ℕ)
    → fd < max_file_descriptors
    → (buffer n : ℕ) → 0 < n
    → (s.file_descriptor_table fd).pos + n ≤ (s.file_descriptor_table fd).inode.size
    → (s.file_descriptor_table fd).inode.size < 2 ^ 31
    → (s.file_descriptor_table fd).pos % s.filesystem.block_size + n ≤ s.filesystem.block_size
    → s.filesystem.block_size < 2 ^ 31
    → block_number s (s.file_descriptor_table fd).inode.blocks (s.file_descriptor_table fd).pos
      < s.filesystem.block_count
    → (fuel : ℕ)
    → read (suc (suc fuel)) fd buffer n s
      ≡ returns n (
          transferred s fd
            (block_number s
              (s.file_descriptor_table fd).inode.blocks
              (s.file_descriptor_table fd).pos)
            buffer
            n)
unfolding read descriptor
read-transferred s fd open_fd buffer n some_bytes inside small one_block sized present fuel =
    let g = s.file_descriptor_table fd in
    let t = transferred s fd (block_number s g.inode.blocks g.pos) buffer n in
    let short : ltb n (2 ^ 31) ≡ true = ground (arith, inside, small) in
    let rest : sub32 g.inode.size g.pos ≡ g.inode.size - g.pos = omega (arith, inside, small) in
    let count : min n (sub32 g.inode.size g.pos) ≡ n =
      min_small n (sub32 g.inode.size g.pos) (omega (arith, inside, small))
        (omega (arith, rest, small))
      ∙ ground (arith, rest, inside) in
    let stop : add32 g.pos n ≡ g.pos + n = omega (arith, inside, small) in
    let here : (t.file_descriptor_table fd).pos ≡ g.pos + n = ground arith in
    rw
      (
        short,
        in_table s fd open_fd,
        count,
        stop,
        read_round s fd open_fd n some_bytes one_block sized (omega (arith, inside, small)) present
            (suc fuel) buffer,
        read_done t fd open_fd fuel (add64 buffer n) (g.pos + n) n (omega (arith, here)),
      )
      refl
