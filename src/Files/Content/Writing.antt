-- ===== src/Files/Content/Writing.antt =====
-- Writing inside one block.
use mathlib.Core.Path.{fun_ext}
use sysres_os.Base.{
  ℕ, suc, ◌+◌, ◌-◌, ◌%◌, ◌^◌, ◌<◌, ◌≤◌, ◌≡◌, ◌∙◌, refl, true, false, ltb, leb, if◌then◌else◌, add32,
  sub32, add64, of_int, arith,
}
use sysres_os.Bytes.{Memory}
use sysres_os.Proc.Run.{update}
use sysres_os.Step.{returns}
use sysres_os.Files.State.{Files, FileDescriptor, max_file_descriptors}
use sysres_os.Files.Words.{min}
use sysres_os.Files.Blocks.{block_address}
use sysres_os.Files.Blocks.Transfer.{covered, sought, copy_in_lem, read_block_lem, write_block_lem}
use sysres_os.Files.Descriptors.{descriptor, change_descriptor, extend_file}
use sysres_os.Files.Content.{block_number, left_in_block, write_blocks, write}
use sysres_os.Files.Content.Reading.{min_small}

-- The state after `n` bytes at `buffer` are written to the block `block`.
abbrev pub put : (s : Files) (fd block buffer n : ℕ) → Files
put s fd block buffer n =
    let f = s.file_descriptor_table fd in
    record (sought s block) {
      memory =
          covered (block_address s block + f.pos % s.filesystem.block_size) n
            (λ i. s.memory (buffer + i)) s.memory;
      file_descriptor_table = update s.file_descriptor_table fd (record f { pos = f.pos + n });
    }

module _ (s : Files) (fd : ℕ) (open_fd : fd < max_file_descriptors) where
  abbrev f : FileDescriptor
  f = s.file_descriptor_table fd

  abbrev block : ℕ
  block = block_number s f.inode.blocks f.pos

  in_table : ltb fd max_file_descriptors ≡ true
  in_table = ground (arith, open_fd)

  write_done :
      (fuel buffer stop : ℕ)
      → stop ≤ f.pos
      → write_blocks (suc fuel) fd buffer stop s ≡ returns tt s
  unfolding write_blocks descriptor
  write_done fuel buffer stop h =
      let over : ltb f.pos stop ≡ false = ground (arith, h) in rw (in_table, over) refl

  module _ (n : ℕ) (some_bytes : 0 < n)
      (one_block : f.pos % s.filesystem.block_size + n ≤ s.filesystem.block_size)
      (sized : s.filesystem.block_size < 2 ^ 31) (low : f.pos + n < 2 ^ 31)
      (present : block < s.filesystem.block_count) where
    -- The copy of the block.
    abbrev copy : Memory
    copy i = if ltb i s.filesystem.block_size then s.memory (block_address s block + i) else 0

    written_back :
        (buffer : ℕ)
        → covered
            (block_address s block)
            s.filesystem.block_size
            (covered (f.pos % s.filesystem.block_size) n (λ i. s.memory (buffer + i)) copy)
            s.memory
          ≡ (put s fd block buffer n).memory
    written_back buffer = fun_ext λ x. ground (arith, one_block)

    write_round :
        (fuel buffer : ℕ)
        → write_blocks (suc fuel) fd buffer (f.pos + n) s
          ≡ write_blocks fuel fd (add64 buffer n) (f.pos + n) (put s fd block buffer n)
    unfolding write_blocks descriptor change_descriptor
    write_round fuel buffer =
        let under : ltb f.pos (f.pos + n) ≡ true = ground (arith, some_bytes) in
        let asked : sub32 (f.pos + n) f.pos ≡ n = omega (arith, low) in
        let left : left_in_block s f.pos
            ≡ s.filesystem.block_size - f.pos % s.filesystem.block_size =
          omega (arith, one_block, sized) in
        let count : min n (left_in_block s f.pos) ≡ n =
          min_small n (left_in_block s f.pos) (omega (arith, low)) (omega (arith, left, sized))
          ∙ ground (arith, left, one_block) in
        let small : of_int n ≡ n = ground (arith, low) in
        let position : add32 f.pos n ≡ f.pos + n = omega (arith, low) in
        rw
          (
            in_table,
            under,
            read_block_lem s block present,
            asked,
            count,
            small,
            copy_in_lem n (f.pos % s.filesystem.block_size) (λ i. s.memory (buffer + i)) copy,
            write_block_lem (sought s block) block present
                (covered (f.pos % s.filesystem.block_size) n (λ i. s.memory (buffer + i)) copy),
            position,
            written_back buffer,
          )
          refl

-- `write` of `n` bytes to a part of the file that lies in one block gives `n`. The bytes at the buffer
-- are copied to their place on the disk and nothing else in memory changes, the file is not extended,
-- and the position of the descriptor goes up by `n`. Two rounds are enough.
pub write-put :
    (s : Files) (fd : ℕ)
    → fd < max_file_descriptors
    → (buffer n : ℕ) → 0 < n
    → (s.file_descriptor_table fd).pos + n ≤ (s.file_descriptor_table fd).inode.size
    → (s.file_descriptor_table fd).inode.size < 2 ^ 31
    → (s.file_descriptor_table fd).pos % s.filesystem.block_size + n ≤ s.filesystem.block_size
    → s.filesystem.block_size < 2 ^ 31
    → block_number s (s.file_descriptor_table fd).inode.blocks (s.file_descriptor_table fd).pos
      < s.filesystem.block_count
    → (fuel : ℕ)
    → write (suc (suc fuel)) fd buffer n s
      ≡ returns n (
          put s fd
            (block_number s
              (s.file_descriptor_table fd).inode.blocks
              (s.file_descriptor_table fd).pos)
            buffer
            n)
unfolding write descriptor extend_file
write-put s fd open_fd buffer n some_bytes inside small one_block sized present fuel =
    let g = s.file_descriptor_table fd in
    let t = put s fd (block_number s g.inode.blocks g.pos) buffer n in
    let short : ltb n (2 ^ 31) ≡ true = ground (arith, inside, small) in
    let stop : add32 g.pos n ≡ g.pos + n = omega (arith, inside, small) in
    let fits : leb (g.pos + n) g.inode.size ≡ true = ground (arith, inside) in
    let room : ltb (sub32 g.inode.size g.pos) n ≡ false = ground (arith, inside, small) in
    let here : (t.file_descriptor_table fd).pos ≡ g.pos + n = ground arith in
    rw
      (
        short,
        in_table s fd open_fd,
        stop,
        fits,
        room,
        stop,
        write_round s fd open_fd n some_bytes one_block sized (omega (arith, inside, small)) present
            (suc fuel) buffer,
        write_done t fd open_fd fuel (add64 buffer n) (g.pos + n) (omega (arith, here)),
      )
      refl
