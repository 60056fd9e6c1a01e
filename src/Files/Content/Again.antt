-- ===== src/Files/Content/Again.antt =====
-- What is written to a file is read again.
use sysres_os.Base.{
  ℕ, ◌+◌, ◌-◌, ◌*◌, ◌/◌, ◌%◌, ◌^◌, ◌<◌, ◌≤◌, ◌≡◌, ◌∙◌, ap, refl, true, leb, arith, ◌⊎◌, inl, inr,
}
use sysres_os.Step.{◌>>◌, returns}
use sysres_os.Files.State.{Files, FileDescriptor, max_file_descriptors, seek_cur}
use sysres_os.Files.Words.{load}
use sysres_os.Files.Blocks.{block_address}
use sysres_os.Files.Descriptors.{fseek}
use sysres_os.Files.Descriptors.Seek.{int_of, moved, fseek-refines}
use sysres_os.Files.Content.{block_number, read, write}
use sysres_os.Files.Content.Reading.{transferred, read-transferred}
use sysres_os.Files.Content.Writing.{put, write-put}

module _ (s : Files) (fd : ℕ) (open_fd : fd < max_file_descriptors) (buffer n : ℕ)
    (some_bytes : 0 < n)
    (inside : (s.file_descriptor_table fd).pos + n ≤ (s.file_descriptor_table fd).inode.size)
    (small : (s.file_descriptor_table fd).inode.size < 2 ^ 31)
    (one_block : (s.file_descriptor_table fd).pos % s.filesystem.block_size + n
      ≤ s.filesystem.block_size)
    (sized : s.filesystem.block_size < 2 ^ 31)
    (present : block_number s
        (s.file_descriptor_table fd).inode.blocks
        (s.file_descriptor_table fd).pos
      < s.filesystem.block_count) where
  abbrev f : FileDescriptor
  f = s.file_descriptor_table fd

  abbrev block : ℕ
  block = block_number s f.inode.blocks f.pos

  -- Where the bytes lie on the disk, and where the number of their block lies.
  abbrev place : ℕ
  place = block_address s block + f.pos % s.filesystem.block_size

  abbrev entry : ℕ
  entry = f.inode.blocks + 4 * (f.pos / s.filesystem.block_size)

  abbrev written : Files
  written = put s fd block buffer n

  abbrev back : Files
  back = moved written fd ((written.file_descriptor_table fd).pos - n)

  seek_back : fseek fd (int_of true n) seek_cur written ≡ returns tt back
  seek_back =
      let pos : (written.file_descriptor_table fd).pos ≡ f.pos + n = ground arith in
      let size : (written.file_descriptor_table fd).inode.size ≡ f.inode.size = ground arith in
      let far : leb n (written.file_descriptor_table fd).pos ≡ true = ground (arith, pos) in
      fseek-refines written fd open_fd (omega (arith, pos, size, inside))
        (omega (arith, size, small)) seek_cur true n (omega (arith, inside, small))
      ∙ rw far refl

  same_descriptor : back.file_descriptor_table fd ≡ f
  same_descriptor =
      let there : written.file_descriptor_table fd ≡ record f { pos = f.pos + n } = ground arith in
      let again : back.file_descriptor_table fd ≡ record (written.file_descriptor_table fd) {
        pos = (written.file_descriptor_table fd).pos - n;
      } =
        ground arith in
      let home : f.pos + n - n ≡ f.pos = omega arith in again ∙ rw (there, home) refl

  module _ (apart : (entry + 4 ≤ place) ⊎ (place + n ≤ entry)) where
    same_entry : load written.memory entry ≡ load s.memory entry
    same_entry = elim apart [ inl h ↦ ground (arith, h) | inr h ↦ ground (arith, h) ]

    same_block :
        block_number back
          (back.file_descriptor_table fd).inode.blocks
          (back.file_descriptor_table fd).pos
        ≡ block
    same_block = rw (same_descriptor, same_entry) refl

    -- Bytes that are written to a part of a file in one block, and read again after a seek back to
    -- where they were written, are the same, wherever they are read to. The number of the block must
    -- not be where they are written.
    pub write-fseek-read :
        (buffer' : ℕ)
        → (t : Files) × ((write 2 fd buffer n
                >> fseek fd (int_of true n) seek_cur
                >> read 2 fd buffer' n)
              s
            ≡ returns n t)
          × ((i : ℕ) → i < n → t.memory (buffer' + i) ≡ s.memory (buffer + i))
    write-fseek-read buffer' =
        let d = same_descriptor in
        let run =
          read-transferred back fd open_fd buffer' n some_bytes (rw d inside) (rw d small)
            (rw d one_block) sized (rw same_block present) 0 in
        let g = back.file_descriptor_table fd in
        let b = block_number back g.inode.blocks g.pos in
        (
          transferred back fd b buffer' n,
          rw
              (
                write-put s fd open_fd buffer n some_bytes inside small one_block sized present 0,
                seek_back,
              )
              run,
          λ i low.
              let first : (transferred back fd b buffer' n).memory (buffer' + i)
                  ≡ back.memory (block_address back b + (g.pos % s.filesystem.block_size + i)) =
                ground (arith, low, same_offset i) in
              let second : block_address back b + (g.pos % s.filesystem.block_size + i)
                  ≡ place + i =
                rw (same_block, d) (omega arith) in
              let third : written.memory (place + i) ≡ s.memory (buffer + i) =
                ground (arith, low, offset_back i) in
              first ∙ ap written.memory second ∙ third,
        )
      where
        same_offset : (i : ℕ) → buffer' + i - buffer' ≡ i
        same_offset i = omega arith

        offset_back : (i : ℕ) → place + i - place ≡ i
        offset_back i = omega arith
