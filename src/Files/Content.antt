-- ===== src/Files/Content.antt =====
-- Reading and writing.
pub mod Reading
pub mod Ending
pub mod Writing
pub mod Again
use sysres_os.Base.{
  ℕ, zero, suc, ◌+◌, ◌*◌, ◌/◌, ◌%◌, ◌^◌, not, ltb, if◌then◌else◌, u32, add32, sub32, add64, to_int,
  of_int,
}
use sysres_os.Bytes.{Memory}
use sysres_os.Proc.Run.{update}
use sysres_os.Step.{◌>>=◌, ◌>>◌, state, require, give, nothing, revise, stuck}
use sysres_os.Files.State.{Files, Dirent, Cmd, directory_entry_size, filename_max_size}
use sysres_os.Files.Words.{switch_endianness, load, min}
use sysres_os.Files.Blocks.{read_block, write_block, copy_in}
use sysres_os.Files.Descriptors.{descriptor, change_descriptor, extend_file}

-- The number of the block that holds the byte at `pos`.
abbrev pub block_number : Files → (blocks pos : ℕ) → ℕ
block_number s blocks pos =
    switch_endianness (load s.memory (blocks + 4 * (pos / s.filesystem.block_size)))

-- What is left of the block from `pos` on, as an `int`.
abbrev pub left_in_block : Files → ℕ → ℕ
left_in_block s pos = sub32 s.filesystem.block_size (pos % s.filesystem.block_size)

-- The loop of `read`, up to `stop`.
unfoldable pub read_blocks : (fuel file_descriptor buffer stop len : ℕ) → Cmd (Unit {0})
read_blocks zero file_descriptor buffer stop len = λ _. stuck
read_blocks (suc fuel) file_descriptor buffer stop len = do
  s ← state
  fd ← descriptor file_descriptor
  if not (ltb fd.pos stop) then nothing else do
    block ← read_block (block_number s fd.inode.blocks fd.pos)
    let copy_len = min len (left_in_block s fd.pos)
    revise (λ t. record t {
      memory =
          copy_in (of_int copy_len) 0 buffer (λ i. block (fd.pos % s.filesystem.block_size + i))
            t.memory;
    })
    change_descriptor file_descriptor (λ f. record f { pos = add32 f.pos copy_len })
    read_blocks fuel file_descriptor (add64 buffer (of_int copy_len)) stop len

unfoldable pub read : (fuel file_descriptor buffer len : ℕ) → Cmd ℕ
read fuel file_descriptor buffer len = do
  require (ltb len (2 ^ 31))
  fd ← descriptor file_descriptor
  let count = min len (sub32 fd.inode.size fd.pos)
  read_blocks fuel file_descriptor buffer (add32 fd.pos count) count
  give count

-- The `size_t` of the length is cut to an `int`, and that of the result is extended.
unfoldable pub fread : (fuel file_descriptor buffer len : ℕ) → Cmd ℕ
fread fuel file_descriptor buffer len = do
  n ← read fuel file_descriptor buffer (to_int len)
  give (of_int n)

-- The loop of `write`.
unfoldable pub write_blocks : (fuel file_descriptor buffer stop : ℕ) → Cmd (Unit {0})
write_blocks zero file_descriptor buffer stop = λ _. stuck
write_blocks (suc fuel) file_descriptor buffer stop = do
  s ← state
  fd ← descriptor file_descriptor
  if not (ltb fd.pos stop) then nothing else do
    block ← read_block (block_number s fd.inode.blocks fd.pos)
    let copy_len = min (sub32 stop fd.pos) (left_in_block s fd.pos)
    t ← state
    write_block (block_number s fd.inode.blocks fd.pos) (
        copy_in (of_int copy_len) 0 (fd.pos % s.filesystem.block_size) (λ i. t.memory (buffer + i))
          block)
    change_descriptor file_descriptor (λ f. record f { pos = add32 f.pos copy_len })
    write_blocks fuel file_descriptor (add64 buffer (of_int copy_len)) stop

unfoldable pub write : (fuel file_descriptor buffer len : ℕ) → Cmd ℕ
write fuel file_descriptor buffer len = do
  require (ltb len (2 ^ 31))
  extend_file fuel file_descriptor len
  fd ← descriptor file_descriptor
  require (not (ltb (sub32 fd.inode.size fd.pos) len))
  write_blocks fuel file_descriptor buffer (add32 fd.pos len)
  give len

unfoldable pub fwrite : (fuel file_descriptor buffer len : ℕ) → Cmd ℕ
fwrite fuel file_descriptor buffer len = do
  n ← write fuel file_descriptor buffer (to_int len)
  give (of_int n)

-- The entry is read into an area at `dir`, which `kmalloc` gives.
unfoldable pub read_dirent : (fuel dir file_descriptor : ℕ) → Cmd Dirent
read_dirent fuel dir file_descriptor = do
  read fuel file_descriptor dir directory_entry_size
  s ← state
  revise (λ t. record t { memory = update t.memory (dir + filename_max_size) 0 })
  t ← state
  give (record {
    inode = switch_endianness (load s.memory (dir + filename_max_size));
    name = λ i. t.memory (dir + i);
  })
