-- ===== src/Files/Blocks.antt =====
-- Blocks and inodes.
pub mod Transfer
pub mod Allocation
use sysres_os.Base.{
  ℕ, zero, suc, ◌+◌, ◌*◌, ◌/◌, ◌%◌, Bool, true, false, not, ltb, leb, ◌==◌, ◌&&◌, if◌then◌else◌,
  Option, none, some, u32, add64,
}
use sysres_os.Bytes.{Memory}
use sysres_os.Proc.Run.{update}
use sysres_os.Step.{◌>>=◌, ◌>>◌, state, require, give, nothing, revise, finished}
use sysres_os.Files.State.{Files, Filesystem, Inode, Cmd}
use sysres_os.Files.Words.{switch_endianness, load, stored}

abbrev pub block_address : Files → ℕ → ℕ
block_address s n = add64 s.filesystem.start (n * s.filesystem.block_size % u32)

unfoldable pub seek_block : ℕ → Cmd (Unit {0})
seek_block n = do
  s ← state
  require (ltb n s.filesystem.block_count)
  revise (λ t. record t { filesystem = record (t.filesystem) { seek_cursor = block_address t n } })

-- The copy of the block, with a zero behind it.
unfoldable pub read_block : ℕ → Cmd Memory
read_block n = do
  seek_block n
  s ← state
  give (λ i. if ltb i s.filesystem.block_size then s.memory (s.filesystem.seek_cursor + i) else 0)

-- `for (i = ...; i < ...; i++) *(address + i) = content[i];`
unfoldable pub copy_in : (rounds i address : ℕ) → Memory → Memory → Memory
copy_in zero i address content m = m
copy_in (suc rounds) i address content m =
    copy_in rounds (i + 1) address content (update m (address + i) (content i))

unfoldable pub write_block : ℕ → Memory → Cmd (Unit {0})
write_block n content = do
  seek_block n
  revise (λ s. record s {
    memory = copy_in s.filesystem.block_size 0 s.filesystem.seek_cursor content s.memory;
  })

-- `read_big_endian_int(block_index[offset+1] != 0)`, with its parentheses.
abbrev pub in_use : Memory → ℕ → Bool
in_use block_index offset =
    not (switch_endianness (if load block_index (4 * (offset + 1)) == 0 then 0 else 1) == 0)

-- The loop of `alloc_block`.
unfoldable pub last_entry : (fuel offset block_size : ℕ) → Memory → Option ℕ
last_entry zero offset block_size block_index = none
last_entry (suc fuel) offset block_size block_index =
    let rest = last_entry fuel (offset + 1) block_size block_index in
    if ltb (offset + 1) (block_size / 4) && in_use block_index offset then rest else some offset

unfoldable pub alloc_block : (fuel : ℕ) → Cmd ℕ
alloc_block fuel = do
  s ← state
  block_index ← read_block s.filesystem.free_block_list
  if switch_endianness (load block_index 4) == 0
      then (do
        revise (λ t. record t {
          filesystem = record (t.filesystem) {
            free_block_list = switch_endianness (load block_index 0);
          };
        })
        give s.filesystem.free_block_list)
      else do
        offset ← finished (last_entry fuel 1 s.filesystem.block_size block_index)
        write_block s.filesystem.free_block_list
            (stored (4 * offset) (switch_endianness 0) block_index)
        give (switch_endianness (load block_index (4 * offset)))

unfoldable pub read_inode : ℕ → Cmd Inode
read_inode n = do
  seek_block n
  s ← state
  let cursor = s.filesystem.seek_cursor
  require (leb (switch_endianness (load s.memory (cursor + 8))) s.filesystem.max_file_size)
  give (record {
    index = n;
    kind = switch_endianness (load s.memory cursor);
    nlink = switch_endianness (load s.memory (cursor + 4));
    size = switch_endianness (load s.memory (cursor + 8));
    blocks = cursor + 12;
  })

unfoldable pub write_inode : Inode → Cmd (Unit {0})
write_inode inode = do
  seek_block inode.index
  revise (λ s. record s {
    memory = stored (s.filesystem.seek_cursor + 8) (switch_endianness inode.size) (
        stored (s.filesystem.seek_cursor + 4) (switch_endianness inode.nlink)
          (stored s.filesystem.seek_cursor (switch_endianness inode.kind) s.memory));
  })
