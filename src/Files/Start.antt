-- ===== src/Files/Start.antt =====
-- How the file system is found in memory.
use sysres_os.Base.{ℕ, ◌+◌, ◌-◌, ◌*◌, ◌/◌, ◌%◌, ltb, ◌==◌, if◌then◌else◌, u32, sub32, sub64}
use sysres_os.Bytes.{Memory}
use sysres_os.Step.{◌>>=◌, ◌>>◌, state, revise}
use sysres_os.Files.State.{Cmd, max_file_descriptors}
use sysres_os.Files.Words.{switch_endianness, load}
use sysres_os.Files.Descriptors.{init_file_descriptor_table}

-- The four bytes at the end of the first block, in an allocated area of five bytes that held `area`.
-- The zero is written to byte 5, behind the area.
unfoldable pub get_filesystem_type : (superblock block_size : ℕ) → (area m : Memory) → Memory
get_filesystem_type superblock block_size area m =
    λ i. if ltb i 4 then m (superblock + block_size - 4 + i) else if i == 5 then 0 else area i

-- `start` and `end_address` are the linker's, and `area` is what the area of the type held.
unfoldable pub init_filesystem : (start end_address : ℕ) → Memory → Cmd (Unit {0})
init_filesystem start end_address area = do
  s ← state
  let block_size = switch_endianness (load s.memory (sub64 end_address 4))
  let size = sub64 end_address start % u32
  revise (λ t. record t {
    filesystem = record {
      start = start;
      end_address = end_address;
      superblock = start;
      inode_count = switch_endianness (load t.memory start);
      last_free_inode = switch_endianness (load t.memory (start + 4));
      free_block_list = switch_endianness (load t.memory (start + 8));
      free_block_count = switch_endianness (load t.memory (start + 12));
      root_inode = switch_endianness (load t.memory (start + 16));
      block_size = block_size;
      block_count = sub32 size 4 / block_size;
      block_word_size = block_size / 4;
      blocktable_size = sub32 block_size 12 / 4;
      blocktable_offset = 12;
      max_file_size = block_size * (sub32 block_size 12 / 4) % u32;
      type = get_filesystem_type start block_size area t.memory;
      seek_cursor = start;
    };
  })
  init_file_descriptor_table max_file_descriptors 0
