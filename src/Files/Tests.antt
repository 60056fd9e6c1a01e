-- ===== src/Files/Tests.antt =====
-- A small disk, and the theorems of the file system at it.
use sysres_os.Base.{◌<◌, ℕ, inl, ◌+◌, ◌-◌, ◌*◌, ◌^◌, ◌≡◌, refl, true, ◌==◌, if◌then◌else◌, arith}
use sysres_os.Bytes.{Memory}
use sysres_os.Step.{◌>>◌, returns, is_settled}
use sysres_os.Files.State.{Files, FileDescriptor, Inode, seek_cur}
use sysres_os.Files.Words.{switch_endianness, stored}
use sysres_os.Files.Blocks.{block_address, alloc_block}
use sysres_os.Files.Blocks.Transfer.{sought}
use sysres_os.Files.Blocks.Allocation.{alloc_block-pops}
use sysres_os.Files.Descriptors.{fseek}
use sysres_os.Files.Descriptors.Seek.{moved, fseek-refines}
use sysres_os.Files.Content.{read, write}
use sysres_os.Files.Content.Again.{write-fseek-read}
use sysres_os.Files.Content.Reading.{transferred, read-transferred}
use sysres_os.Files.Content.Ending.{read-settles}
use sysres_os.Files.Paths.{filename_match}
use sysres_os.Files.Paths.Match.{MatchResult, filename_match-MatchResult}

-- Blocks of 16 bytes from address 4096 on. Block 2 is the list of free blocks, with block 7 on it. The
-- table of the file's blocks lies at 4108 and names block 3.
abbrev disk : Memory
disk x = if x == 4096 + 32 + 7 then 7 else if x == 4111 then 3 else 0

abbrev file : FileDescriptor
file = record {
  inode = record { index = 0; kind = 0; nlink = 1; size = 10; blocks = 4108 };
  pos = 4;
  closed = 0;
  owner_pid = 0;
}

abbrev files : Files
files = record {
  filesystem = record {
    start = 4096;
    end_address = 4096 + 16 * 16 + 4;
    superblock = 4096;
    inode_count = 1;
    last_free_inode = 0;
    free_block_list = 2;
    free_block_count = 1;
    root_inode = 0;
    block_size = 16;
    block_count = 16;
    block_word_size = 4;
    blocktable_size = 1;
    blocktable_offset = 12;
    max_file_size = 16;
    type = λ i. 0;
    seek_cursor = 4096;
  };
  file_descriptor_table = λ i. file;
  memory = disk;
}

abbrev directory : Inode
directory = record { index = 4; kind = 1; nlink = 2; size = 12; blocks = 0 }

alloc_block-pops_example :
    alloc_block 4 files
    ≡ returns
        (switch_endianness 0x07000000)
        (record (sought files 2) { memory = stored (block_address files 2 + 4 * 1) 0 disk })
alloc_block-pops_example =
    alloc_block-pops files (omega arith) (λ x. ground arith) 1 (omega arith) (omega arith)
      (λ i low pos. let one : i ≡ 1 = omega arith in rw one (λ e. absurd (omega (arith, e))))
      (λ _. refl)

fseek-refines_example : fseek 3 (2 ^ 32 - 2) seek_cur files ≡ returns tt (moved files 3 2)
fseek-refines_example =
    fseek-refines files 3 (omega arith) (omega arith) (omega arith) seek_cur true 2 (omega arith)

read-transferred_example : read 2 0 512 6 files ≡ returns 6 (transferred files 0 3 512 6)
unfolding switch_endianness
read-transferred_example =
    read-transferred files 0 (omega arith) 512 6 (omega arith) (omega arith) (omega arith)
      (omega arith) (omega arith) (omega arith) 0

read-settles_example : is_settled (read 7 0 512 6 files) ≡ true
read-settles_example =
    read-settles files 0 512 6 (omega arith) (omega arith) (omega arith) (omega arith)

-- The path `a/b` and the name `a`.
abbrev path : Memory
path i = if i == 0 then 97 else if i == 1 then 47 else if i == 2 then 98 else 0

abbrev name : Memory
name i = if i == 0 then 97 else 0

filename_match-MatchResult_example : MatchResult path name (filename_match path name)
filename_match-MatchResult_example = filename_match-MatchResult path name

write-fseek-read_example :
    (t : Files) × ((write 2 0 512 6 >> fseek 0 (2 ^ 32 - 6) seek_cur >> read 2 0 600 6) files
      ≡ returns 6 t)
    × ((i : ℕ) → i < 6 → t.memory (600 + i) ≡ disk (512 + i))
unfolding switch_endianness
write-fseek-read_example =
    write-fseek-read files 0 (omega arith) 512 6 (omega arith) (omega arith) (omega arith)
      (omega arith) (omega arith) (omega arith) (inl (omega arith)) 600
