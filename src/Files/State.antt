-- ===== src/Files/State.antt =====
-- The state of src/libk/filesystem.c.
use sysres_os.Base.{ℕ}
use sysres_os.Bytes.{Memory}
use sysres_os.Step.{Action}

abbrev pub filename_max_size : ℕ
filename_max_size = 28

abbrev pub directory_entry_size : ℕ
directory_entry_size = 32

abbrev pub max_file_descriptors : ℕ
max_file_descriptors = 64

-- `struct inode_t`; `blocks` is the address of the table of blocks.
pub record Inode : Type 0 where
  pub index : ℕ
  pub kind : ℕ
  pub nlink : ℕ
  pub size : ℕ
  pub blocks : ℕ

pub record FileDescriptor : Type 0 where
  pub inode : Inode
  pub pos : ℕ
  pub closed : ℕ
  pub owner_pid : ℕ

-- `struct filesystem_t`, where `superblock` is an address too. The `type` string is the bytes at their
-- offsets.
pub record Filesystem : Type 0 where
  pub start : ℕ
  pub end_address : ℕ
  pub superblock : ℕ
  pub inode_count : ℕ
  pub last_free_inode : ℕ
  pub free_block_list : ℕ
  pub free_block_count : ℕ
  pub root_inode : ℕ
  pub block_size : ℕ
  pub block_count : ℕ
  pub block_word_size : ℕ
  pub blocktable_size : ℕ
  pub blocktable_offset : ℕ
  pub max_file_size : ℕ
  pub type : Memory
  pub seek_cursor : ℕ

-- The two static variables, and the byte at each address. The areas that the code allocates, uses and
-- frees lie outside of it: they are values, byte by offset.
pub record Files : Type 0 where
  pub filesystem : Filesystem
  pub file_descriptor_table : ℕ → FileDescriptor
  pub memory : Memory

pub data Whence : Type 0 where
  seek_set : Whence
  seek_cur : Whence
  seek_end : Whence

pub record Dirent : Type 0 where
  pub inode : ℕ
  pub name : Memory

abbrev pub Cmd : Type 0 → Type 0
Cmd A = Action Files A
