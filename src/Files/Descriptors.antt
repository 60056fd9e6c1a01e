-- ===== src/Files/Descriptors.antt =====
-- The table of file descriptors. An index is the number its bits spell, and faults out of the table.
pub mod Seek
use sysres_os.Base.{
  ℕ, zero, suc, ◌+◌, ◌-◌, ◌*◌, ◌/◌, ◌%◌, Bool, true, false, not, ltb, leb, ◌==◌, ◌||◌,
  if◌then◌else◌, Option, none, some, u32, add32, sub32, add64, of_int, minus_one32, lt_int,
}
use sysres_os.Proc.Run.{update}
use sysres_os.Proc.Search.{find_from}
use sysres_os.Step.{◌>>=◌, ◌>>◌, state, require, give, nothing, revise, within, stuck}
use sysres_os.Files.State.{
  Files, FileDescriptor, Inode, Whence, seek_set, seek_cur, seek_end, Cmd, max_file_descriptors,
}
use sysres_os.Files.Words.{min, stored}
use sysres_os.Files.Blocks.{alloc_block, read_inode, write_inode}

-- `file_descriptor_table + fd`
unfoldable pub descriptor : ℕ → Cmd FileDescriptor
descriptor fd = do
  within (ltb fd max_file_descriptors)
  s ← state
  give (s.file_descriptor_table fd)

unfoldable pub change_descriptor : ℕ → (FileDescriptor → FileDescriptor) → Cmd (Unit {0})
change_descriptor fd f = do
  within (ltb fd max_file_descriptors)
  revise (λ s. record s {
    file_descriptor_table = update s.file_descriptor_table fd (f (s.file_descriptor_table fd));
  })

-- The slot, or -1.
unfoldable pub get_next_available_file_descriptor_slot : Files → ℕ
get_next_available_file_descriptor_slot s =
    elim (find_from (λ i. not ((s.file_descriptor_table i).closed == 0)) max_file_descriptors 0) [
      | none ↦ minus_one32
      | some i ↦ i
    ]

unfoldable pub is_at_end_of_file : ℕ → Cmd Bool
is_at_end_of_file file_desc = do fd ← descriptor file_desc; give (leb fd.inode.size fd.pos)

unfoldable pub fclose : ℕ → Cmd ℕ
fclose file_desc = do change_descriptor file_desc (λ fd. record fd { closed = 1 }); give 0

unfoldable pub iopen : ℕ → Cmd ℕ
iopen inode_number = do
  s ← state
  let slot = get_next_available_file_descriptor_slot s
  if (slot == minus_one32) || (inode_number == minus_one32) then give minus_one32 else do
    inode ← read_inode inode_number
    change_descriptor slot (λ fd. record fd { inode = inode; pos = 0; closed = 0 })
    give slot

-- `offset` is an `int`.
unfoldable pub fseek : (file_descriptor offset : ℕ) → Whence → Cmd (Unit {0})
fseek file_descriptor offset whence = do
  fd ← descriptor file_descriptor
  pos ← elim whence [
    | seek_set ↦ give offset
    | seek_cur ↦ give (add32 fd.pos offset)
    | seek_end ↦ do require (not (lt_int 0 offset)); give (add32 fd.inode.size offset)
  ]
  require (leb pos fd.inode.size)
  change_descriptor file_descriptor (λ f. record f { pos = pos })

-- The loop of `extend_file`, with `index` its index of the last block. A new block's number is stored
-- as it is, in the order of the machine.
unfoldable pub extend_blocks : (fuel file_descriptor len index : ℕ) → Cmd (Unit {0})
extend_blocks zero file_descriptor len index = λ _. stuck
extend_blocks (suc fuel) file_descriptor len index =
    let again = extend_blocks fuel file_descriptor len (index + 1) in
    do
      s ← state
      fd ← descriptor file_descriptor
      if not (ltb fd.inode.size (add32 fd.pos len)) then nothing else do
        change_descriptor file_descriptor (λ f. record f {
          inode = record (f.inode) {
            size =
                add32 f.inode.size
                  (min (sub32 (add32 f.pos len) f.inode.size) s.filesystem.block_size);
          };
        })
        block ← alloc_block (s.filesystem.block_size / 4)
        revise (λ t. record t {
          memory =
              stored
                (add64 (t.file_descriptor_table file_descriptor).inode.blocks (4 * (index + 1)))
                block t.memory;
        })
        again

unfoldable pub extend_file : (fuel file_descriptor len : ℕ) → Cmd (Unit {0})
extend_file fuel file_descriptor len = do
  s ← state
  fd ← descriptor file_descriptor
  if leb (add32 fd.pos len) fd.inode.size then nothing else do
    change_descriptor file_descriptor (λ f. record f {
      inode = record (f.inode) {
        size =
            add32 f.inode.size
              (min len (sub32 s.filesystem.block_size (f.inode.size % s.filesystem.block_size)));
      };
    })
    f ← descriptor file_descriptor
    extend_blocks fuel file_descriptor len (f.inode.size / s.filesystem.block_size)
    g ← descriptor file_descriptor
    write_inode g.inode

unfoldable pub init_file_descriptor_table : (rounds i : ℕ) → Cmd (Unit {0})
init_file_descriptor_table zero i = nothing
init_file_descriptor_table (suc rounds) i = do
  change_descriptor i (λ fd. record fd { closed = 1 })
  init_file_descriptor_table rounds (i + 1)
