-- ===== src/Files/Blocks/Transfer.antt =====
-- What is written to a block or an inode is read back.
use mathlib.Core.Path.{fun_ext}
use sysres_os.Base.{
  ℕ, zero, suc, ◌+◌, ◌-◌, ◌<◌, ◌≤◌, ◌≡◌, ◌∙◌, ap, refl, true, ltb, leb, ◌==◌, ◌&&◌, if◌then◌else◌,
  u32, arith, Bool-cases, inl, inr,
}
use sysres_os.Bytes.{Memory}
use sysres_os.Proc.Run.{update}
use sysres_os.Step.{◌>>◌, returns}
use sysres_os.Files.State.{Files, Inode}
use sysres_os.Files.Words.{
  switch_endianness, load, stored, switch_lem, switch_endianness-switch_endianness,
}
use sysres_os.Files.Blocks.{
  block_address, seek_block, read_block, write_block, copy_in, read_inode, write_inode,
}

-- The memory with `n` bytes at an address overwritten.
abbrev pub covered : (address n : ℕ) → Memory → Memory → Memory
covered address n content m x =
    if leb address x && ltb x (address + n) then content (x - address) else m x

pub copy_in-from :
    (n i address : ℕ) (content m : Memory) (x : ℕ)
    → copy_in n i address content m x
      ≡ (if leb (address + i) x && ltb x (address + i + n) then content (x - address) else m x)
unfolding copy_in
copy_in-from zero i address content m x = ground arith
copy_in-from (suc n) i address content m x =
    copy_in-from n (i + 1) address content (update m (address + i) (content i)) x
    ∙ elim (Bool-cases (x == address + i)) [
      | inl e ↦
          let at : x ≡ address + i = ground arith in
          let back : address + i - address ≡ i = omega arith in rw (at, back) (ground arith)
      | inr ne ↦ ground arith
    ]

pub copy_in_lem :
    (n address : ℕ) (content m : Memory)
    → copy_in n 0 address content m ≡ covered address n content m
copy_in_lem n address content m = fun_ext λ x. copy_in-from n 0 address content m x ∙ ground arith

-- The state with the cursor at a block.
abbrev pub sought : Files → ℕ → Files
sought s n = record s { filesystem = record (s.filesystem) { seek_cursor = block_address s n } }

module _ (s : Files) (n : ℕ) (present : n < s.filesystem.block_count) where
  pub seek_block_lem : seek_block n s ≡ returns tt (sought s n)
  unfolding seek_block
  seek_block_lem =
      let a : ltb n s.filesystem.block_count ≡ true = ground (arith, present) in rw a refl

  pub read_block_lem :
      read_block n s
      ≡ returns
          (λ i. if ltb i s.filesystem.block_size then s.memory (block_address s n + i) else 0)
          (sought s n)
  unfolding read_block
  read_block_lem = rw seek_block_lem refl

  pub write_block_lem :
      (content : Memory)
      → write_block n content s
        ≡ returns tt (record (sought s n) {
          memory = covered (block_address s n) s.filesystem.block_size content s.memory;
        })
  unfolding write_block
  write_block_lem content =
      rw (seek_block_lem, copy_in_lem s.filesystem.block_size (block_address s n) content s.memory)
        refl

-- A block that is read after it is written has the bytes that were written, with zeros behind them.
pub write_block-read_block :
    (s : Files) (n : ℕ) (content : Memory)
    → n < s.filesystem.block_count
    → (write_block n content >> read_block n) s
      ≡ returns
          (λ i. if ltb i s.filesystem.block_size then content i else 0)
          (record (sought s n) {
            memory = covered (block_address s n) s.filesystem.block_size content s.memory;
          })
write_block-read_block s n content present =
    let t = record (sought s n) {
      memory = covered (block_address s n) s.filesystem.block_size content s.memory;
    } in
    rw (write_block_lem s n present content, read_block_lem t n present)
      (ap (λ (c : Memory). returns c t)
        (fun_ext λ i.
          let back : block_address s n + i - block_address s n ≡ i = omega arith in
          ground (arith, back)))

-- A word that was stored is loaded, and another one at least four bytes off stays.
pub load-stored : (a v : ℕ) (m : Memory) → v < u32 → load (stored a v m) a ≡ v
load-stored a v m small = ground (arith, small)

pub load-stored_other : (a b v : ℕ) (m : Memory) → a + 4 ≤ b → load (stored b v m) a ≡ load m a
load-stored_other a b v m apart = ground (arith, apart)

switched_small : (n : ℕ) → n < u32 → switch_endianness n < u32
switched_small n small = omega (arith, switch_lem n small)

-- An inode that is read after it is written has the kind, the number of links and the size that were
-- written. Its blocks start 12 bytes behind its own start.
pub write_inode-read_inode :
    (s : Files) (i : Inode)
    → i.index < s.filesystem.block_count
    → i.kind < u32
    → i.nlink < u32
    → i.size < u32
    → i.size ≤ s.filesystem.max_file_size
    → (s' : Files) × ((write_inode i >> read_inode i.index) s
        ≡ returns (record i { blocks = block_address s i.index + 12 }) s')
unfolding write_inode read_inode
write_inode-read_inode s i present kind nlink size max =
    let c = block_address s i.index in
    let m0 = stored c (switch_endianness i.kind) s.memory in
    let m1 = stored (c + 4) (switch_endianness i.nlink) m0 in
    let m2 = stored (c + 8) (switch_endianness i.size) m1 in
    let t = record (sought s i.index) { memory = m2 } in
    let k : switch_endianness (load m2 c) ≡ i.kind =
      ap switch_endianness (
        load-stored_other c (c + 8) (switch_endianness i.size) m1 (omega arith)
        ∙ load-stored_other c (c + 4) (switch_endianness i.nlink) m0 (omega arith)
        ∙ load-stored c (switch_endianness i.kind) s.memory (switched_small i.kind kind))
      ∙ switch_endianness-switch_endianness i.kind kind in
    let l : switch_endianness (load m2 (c + 4)) ≡ i.nlink =
      ap switch_endianness (
        load-stored_other (c + 4) (c + 8) (switch_endianness i.size) m1 (omega arith)
        ∙ load-stored (c + 4) (switch_endianness i.nlink) m0 (switched_small i.nlink nlink))
      ∙ switch_endianness-switch_endianness i.nlink nlink in
    let z : switch_endianness (load m2 (c + 8)) ≡ i.size =
      ap switch_endianness
        (load-stored (c + 8) (switch_endianness i.size) m1 (switched_small i.size size))
      ∙ switch_endianness-switch_endianness i.size size in
    let fits : leb i.size s.filesystem.max_file_size ≡ true = ground (arith, max) in
    (
      sought t i.index,
      rw (seek_block_lem s i.index present, seek_block_lem t i.index present, k, l, z, fits) refl,
    )
