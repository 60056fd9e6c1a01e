-- ===== src/Files/Content/Ending.antt =====
-- The loop of `read` ends.
use native.Mathlib.Nat.{mod-lt}
use sysres_os.Base.{
  ℕ, zero, suc, ◌+◌, ◌-◌, ◌%◌, ◌^◌, ◌<◌, ◌≤◌, ◌≡◌, refl, true, false, ltb, if◌then◌else◌, add32,
  sub32, add64, of_int, arith, Bool-cases, inl, inr,
}
use sysres_os.Proc.Run.{update}
use sysres_os.Step.{Outcome, returns, panics, stuck, faults, onward, is_settled}
use sysres_os.Files.State.{Files, max_file_descriptors}
use sysres_os.Files.Words.{min}
use sysres_os.Files.Blocks.{block_address, seek_block, read_block, copy_in}
use sysres_os.Files.Blocks.Transfer.{sought, read_block_lem}
use sysres_os.Files.Descriptors.{descriptor, change_descriptor}
use sysres_os.Files.Content.{block_number, left_in_block, read_blocks, read}
use sysres_os.Files.Content.Reading.{min_small, read_done}

missing_block :
    (s : Files) (n : ℕ) → ltb n s.filesystem.block_count ≡ false → read_block n s ≡ panics
unfolding read_block seek_block
missing_block s n e = rw e refl

-- The state after a round that copies `n` bytes of `block` to `buffer`.
abbrev advanced : (s : Files) (fd block buffer n : ℕ) → Files
advanced s fd block buffer n =
    let f = s.file_descriptor_table fd in
    record (sought s block) {
      memory =
          copy_in (of_int n) 0 buffer
            (λ i.
              if ltb (f.pos % s.filesystem.block_size + i) s.filesystem.block_size
              then s.memory (block_address s block + (f.pos % s.filesystem.block_size + i))
              else 0)
            s.memory;
      file_descriptor_table = update s.file_descriptor_table fd (record f { pos = add32 f.pos n });
    }

read_blocks-settles :
    (fuel fd buffer stop len : ℕ) (s : Files)
    → 0 < fuel
    → stop < (s.file_descriptor_table fd).pos + fuel
    → stop < 2 ^ 31
    → 0 < len
    → len < 2 ^ 31
    → 0 < s.filesystem.block_size
    → s.filesystem.block_size < 2 ^ 31
    → is_settled (read_blocks fuel fd buffer stop len s) ≡ true
unfolding read_blocks descriptor change_descriptor
read_blocks-settles zero fd buffer stop len s pos enough low some_len short some_size sized =
    absurd (omega arith)
read_blocks-settles (suc fuel) fd buffer stop len s pos enough low some_len short some_size sized =
    let f = s.file_descriptor_table fd in
    let size = s.filesystem.block_size in
    let block = block_number s f.inode.blocks f.pos in
    let c = min len (left_in_block s f.pos) in
    let t = advanced s fd block buffer c in
    let inside : f.pos % size < size = mod-lt f.pos some_size in
    let left : left_in_block s f.pos ≡ size - f.pos % size = omega (arith, inside, sized) in
    let copy : c ≡ (if ltb (left_in_block s f.pos) len then left_in_block s f.pos else len) =
      min_small len (left_in_block s f.pos) short (omega (arith, left, sized)) in
    let some_copy : 0 < c = ground (arith, copy, left, inside, some_len) in
    let small : c < 2 ^ 31 = ground (arith, copy, short) in
    let next : (t.file_descriptor_table fd).pos ≡ add32 f.pos c = ground arith in
    elim (Bool-cases (ltb fd max_file_descriptors)) [
      | inr e ↦ rw e refl
      | inl open_fd ↦ elim (Bool-cases (ltb f.pos stop)) [
        | inr e ↦ rw (open_fd, e) refl
        | inl more ↦ elim (Bool-cases (ltb block s.filesystem.block_count)) [
          | inr e ↦ rw (open_fd, more, missing_block s block e) refl
          | inl present ↦
              let under : f.pos < stop = ground arith in
              let step : (t.file_descriptor_table fd).pos ≡ f.pos + c =
                omega (arith, next, under, low, small) in
              rw (open_fd, more, read_block_lem s block (ground arith))
                (read_blocks-settles fuel fd (add64 buffer (of_int c)) stop len t
                  (omega (arith, under, enough)) (omega (arith, step, some_copy, enough)) low
                  some_len short some_size sized)
        ]
      ]
    ]

settled_onward :
    {A B : Type 0} (b : B) (o : Outcome Files A)
    → is_settled o ≡ true
    → is_settled (onward o (λ (a : A). returns b)) ≡ true
settled_onward b panics h = refl
settled_onward b stuck h = h
settled_onward b faults h = refl
settled_onward b (returns a s) h = refl

-- `read` ends within one round more than the bytes it is asked for, whatever the blocks of the file
-- hold: each round advances by at least one byte. The position is in the file or at its end, and the
-- file and its blocks are smaller than 2 ^ 31.
pub read-settles :
    (s : Files) (fd buffer len : ℕ)
    → (s.file_descriptor_table fd).pos ≤ (s.file_descriptor_table fd).inode.size
    → (s.file_descriptor_table fd).inode.size < 2 ^ 31
    → 0 < s.filesystem.block_size
    → s.filesystem.block_size < 2 ^ 31
    → is_settled (read (suc len) fd buffer len s) ≡ true
unfolding read descriptor
read-settles s fd buffer len inside small some_size sized =
    let f = s.file_descriptor_table fd in
    let c = min len (sub32 f.inode.size f.pos) in
    let rest : sub32 f.inode.size f.pos ≡ f.inode.size - f.pos = omega (arith, inside, small) in
    elim (Bool-cases (ltb len (2 ^ 31))) [
      | inr e ↦ rw e refl
      | inl e ↦ elim (Bool-cases (ltb fd max_file_descriptors)) [
        | inr out ↦ rw (e, out) refl
        | inl open_fd ↦
            let count : c
                ≡ (if ltb (sub32 f.inode.size f.pos) len then sub32 f.inode.size f.pos else len) =
              min_small len (sub32 f.inode.size f.pos) (ground arith)
                (omega (arith, rest, small)) in
            let few : c ≤ len = ground (arith, count) in
            let low : f.pos + c < 2 ^ 31 = ground (arith, count, rest, inside, small) in
            let stop : add32 f.pos c ≡ f.pos + c = omega (arith, low) in
            rw (e, open_fd, stop)
              (settled_onward c (read_blocks (suc len) fd buffer (f.pos + c) c s)
                (elim (Bool-cases (ltb 0 c)) [
                  | inl some_bytes ↦
                      read_blocks-settles (suc len) fd buffer (f.pos + c) c s (omega arith)
                        (omega (arith, few)) low (ground (arith, some_bytes)) (omega (arith, low))
                        some_size sized
                  | inr no_bytes ↦
                      rw
                        (read_done s fd (ground (arith, open_fd)) len buffer (f.pos + c) c
                          (ground (arith, no_bytes)))
                        refl
                ]))
      ]
    ]
