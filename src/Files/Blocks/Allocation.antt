-- ===== src/Files/Blocks/Allocation.antt =====
-- The list of free blocks. A block of the list holds the number of the next one and then the numbers
-- of free blocks, up to the first zero.
use mathlib.Core.Path.{fun_ext}
use sysres_os.Base.{
  ℕ, zero, suc, ◌+◌, ◌*◌, ◌/◌, ◌<◌, ◌≤◌, ◌≡◌, ◌≢◌, ◌∙◌, refl, true, false, not, ltb, ◌==◌, ◌&&◌,
  if◌then◌else◌, some, u32, arith, Bool-cases, inl, inr,
}
use sysres_os.Bytes.{Memory}
use sysres_os.Step.{returns}
use sysres_os.Files.State.{Files}
use sysres_os.Files.Words.{switch_endianness, load, stored, switch_lem}
use sysres_os.Files.Blocks.{block_address, in_use, last_entry, alloc_block}
use sysres_os.Files.Blocks.Transfer.{covered, sought, read_block_lem, write_block_lem}

load_small : (m : Memory) (a : ℕ) → ((x : ℕ) → m x < 256) → load m a < u32
load_small m a bytes = omega (arith, bytes a, bytes (a + 1), bytes (a + 2), bytes (a + 3))

switched_zero : (n : ℕ) → n < u32 → n ≢ 0 → (switch_endianness n == 0) ≡ false
switched_zero n small ne = ground (arith, switch_lem n small, ne)

zero_switched : switch_endianness 0 ≡ 0
unfolding switch_endianness
zero_switched = refl

one_switched : (switch_endianness 1 == 0) ≡ false
unfolding switch_endianness
one_switched = refl

in_use_lem : (m : Memory) (j : ℕ) → in_use m j ≡ not (load m (4 * (j + 1)) == 0)
in_use_lem m j = elim (Bool-cases (load m (4 * (j + 1)) == 0)) [
  | inl e ↦ rw (e, zero_switched) refl
  | inr e ↦ rw (e, one_switched) refl
]

last_entry_lem :
    (fuel j n size : ℕ) (m : Memory)
    → j ≤ n
    → n < j + fuel
    → n < size / 4
    → ((i : ℕ) → i ≤ n → 0 < i → load m (4 * i) ≢ 0)
    → (n + 1 < size / 4 → load m (4 * (n + 1)) ≡ 0)
    → last_entry fuel j size m ≡ some n
unfolding last_entry
last_entry_lem zero j n size m low enough inside used free = absurd (omega arith)
last_entry_lem (suc fuel) j n size m low enough inside used free = elim (Bool-cases (j == n)) [
  | inl e ↦
      let at : j ≡ n = ground arith in
      let stop : (ltb (n + 1) (size / 4) && not (load m (4 * (n + 1)) == 0)) ≡ false =
        elim (Bool-cases (ltb (n + 1) (size / 4))) [
          | inl more ↦
              let none_left : load m (4 * (n + 1)) ≡ 0 = free (ground arith) in
              rw none_left (ground arith)
          | inr none_more ↦ rw none_more refl
        ] in
      rw (at, in_use_lem m n, stop) refl
  | inr ne ↦
      let inner : ltb (j + 1) (size / 4) ≡ true = ground arith in
      let nonzero : (load m (4 * (j + 1)) == 0) ≡ false =
        ground (arith, used (j + 1) (ground arith) (omega arith)) in
      rw (in_use_lem m j, inner, nonzero)
        (last_entry_lem fuel (j + 1) n size m (ground arith) (omega arith) inside used free)
]

-- Entry `j` of the first block of the list.
abbrev pub listed : Files → ℕ → ℕ
listed s j = load s.memory (block_address s s.filesystem.free_block_list + 4 * j)

module _ (s : Files) (present : s.filesystem.free_block_list < s.filesystem.block_count)
    (bytes : (x : ℕ) → s.memory x < 256) where
  abbrev at : ℕ
  at = block_address s s.filesystem.free_block_list

  abbrev copy : Memory
  copy i = if ltb i s.filesystem.block_size then s.memory (at + i) else 0

  copied : (j : ℕ) → j < s.filesystem.block_size / 4 → load copy (4 * j) ≡ listed s j
  copied j h = ground arith

  written_back :
      (n : ℕ)
      → n < s.filesystem.block_size / 4
      → covered at s.filesystem.block_size (stored (4 * n) 0 copy) s.memory
        ≡ stored (at + 4 * n) 0 s.memory
  written_back n h = fun_ext λ x. ground arith

  -- Where the first block of the list holds `n` free blocks, `n > 0`, `alloc_block` gives the last one
  -- and clears its entry; nothing else in memory changes.
  pub alloc_block-pops :
      (n : ℕ)
      → 0 < n
      → n < s.filesystem.block_size / 4
      → ((i : ℕ) → i ≤ n → 0 < i → listed s i ≢ 0)
      → (n + 1 < s.filesystem.block_size / 4 → listed s (n + 1) ≡ 0)
      → alloc_block (s.filesystem.block_size / 4) s
        ≡ returns (switch_endianness (listed s n)) (record (sought s s.filesystem.free_block_list) {
          memory = stored (at + 4 * n) 0 s.memory;
        })
  unfolding alloc_block
  alloc_block-pops n some_free inside used free =
      let first : (switch_endianness (load copy 4) == 0) ≡ false = rw (copied 1 (omega arith)) (
        switched_zero (listed s 1) (load_small s.memory (at + 4 * 1) bytes)
          (used 1 (omega arith) (omega arith))) in
      let found : last_entry (s.filesystem.block_size / 4) 1 s.filesystem.block_size copy ≡ some n =
        last_entry_lem (s.filesystem.block_size / 4) 1 n s.filesystem.block_size copy (omega arith)
          (omega arith) inside (λ i low pos. rw (copied i (omega arith)) (used i low pos))
          (λ more. copied (n + 1) more ∙ free more) in
      rw
        (
          read_block_lem s s.filesystem.free_block_list present,
          first,
          found,
          zero_switched,
          write_block_lem (sought s s.filesystem.free_block_list) s.filesystem.free_block_list
              present (stored (4 * n) 0 copy),
          written_back n inside,
          copied n inside,
        )
        refl
