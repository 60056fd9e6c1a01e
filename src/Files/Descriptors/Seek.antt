-- ===== src/Files/Descriptors/Seek.antt =====
-- Seeking, and the choice of a descriptor.
use sysres_os.Base.{
  ℕ, ◌+◌, ◌-◌, ◌%◌, ◌^◌, ◌<◌, ◌≤◌, ◌≡◌, refl, Bool, true, false, not, ltb, leb, ◌==◌, if◌then◌else◌,
  Option, none, some, u32, add32, lt_int, minus_one32, arith, Bool-cases, inl, inr, ◌⊎◌,
}
use sysres_os.Proc.Run.{update}
use sysres_os.Proc.Search.{find_from}
use sysres_os.Proc.Search.First.{Found, find_from-Found}
use sysres_os.Step.{◌>>◌, require, Outcome, returns, panics}
use sysres_os.Files.State.{
  Files, FileDescriptor, Whence, seek_set, seek_cur, seek_end, max_file_descriptors,
}
use sysres_os.Files.Descriptors.{
  descriptor, change_descriptor, fseek, get_next_available_file_descriptor_slot,
}

-- The `int` of `k`, or of `- k`.
abbrev pub int_of : (back : Bool) → ℕ → ℕ
int_of back k = if back then (u32 - k) % u32 else k

-- Where a seek starts from.
abbrev pub base : Whence → FileDescriptor → ℕ
base seek_set fd = 0
base seek_cur fd = fd.pos
base seek_end fd = fd.inode.size

-- The state with a descriptor at a position.
abbrev pub moved : Files → (fd pos : ℕ) → Files
moved s fd pos = record s {
  file_descriptor_table =
      update s.file_descriptor_table fd (record (s.file_descriptor_table fd) { pos = pos });
}

-- What a seek by `k`, forwards or back, gives.
abbrev pub seek_outcome : Files → ℕ → Whence → (back : Bool) → ℕ → Outcome Files (Unit {0})
seek_outcome s fd whence back k =
    let f = s.file_descriptor_table fd in
    let from = base whence f in
    if (if back then leb k from else leb (from + k) f.inode.size)
    then returns tt (moved s fd (if back then from - k else from + k))
    else panics

module _ (s : Files) (fd : ℕ) (present : fd < max_file_descriptors)
    (inside : (s.file_descriptor_table fd).pos ≤ (s.file_descriptor_table fd).inode.size)
    (small : (s.file_descriptor_table fd).inode.size < 2 ^ 31) where
  abbrev f : FileDescriptor
  f = s.file_descriptor_table fd

  in_table : ltb fd max_file_descriptors ≡ true
  in_table = ground (arith, present)

  -- A seek to the position `pos`, where the position is tested.
  tested :
      (pos pos' : ℕ) (ok : Bool)
      → leb pos f.inode.size ≡ ok
      → (ok ≡ true → pos ≡ pos')
      → (require (leb pos f.inode.size)
            >> change_descriptor fd (λ (g : FileDescriptor). record g { pos = pos }))
          s
        ≡ (if ok then returns tt (moved s fd pos') else panics)
  unfolding change_descriptor
  tested pos pos' true e at = rw (e, in_table, at refl) refl
  tested pos pos' false e at = rw e refl

  -- `fseek` by less than 2 ^ 31, forwards or back, from a descriptor of the table whose position is
  -- not behind its file's end, moves it there exactly if this is in the file or at its end, and panics
  -- otherwise. The file is smaller than 2 ^ 31.
  pub fseek-refines :
      (whence : Whence) (back : Bool) (k : ℕ)
      → k < 2 ^ 31
      → fseek fd (int_of back k) whence s ≡ seek_outcome s fd whence back k
  unfolding fseek descriptor
  fseek-refines seek_set true k h = rw in_table (
      tested (int_of true k) (0 - k) (leb k 0) (ground (arith, small, h))
        (λ e. ground (arith, h, e)))
  fseek-refines seek_set false k h =
      rw in_table (tested k (0 + k) (leb (0 + k) f.inode.size) (ground arith) (λ e. omega arith))
  fseek-refines seek_cur true k h = rw in_table (
      tested (add32 f.pos (int_of true k)) (f.pos - k) (leb k f.pos)
        (ground (arith, small, inside, h)) (λ e. ground (arith, small, inside, h, e)))
  fseek-refines seek_cur false k h = rw in_table (
      tested (add32 f.pos k) (f.pos + k) (leb (f.pos + k) f.inode.size)
        (ground (arith, small, inside, h)) (λ e. ground (arith, small, inside, h, e)))
  fseek-refines seek_end true k h =
      let negative : not (lt_int 0 (int_of true k)) ≡ true = ground (arith, h) in
      rw (in_table, negative)
        (tested (add32 f.inode.size (int_of true k)) (f.inode.size - k) (leb k f.inode.size)
          (ground (arith, small, inside, h)) (λ e. ground (arith, small, inside, h, e)))
  fseek-refines seek_end false k h = elim (Bool-cases (k == 0)) [
    | inl e ↦
        let zero_int : not (lt_int 0 k) ≡ true = ground arith in
        rw (in_table, zero_int)
          (tested (add32 f.inode.size k) (f.inode.size + k) (leb (f.inode.size + k) f.inode.size)
            (ground (arith, small, h)) (λ _. omega (arith, small, h)))
    | inr e ↦
        let positive : not (lt_int 0 k) ≡ false = ground (arith, h) in
        let beyond : leb (f.inode.size + k) f.inode.size ≡ false = ground arith in
        rw (in_table, positive, beyond) refl
  ]

-- The descriptor chosen is the first closed one, and -1 is given exactly if none is closed.
abbrev pub IsNext : Files → ℕ → Type 0
IsNext s slot =
    ((slot ≡ minus_one32)
      × ((i : ℕ) → i < max_file_descriptors → (s.file_descriptor_table i).closed ≡ 0))
    ⊎ ((slot < max_file_descriptors)
        × (not ((s.file_descriptor_table slot).closed == 0) ≡ true)
        × ((i : ℕ) → i < slot → (s.file_descriptor_table i).closed ≡ 0))

open_slot : (n : ℕ) → not (n == 0) ≡ false → n ≡ 0
open_slot n h = ground arith

chosen :
    (s : Files) (o : Option ℕ)
    → Found (λ i. not ((s.file_descriptor_table i).closed == 0)) max_file_descriptors 0 o
    → IsNext s (elim o [ none ↦ minus_one32 | some i ↦ i ])
chosen s none all_open = inl (
  refl,
  λ i h. open_slot (s.file_descriptor_table i).closed (all_open i (omega arith) (omega arith)),
)
chosen s (some i) first = inr (
  omega (arith, first.below),
  first.passes,
  λ j h. open_slot (s.file_descriptor_table j).closed (first.none_before j (omega arith) h),
)

-- `get_next_available_file_descriptor_slot` gives the first closed descriptor, or -1 where all are
-- open.
pub get_next_available_file_descriptor_slot-IsNext :
    (s : Files) → IsNext s (get_next_available_file_descriptor_slot s)
unfolding get_next_available_file_descriptor_slot
get_next_available_file_descriptor_slot-IsNext s =
    chosen s (find_from (λ i. not ((s.file_descriptor_table i).closed == 0)) max_file_descriptors 0)
      (find_from-Found (λ i. not ((s.file_descriptor_table i).closed == 0)) max_file_descriptors 0)
