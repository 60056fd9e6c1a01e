-- ===== src/Alloc.antt =====
-- The heap of src/memory/alloc.c: its blocks, ksbrk, and the allocation functions on them.
pub mod Power
pub mod State
pub mod Blocks
mod Tests
use sysres_os.Base.{
  ℕ, zero, suc, ◌+◌, ◌-◌, ◌*◌, ◌/◌, ◌%◌, ◌^◌, Bool, true, false, not, ◌&&◌, ltb, leb, ◌==◌,
  if◌then◌else◌, List, [], ◌∷◌, ◌++◌, u32, add32, sub32, add64, sub64, to_int, of_int, lt_int,
  minus_one64, bit_or,
}
use sysres_os.Alloc.State.{
  Block, Heap, Result, returns, panics, stuck, Cmd, ◌>>=◌, ◌>>◌, get, modify, assert, put, pure,
  skip, ablock_size, granule, heap_max,
}

-- `n |= n >> k`, on a 64-bit word.
abbrev smear : ℕ → ℕ → ℕ
smear k n = bit_or n (n / 2 ^ k)

unfoldable pub next_power_of_2 : ℕ → ℕ
next_power_of_2 n = add64 (smear 16 (smear 8 (smear 4 (smear 2 (smear 1 (sub64 n 1)))))) 1

-- `/` of an `int` by a positive one, towards 0.
abbrev div_int : ℕ → ℕ → ℕ
div_int a b = if ltb a (2 ^ 31) then a / b else (u32 - (u32 - a) / b) % u32

-- The pages that a shrinking heap gives back, one request to the memory manager each.
unfoldable pub free_pages : (rounds i res : ℕ) → Cmd (Unit {0})
free_pages zero i res = skip
free_pages (suc rounds) i res = do
  modify (λ h. record h { freed = h.freed ++ (of_int (sub32 res (i * granule)) ∷ []) })
  free_pages rounds (i + 1) res

unfoldable pub ksbrk : ℕ → Cmd ℕ
ksbrk increment = do
  h ← get
  let res = to_int (add64 (of_int h.end_offset) h.heap_begin)
  let moved = add32 res increment
  modify (λ t. record t { end_offset = add32 t.end_offset increment })
  assert (not (lt_int heap_max moved))
  if not (lt_int increment 0) then pure (of_int res) else do
    let pages =
        add32 (sub32 (div_int res granule) (div_int moved granule))
          (if not (res % granule == 0) then 1 else 0)
    free_pages (if lt_int pages 0 then 0 else pages) 0 res
    pure (of_int moved)

-- The part of `split_block` past its assertion and test, for a block at `b`: the writes to the new
-- block, the writes to `b`, and the write to the block that follows.
unfoldable pub cut_block : (b size : ℕ) → Cmd (Unit {0})
cut_block b size = do
  h ← get
  let new = add64 (add64 b ablock_size) size
  let next = (h.block b).next
  put new (λ c. record {
    size = sub64 (sub64 (h.block b).size size) ablock_size;
    next = next;
    prev = b;
    free = true;
  })
  put b (λ c. record c { size = size; next = new })
  if next == 0 then skip else put next (λ c. record c { prev = new })

unfoldable pub split_block : (b size : ℕ) → Cmd (Unit {0})
split_block b size = do
  h ← get
  assert (leb size (h.block b).size)
  if ltb (add64 size ablock_size) (h.block b).size then cut_block b size else skip

unfoldable pub merge_block : ℕ → Cmd (Unit {0})
merge_block b = do
  h ← get
  let n = (h.block b).next
  assert (h.block n).free
  assert (b == (h.block n).prev)
  put b (λ c. record c { size = add64 c.size (add64 ablock_size (h.block n).size) })
  if not ((h.block n).next == 0) then put (h.block n).next (λ c. record c { prev = b }) else skip
  put b (λ c. record c { next = (h.block n).next })

-- The loop of `find_free_block`: `last`, and the block found, or NULL.
unfoldable pub find_free_block : (fuel size last current : ℕ) → Cmd (ℕ × ℕ)
find_free_block zero size last current = λ h. stuck
find_free_block (suc fuel) size last current = λ h.
    let rest = find_free_block fuel size current (h.block current).next h in
    if not (current == 0) && not ((h.block current).free && leb size (h.block current).size)
    then rest
    else returns (last, current) h

-- A new block is linked behind the last one, if there is one.
unfoldable pub link_last : (last block : ℕ) → Cmd (Unit {0})
link_last last block = do
  h ← get
  if last == 0 then skip else do
    assert ((h.block last).next == 0)
    put last (λ c. record c { next = block })
    put block (λ c. record c { prev = last })

unfoldable pub extend_heap : (last size : ℕ) → Cmd ℕ
extend_heap last size = do
  h ← get
  assert (ltb 0 h.heap_begin)
  block ← ksbrk 0
  request ← ksbrk (to_int (add64 size ablock_size))
  assert (block == request)
  if request == minus_one64 then pure 0 else do
    put block (λ c. record c { prev = 0 })
    link_last last block
    put block (λ c. record c { size = size })
    put block (λ c. record c { next = 0 })
    put block (λ c. record c { free = false })
    assert (leb (add64 last ablock_size) block)
    pure block

-- The branches of `kmalloc` on an empty list of blocks, and on one without, or with, a fitting one.
unfoldable pub first_block : ℕ → Cmd ℕ
first_block size = do
  block ← extend_heap 0 size
  if block == 0
      then pure 0
      else do modify (λ h. record h { global_base = block }); pure (add64 block ablock_size)

unfoldable pub new_block : (last size : ℕ) → Cmd ℕ
new_block last size = do
  block ← extend_heap last size
  pure (if block == 0 then 0 else add64 block ablock_size)

unfoldable pub reuse_block : (b size : ℕ) → Cmd ℕ
reuse_block b size = do
  put b (λ c. record c { free = false })
  h ← get
  if ltb size (h.block b).size then split_block b size else skip
  pure (add64 b ablock_size)

-- `kmalloc` once its size is rounded, where it is not 0.
unfoldable pub take_block : (fuel size : ℕ) → Cmd ℕ
take_block fuel size = do
  h ← get
  if h.global_base == 0 then first_block size else do
    found ← find_free_block fuel size h.global_base h.global_base
    if found.1 == 0 then new_block found.0 size else reuse_block found.1 size

abbrev pub rounded : ℕ → ℕ
rounded size = sub64 (next_power_of_2 (add64 size ablock_size)) ablock_size

unfoldable pub kmalloc : (fuel size : ℕ) → Cmd ℕ
unfolding next_power_of_2
kmalloc fuel size = if rounded size == 0 then pure 0 else take_block fuel (rounded size)

abbrev pub get_block_ptr : ℕ → ℕ
get_block_ptr p = sub64 p ablock_size

-- `kfree` once its block is known.
unfoldable pub release : ℕ → Cmd (Unit {0})
release b = do
  h ← get
  assert (not (h.block b).free)
  put b (λ c. record c { free = true })
  t ← get
  if not ((t.block b).next == 0) && (t.block (t.block b).next).free then merge_block b else skip
  u ← get
  if not ((u.block b).prev == 0) && (u.block (u.block b).prev).free
      then merge_block (u.block b).prev
      else skip

unfoldable pub kfree : ℕ → Cmd (Unit {0})
kfree p = if p == 0 then skip else release (get_block_ptr p)
