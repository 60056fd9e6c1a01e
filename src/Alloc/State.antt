-- ===== src/Alloc/State.antt =====
-- The state of src/memory/alloc.c. A pointer to a block is its address, and NULL is 0.
use sysres_os.Base.{ℕ, Bool, List, if◌then◌else◌}
use sysres_os.Proc.Run.{update}

-- `ABLOCK_SIZE`, the size of a block's header.
abbrev pub ablock_size : ℕ
ablock_size = 32

abbrev pub granule : ℕ
granule = 0x1000

-- `TIMER_IRQ_PAGE` of src/interrupt/timer.h.
abbrev pub heap_max : ℕ
heap_max = 0x3f00b000

-- `struct alloc_block`
pub record Block : Type 0 where
  pub size : ℕ
  pub next : ℕ
  pub prev : ℕ
  pub free : Bool

-- The static variables, the header at each address, and the pages given back to the memory manager.
pub record Heap : Type 0 where
  pub heap_begin : ℕ
  pub end_offset : ℕ
  pub global_base : ℕ
  pub block : ℕ → Block
  pub freed : List ℕ

-- A failed assertion panics, and a loop out of fuel is stuck.
pub data Result (A : Type 0) : Type 0 where
  returns : A → Heap → Result A
  panics : Result A
  stuck : Result A

abbrev pub Cmd : Type 0 → Type 0
Cmd A = Heap → Result A

abbrev pub pure : {A : Type 0} → A → Cmd A
pure = returns

infixl 5 ◌>>=◌ ◌>>◌
-- What follows a command that returned.
abbrev pub and_then : {A B : Type 0} → Result A → (A → Cmd B) → Result B
and_then stuck rest = stuck
and_then panics rest = panics
and_then (returns a t) rest = rest a t

abbrev pub ◌>>=◌ : {A B : Type 0} → Cmd A → (A → Cmd B) → Cmd B
first >>= rest = λ t. and_then (first t) rest

abbrev pub ◌>>◌ : {A B : Type 0} → Cmd A → Cmd B → Cmd B
first >> second = first >>= λ _. second

abbrev pub skip : Cmd (Unit {0})
skip = returns tt

abbrev pub get : Cmd Heap
get h = returns h h

abbrev pub modify : (Heap → Heap) → Cmd (Unit {0})
modify f h = returns tt (f h)

abbrev pub assert : Bool → Cmd (Unit {0})
assert b h = if b then returns tt h else panics

-- A write to the header at `b`.
unfoldable pub put : ℕ → (Block → Block) → Cmd (Unit {0})
put b f h = returns tt (record h { block = update h.block b (f (h.block b)) })
