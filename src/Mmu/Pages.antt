-- ===== src/Mmu/Pages.antt =====
-- The stack of free physical pages, and the counters of the virtual pages bound to each.
pub mod Stack
pub mod Initial
use sysres_os.Base.{
  ℕ, zero, suc, ◌+◌, ◌-◌, ◌*◌, ◌/◌, ◌%◌, ltb, ◌==◌, ◌||◌, if◌then◌else◌, add64, sub64, add32, u32,
  to_int,
}
use sysres_os.Proc.Run.{update}
use sysres_os.Step.{◌>>=◌, ◌>>◌, state, require, give, nothing, revise}
use sysres_os.Mmu.State.{Mmu, Cmd, store_byte, page_size, ram_size, gpio_base, timer_irq_page}

unfoldable pub get_bind_counter_address : Mmu → ℕ → ℕ
get_bind_counter_address m physical_addr =
    sub64 (add64 m.pages.bind_counter (physical_addr / page_size)) m.pages.bind_counter_offset

unfoldable pub get_bind_counter : Mmu → ℕ → ℕ
unfolding get_bind_counter_address
get_bind_counter m physical_addr = m.byte (get_bind_counter_address m physical_addr)

unfoldable pub set_bind_counter : (physical_addr value : ℕ) → Cmd (Unit {0})
set_bind_counter physical_addr value = do
  m ← state
  store_byte (get_bind_counter_address m physical_addr) (value % 256)

unfoldable pub increment_bind_counter : ℕ → Cmd (Unit {0})
increment_bind_counter physical_addr = do
  m ← state
  require (ltb (get_bind_counter_address m physical_addr) m.id_paging_size)
  store_byte (get_bind_counter_address m physical_addr)
      ((get_bind_counter m physical_addr + 1) % 256)

unfoldable pub decrement_bind_counter : ℕ → Cmd (Unit {0})
decrement_bind_counter physical_addr = do
  m ← state
  store_byte (get_bind_counter_address m physical_addr)
      ((get_bind_counter m physical_addr + 255) % 256)

-- The page that is popped.
unfoldable pub get_unbound_physical_page : Cmd ℕ
get_unbound_physical_page = do
  m ← state
  require (ltb m.pages.head m.pages.size)
  revise (λ t. record t { pages = record (t.pages) { head = add32 t.pages.head 1 } })
  give (m.pages.map m.pages.head)

unfoldable pub free_physical_page : ℕ → Cmd (Unit {0})
free_physical_page physical_addr = do
  m ← state
  require (ltb 0 m.pages.head)
  require (physical_addr % page_size == 0)
  require (get_bind_counter m physical_addr == 0)
  revise (λ t. record t {
    pages = record (t.pages) {
      head = t.pages.head - 1;
      map = update t.pages.map (t.pages.head - 1) (to_int physical_addr);
    };
  })

unfoldable pub decr_and_free_physical_page : ℕ → Cmd (Unit {0})
decr_and_free_physical_page physical_address = do
  decrement_bind_counter physical_address
  m ← state
  if get_bind_counter m physical_address == 0 then free_physical_page physical_address else nothing

-- The first loop of `init_physical_memory_map`: the counters from page `i` on.
unfoldable pub clear_counters : (rounds i : ℕ) → Cmd (Unit {0})
clear_counters zero i = nothing
clear_counters (suc rounds) i = do set_bind_counter (i * page_size) 0; clear_counters rounds (i + 1)

-- Whether the second loop steps over the page at an address.
abbrev pub is_peripheral : ℕ → ℕ
is_peripheral address =
    if (address == gpio_base)
      || (address == gpio_base + 0x1000)
      || (address == gpio_base + 0x15000)
      || (address == timer_irq_page)
    then 1
    else 0

-- The second loop, on the numbers at `map`, from index `i` on.
unfoldable pub fill_map : (rounds i delta id_paging_size head : ℕ) → (ℕ → ℕ) → ℕ → ℕ
fill_map zero i delta id_paging_size head map = map
fill_map (suc rounds) i delta id_paging_size head map =
    let delta' = delta + is_peripheral ((i + delta) * page_size % u32 + id_paging_size) in
    fill_map rounds (i + 1) delta' id_paging_size head
      (update map (add32 head i) (to_int ((i + delta') * page_size % u32 + id_paging_size)))

abbrev pub skipped_pages : ℕ
skipped_pages = 3

-- `memmap_addr` is the linker's `__physical_memory_map`.
unfoldable pub init_physical_memory_map : ℕ → Cmd (Unit {0})
init_physical_memory_map memmap_addr = do
  revise (λ m. record m {
    pages = record {
      map = m.pages.map;
      map_address = memmap_addr;
      head = 0;
      size = 0x100000;
      bind_counter_offset = m.id_paging_size / page_size;
      bind_counter = memmap_addr + 0x100000;
    };
  })
  m ← state
  let first = m.id_paging_size / page_size
  clear_counters (512 * 512 - first) first
  revise (λ t. record t {
    pages = record (t.pages) {
      map =
          fill_map (sub64 (sub64 ram_size t.id_paging_size / page_size) skipped_pages) 0 0
            t.id_paging_size t.pages.head t.pages.map;
    };
  })
