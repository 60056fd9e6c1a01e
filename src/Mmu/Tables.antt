-- ===== src/Mmu/Tables.antt =====
-- How the tables of a process are set up.
pub mod Identity
pub mod Layout
use sysres_os.Base.{
  ℕ, zero, suc, ◌+◌, ◌-◌, ◌*◌, ◌/◌, ◌%◌, ltb, not, ◌==◌, if◌then◌else◌, bit_or, u64,
}
use sysres_os.Step.{◌>>=◌, ◌>>◌, state, require, nothing}
use sysres_os.Mmu.State.{
  Cmd, BlockAttributes, page_size, n_table_entries, gpio_base, timer_irq_page, io_page, kernel_page,
  code_page, data_page, access_flag_set, device, normal_wt_nt,
}
use sysres_os.Mmu.Entry.{
  new_block_attributes_sg1, init_table_entry_sg1, set_invalid_entry, is_block_entry,
}
use sysres_os.Mmu.Walk.{
  get_lvl3_entry_phys_address, get_physical_address, status_of, set_invalid_page,
}
use sysres_os.Mmu.Bind.{bind_address}

-- What the linker gives: the addresses of `__data_start`, `__mmu_tables_start` and `__end`.
pub record Linker : Type 0 where
  pub data_start : ℕ
  pub mmu_tables_start : ℕ
  pub end_address : ℕ

-- The loop of `populate_lvl2_table`, from entry `i` on.
unfoldable pub populate_entries : (rounds i lvl3_address : ℕ) → Cmd (Unit {0})
populate_entries zero i lvl3_address = nothing
populate_entries (suc rounds) i lvl3_address = do
  m ← state
  init_table_entry_sg1 (m.lvl2_table_address + i * 8) (lvl3_address + i * page_size)
  populate_entries rounds (i + 1) lvl3_address

unfoldable pub populate_lvl2_table : ℕ → Cmd (Unit {0})
populate_lvl2_table lvl3_address = do
  m ← state
  require (m.lvl2_table_address % page_size == 0)
  require (lvl3_address % page_size == 0)
  populate_entries (n_table_entries - 1) 0 lvl3_address

-- `check_identity_paging`, from the page at `physical_pnt` on.
unfoldable pub check_pages : (rounds physical_pnt : ℕ) → Cmd (Unit {0})
check_pages zero physical_pnt = nothing
check_pages (suc rounds) physical_pnt = do
  m ← state
  let lvl3_entry = get_lvl3_entry_phys_address m physical_pnt
  require (status_of lvl3_entry == 0)
  require (is_block_entry (m.word lvl3_entry) 3)
  physical ← get_physical_address physical_pnt
  require (physical == physical_pnt)
  check_pages rounds (physical_pnt + page_size)

-- The rounds of a loop from `from` below `to` by pages.
abbrev pub pages_between : ℕ → ℕ → ℕ
pages_between from to = (to - from + (page_size - 1)) / page_size

unfoldable pub check_identity_paging : Cmd (Unit {0})
check_identity_paging = do m ← state; check_pages (pages_between 0 m.id_paging_size) 0

unfoldable pub map_peripheral_pages : Cmd (Unit {0})
unfolding new_block_attributes_sg1
map_peripheral_pages = do
  let ba = new_block_attributes_sg1 (bit_or io_page access_flag_set) device
  bind_address 2 gpio_base gpio_base ba
  bind_address 2 (gpio_base + 0x1000) (gpio_base + 0x1000) ba
  bind_address 2 (gpio_base + 0x15000) (gpio_base + 0x15000) ba
  bind_address 2 timer_irq_page timer_irq_page
      (new_block_attributes_sg1 (bit_or kernel_page access_flag_set) device)
  nothing

-- The identity on the pages from `physical_pnt` on. An error status is printed, and the loop goes on.
unfoldable pub bind_identity : (rounds physical_pnt : ℕ) → BlockAttributes → Cmd (Unit {0})
bind_identity zero physical_pnt ba = nothing
bind_identity (suc rounds) physical_pnt ba = do
  bind_address 2 physical_pnt physical_pnt ba
  bind_identity rounds (physical_pnt + page_size) ba

-- The loop of `map_table_zone`, where the contiguous bit is cleared behind `whole` pages.
unfoldable pub bind_zone : (rounds start physical_pnt whole : ℕ) → BlockAttributes → Cmd (Unit {0})
bind_zone zero start physical_pnt whole ba = nothing
bind_zone (suc rounds) start physical_pnt whole ba = do
  let ba' =
      if ltb whole ((physical_pnt - start) / page_size)
      then record ba { continuous_bit = 0 }
      else ba
  bind_address 2 physical_pnt physical_pnt ba'
  bind_zone rounds start (physical_pnt + page_size) whole ba'

unfoldable pub map_table_zone : Linker → BlockAttributes → Cmd (Unit {0})
map_table_zone linker ba = do
  m ← state
  let start = linker.mmu_tables_start
  let n_pages = (m.id_paging_size + u64 - start) % u64 / page_size
  require (n_pages % 512 == 0)
  bind_zone (pages_between start m.id_paging_size) start start (16 * (n_pages / 16))
      (record ba { continuous_bit = 1 })

-- The last loops of `identity_paging`.
unfoldable pub invalidate_tables : (rounds index : ℕ) → Cmd (Unit {0})
invalidate_tables zero index = nothing
invalidate_tables (suc rounds) index = do
  m ← state
  set_invalid_entry (m.lvl2_table_address + index * 8)
  invalidate_tables rounds (index + 1)

unfoldable pub invalidate_pages : (rounds i : ℕ) → Cmd (Unit {0})
invalidate_pages zero i = nothing
invalidate_pages (suc rounds) i = do
  m ← state
  set_invalid_page (m.id_paging_size + i * page_size)
  invalidate_pages rounds (i + 1)

unfoldable pub identity_paging : Linker → Cmd (Unit {0})
unfolding new_block_attributes_sg1
identity_paging linker = do
  bind_identity (pages_between 0 linker.data_start) 0
      (new_block_attributes_sg1 (bit_or code_page access_flag_set) normal_wt_nt)
  bind_identity (pages_between linker.data_start linker.mmu_tables_start) linker.data_start
      (new_block_attributes_sg1 (bit_or data_page access_flag_set) normal_wt_nt)
  map_table_zone linker (new_block_attributes_sg1 (bit_or kernel_page access_flag_set) normal_wt_nt)
  m ← state
  let current_table_index = m.id_paging_size / page_size % 512
  let first = m.id_paging_size / (page_size * 512) + (if current_table_index == 0 then 0 else 1)
  invalidate_tables (512 - first) first
  if not (current_table_index == 0) then invalidate_pages (512 - current_table_index) 0 else nothing
