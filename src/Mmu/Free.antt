-- ===== src/Mmu/Free.antt =====
-- How pages are given back.
pub mod Page
use sysres_os.Base.{ℕ, zero, suc, ◌+◌, ◌-◌, ◌*◌, ◌/◌, leb, not, ◌==◌, if◌then◌else◌}
use sysres_os.Step.{◌>>=◌, ◌>>◌, state, require, give, nothing}
use sysres_os.Mmu.State.{Cmd, set_lvl2_address, page_size, n_table_entries, gpio_base}
use sysres_os.Mmu.Entry.{get_address_sg1, set_invalid_entry, is_block_entry, is_table_entry}
use sysres_os.Mmu.Walk.{get_lvl3_entry_phys_address, status_of, get_asid_from_ttbr0}
use sysres_os.Mmu.Pages.{decr_and_free_physical_page}
use sysres_os.Proc.State.{kernel_pid, init_pid}

abbrev pub mem_manager_pid : ℕ
mem_manager_pid = 2

-- What the caches and the translation buffer do is left out.
unfoldable pub free_virtual_page : ℕ → Cmd ℕ
free_virtual_page virtual_addr = do
  m ← state
  let lvl3_entry = get_lvl3_entry_phys_address m virtual_addr
  let physical_address = get_address_sg1 (m.word lvl3_entry)
  set_invalid_entry lvl3_entry
  require (leb m.id_paging_size physical_address)
  decr_and_free_physical_page physical_address
  give (status_of lvl3_entry)

-- `tables` gives the table of level 2 of each process.
unfoldable pub mem_manager_free_virtual_page : (tables : ℕ → ℕ) → (virtual_addr pid : ℕ) → Cmd ℕ
mem_manager_free_virtual_page tables virtual_addr pid = do
  m ← state
  require (m.lvl2_table_address == tables mem_manager_pid)
  set_lvl2_address (tables pid)
  status ← free_virtual_page virtual_addr
  set_lvl2_address (m.lvl2_table_address)
  give status

-- The loops of `process_exit`: the entries of one table, and the tables.
unfoldable pub exit_pages : (rounds j lvl2_entry : ℕ) → Cmd (Unit {0})
exit_pages zero j lvl2_entry = nothing
exit_pages (suc rounds) j lvl2_entry = do
  m ← state
  let lvl3_entry = get_address_sg1 (m.word lvl2_entry) + j * 8
  if not (is_block_entry (m.word lvl3_entry) 3) then nothing else do
    decr_and_free_physical_page (get_address_sg1 (m.word lvl3_entry))
    set_invalid_entry lvl3_entry
  exit_pages rounds (j + 1) lvl2_entry

unfoldable pub exit_tables : (rounds i : ℕ) → Cmd (Unit {0})
exit_tables zero i = nothing
exit_tables (suc rounds) i = do
  m ← state
  let lvl2_entry = m.lvl2_table_address + i * 8
  if not (is_table_entry (m.word lvl2_entry))
      then nothing
      else do exit_pages n_table_entries 0 lvl2_entry; set_invalid_entry lvl2_entry
  exit_tables rounds (i + 1)

-- `ttbr0_el1` is the register's value.
unfoldable pub process_exit : (pid ttbr0_el1 : ℕ) → Cmd (Unit {0})
process_exit pid ttbr0_el1 = do
  require (not (pid == kernel_pid))
  require (not (pid == init_pid))
  require (not (pid == mem_manager_pid))
  m ← state
  let n_kernel_tables = m.id_paging_size / (page_size * n_table_entries)
  exit_tables (gpio_base / (page_size * n_table_entries) - n_kernel_tables) n_kernel_tables
  require (pid == get_asid_from_ttbr0 ttbr0_el1)
