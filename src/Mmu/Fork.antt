-- ===== src/Mmu/Fork.antt =====
-- The tables of a new process.
use sysres_os.Base.{
  ℕ, zero, suc, ◌+◌, ◌-◌, ◌*◌, ◌/◌, ◌%◌, ltb, leb, not, ◌==◌, ◌&&◌, ◌||◌, if◌then◌else◌, bit_or,
}
use sysres_os.Step.{◌>>=◌, ◌>>◌, state, require, give, nothing, revise}
use sysres_os.Mmu.State.{
  Cmd, store, set_lvl2_address, page_size, n_table_entries, gpio_base, timer_irq_page, kernel_page,
  user_page, data_page, forked_page, access_flag_set, normal_wt_nt, stack_page_1, stack_page_2,
  page_res_1, page_res_2,
}
use sysres_os.Mmu.Entry.{
  new_block_attributes_sg1, set_block_and_page_attributes_sg1, set_invalid_entry, is_block_entry,
  is_table_entry, get_address_sg1,
}
use sysres_os.Mmu.Walk.{get_physical_address, set_invalid_page}
use sysres_os.Mmu.Pages.{
  get_bind_counter, increment_bind_counter, decrement_bind_counter, init_physical_memory_map,
}
use sysres_os.Mmu.Bind.{bind_address, get_new_page}
use sysres_os.Mmu.Tables.{
  Linker, map_table_zone, populate_lvl2_table, identity_paging, check_identity_paging,
  map_peripheral_pages,
}
use sysres_os.Mmu.Free.{mem_manager_pid}
use sysres_os.Proc.State.{kernel_pid, init_pid}

-- `memmove` of a page between two virtual addresses of the current table, at their physical ones.
unfoldable pub copy_page : (to from : ℕ) → Cmd (Unit {0})
copy_page to from = do
  target ← get_physical_address to
  source ← get_physical_address from
  revise (λ m. record m {
    byte = λ x.
        if leb target x && ltb x (target + page_size)
        then m.byte (source + (x - target))
        else m.byte x;
  })

unfoldable pub copy_forked_page : (linker : Linker) → (tables : ℕ → ℕ) → ℕ → Cmd (Unit {0})
unfolding new_block_attributes_sg1
copy_forked_page linker tables page = do
  require (page % page_size == 0)
  phys_address ← get_physical_address page
  m ← state
  require (get_bind_counter m phys_address == 2)
  decrement_bind_counter phys_address
  require (linker.mmu_tables_start == tables kernel_pid)
  set_lvl2_address (tables kernel_pid)
  status ←
      bind_address 2 page_res_1 phys_address
        (new_block_attributes_sg1 (bit_or kernel_page access_flag_set) normal_wt_nt)
  require (status == 0)
  status' ← get_new_page page_res_2 (bit_or kernel_page access_flag_set) normal_wt_nt
  require (status' == 0)
  new_phys_address ← get_physical_address page_res_2
  copy_page page_res_2 page_res_1
  decrement_bind_counter phys_address
  decrement_bind_counter new_phys_address
  set_invalid_page page_res_1
  set_invalid_page page_res_2
  set_lvl2_address m.lvl2_table_address
  bind_address 2 page new_phys_address
      (new_block_attributes_sg1 (bit_or user_page access_flag_set) normal_wt_nt)
  nothing

-- The kernel's entries of the parent's table, from entry `i` on.
unfoldable pub copy_kernel_entries : (rounds i parent : ℕ) → Cmd (Unit {0})
copy_kernel_entries zero i parent = nothing
copy_kernel_entries (suc rounds) i parent = do
  m ← state
  store (m.lvl2_table_address + i * 8) (m.word (parent + i * 8))
  copy_kernel_entries rounds (i + 1) parent

-- The page at entry `j` of table `i`, whose entry the parent has at `parent_entry` and the child at
-- `entry`. But for the stack, the parent's page becomes read-only.
unfoldable pub share_page : (i j parent_entry entry : ℕ) → Cmd (Unit {0})
unfolding new_block_attributes_sg1
share_page i j parent_entry entry = do
  m ← state
  let virtual_addr = page_size * (i * n_table_entries + j)
  if not (is_block_entry (m.word parent_entry) 3)
      then set_invalid_entry entry
      else if virtual_addr == timer_irq_page
      then nothing
      else do
        if not (virtual_addr == stack_page_1) && not (virtual_addr == stack_page_2)
            then set_block_and_page_attributes_sg1 parent_entry
                (new_block_attributes_sg1 (bit_or forked_page access_flag_set) normal_wt_nt)
            else nothing
        t ← state
        store entry (t.word parent_entry)
        u ← state
        increment_bind_counter (get_address_sg1 (u.word entry))

unfoldable pub share_pages : (rounds i j parent_table_entry table_entry : ℕ) → Cmd (Unit {0})
share_pages zero i j parent_table_entry table_entry = nothing
share_pages (suc rounds) i j parent_table_entry table_entry = do
  m ← state
  share_page i j (get_address_sg1 (m.word parent_table_entry) + j * 8)
      (get_address_sg1 (m.word table_entry) + j * 8)
  share_pages rounds i (j + 1) parent_table_entry table_entry

unfoldable pub share_tables : (rounds i parent : ℕ) → Cmd (Unit {0})
share_tables zero i parent = nothing
share_tables (suc rounds) i parent = do
  m ← state
  let parent_entry = parent + i * 8
  let entry = m.lvl2_table_address + i * 8
  if not (is_table_entry (m.word parent_entry))
      then set_invalid_entry entry
      else share_pages n_table_entries i 0 parent_entry entry
  share_tables rounds (i + 1) parent

-- `tables` gives the table of level 2 of each process, and `parent_pid` is that of the parent.
unfoldable pub process_init_copy_and_write :
    (linker : Linker) → (tables : ℕ → ℕ) → (pid parent_pid : ℕ) → Cmd (Unit {0})
unfolding new_block_attributes_sg1
process_init_copy_and_write linker tables pid parent_pid = do
  m ← state
  let parent = tables parent_pid
  let zone = page_size * n_table_entries
  require (m.id_paging_size % zone == 0)
  require (linker.mmu_tables_start % zone == 0)
  require (gpio_base % zone == 0)
  copy_kernel_entries
      ((if pid == mem_manager_pid then linker.mmu_tables_start else m.id_paging_size) / zone) 0
      parent
  if pid == mem_manager_pid
      then map_table_zone linker
          (new_block_attributes_sg1 (bit_or data_page access_flag_set) normal_wt_nt)
      else nothing
  let n_kernel_tables = m.id_paging_size / zone
  share_tables (gpio_base / zone - n_kernel_tables) n_kernel_tables parent
  copy_forked_page linker tables stack_page_1
  copy_forked_page linker tables stack_page_2

-- The table of the process; `memmap_addr` is the linker's. The cache set-up is left out, and an error
-- status for the stack is printed.
unfoldable pub c_init_mmu :
    (linker : Linker) → (tables : ℕ → ℕ) → (memmap_addr pid parent_pid : ℕ) → Cmd ℕ
c_init_mmu linker tables memmap_addr pid parent_pid = do
  require (ltb pid 32)
  revise (λ m. record m {
    id_paging_size = linker.end_address;
    lvl2_table_address = linker.mmu_tables_start + pid * n_table_entries * page_size;
  })
  m ← state
  populate_lvl2_table (m.lvl2_table_address + page_size)
  if (pid == kernel_pid) || (pid == init_pid)
      then (do
        if pid == kernel_pid then init_physical_memory_map memmap_addr else nothing
        identity_paging linker
        check_identity_paging
        get_new_page stack_page_1 (bit_or data_page access_flag_set) normal_wt_nt
        get_new_page stack_page_2 (bit_or kernel_page access_flag_set) normal_wt_nt
        nothing)
      else process_init_copy_and_write linker tables pid parent_pid
  map_peripheral_pages
  give m.lvl2_table_address
