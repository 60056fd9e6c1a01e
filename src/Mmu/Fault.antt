-- ===== src/Mmu/Fault.antt =====
-- The handlers of memory faults.
use sysres_os.Base.{
  ℕ, ◌/◌, ◌^◌, Bool, not, ltb, leb, ◌==◌, ◌&&◌, ◌||◌, if◌then◌else◌, bit_and, bit_or, add64,
}
use sysres_os.Step.{◌>>=◌, ◌>>◌, state, require, give, nothing}
use sysres_os.Mmu.State.{
  mask, Cmd, set_lvl2_address, gpio_base, kernel_page, user_page, access_flag_set, normal_wt_nt,
  page_res_1,
}
use sysres_os.Mmu.Entry.{new_block_attributes_sg1, set_block_and_page_attributes_sg1}
use sysres_os.Mmu.Walk.{
  get_lvl3_entry_phys_address, get_physical_address, set_page_access_flag, set_invalid_page,
  get_lvl2_table_address_from_ttbr0,
}
use sysres_os.Mmu.Pages.{get_bind_counter, decrement_bind_counter}
use sysres_os.Mmu.Bind.{bind_address, get_new_page}
use sysres_os.Mmu.Fork.{copy_page}

-- The heap of the process lies from `heap_begin` to `heap_begin + end_offset`. The error numbers are
-- left out: an address outside panics right behind them, and a stack overflow goes on.
unfoldable pub translation_fault_handler :
    (tables : ℕ → ℕ)
    → (heap_begin end_offset fault_address : ℕ) → (lower_el : Bool) → (pid : ℕ) → Cmd (Unit {0})
translation_fault_handler tables heap_begin end_offset fault_address lower_el pid = do
  set_lvl2_address (tables pid)
  require (leb heap_begin fault_address && ltb fault_address (add64 heap_begin end_offset))
  get_new_page fault_address (bit_or (if lower_el then user_page else kernel_page) access_flag_set)
      normal_wt_nt
  nothing

unfoldable pub access_flag_fault_lvl3_handler :
    (tables : ℕ → ℕ) → (fault_address pid : ℕ) → Cmd (Unit {0})
access_flag_fault_lvl3_handler tables fault_address pid = do
  set_lvl2_address (tables pid)
  set_page_access_flag fault_address

unfoldable pub handle_shared_page_write : ℕ → Bool → Cmd (Unit {0})
unfolding new_block_attributes_sg1
handle_shared_page_write fault_address lower_lvl = do
  phys_address ← get_physical_address fault_address
  m ← state
  let cnt = get_bind_counter m phys_address
  let ba =
      new_block_attributes_sg1
        (bit_or (if lower_lvl then user_page else kernel_page) access_flag_set) normal_wt_nt
  require (ltb 0 cnt)
  if not (ltb 1 cnt)
      then (do
        let lvl3_entry_addr = get_lvl3_entry_phys_address m fault_address
        require (bit_and lvl3_entry_addr (mask 5 0) == 0)
        set_block_and_page_attributes_sg1 lvl3_entry_addr ba)
      else do
        decrement_bind_counter phys_address
        status ← get_new_page page_res_1 (bit_or kernel_page access_flag_set) normal_wt_nt
        require (status == 0)
        temp_phys_address ← get_physical_address page_res_1
        let aligned_fault_addr = bit_and fault_address (mask 63 12)
        copy_page page_res_1 aligned_fault_addr
        set_invalid_page page_res_1
        status' ← bind_address 2 aligned_fault_addr temp_phys_address ba
        require (status' == 0)

unfoldable pub permission_fault_handler :
    (fault_address level : ℕ) → (lower_lvl : Bool) → Cmd (Unit {0})
permission_fault_handler fault_address level lower_lvl = do
  require (level == 3)
  require lower_lvl
  m ← state
  require (not (ltb fault_address m.id_paging_size || ltb gpio_base fault_address))
  handle_shared_page_write fault_address lower_lvl

-- `ttbr0_el1` is the register's value.
unfoldable pub get_page_permission : (ttbr0_el1 virtual_addr : ℕ) → Cmd ℕ
get_page_permission ttbr0_el1 virtual_addr = do
  set_lvl2_address (get_lvl2_table_address_from_ttbr0 ttbr0_el1)
  m ← state
  give (bit_and (m.word (get_lvl3_entry_phys_address m virtual_addr)) (mask 7 6) / 2 ^ 6)
