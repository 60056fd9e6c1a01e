-- ===== src/Mmu/Bind.antt =====
-- The binding of virtual pages to physical ones.
pub mod Entry
pub mod Fresh
pub mod Rejects
pub mod NewPage
use sysres_os.Base.{ℕ, zero, suc, ◌+◌, ◌*◌, leb, not, ◌==◌, if◌then◌else◌, bit_and, to_int}
use sysres_os.Step.{◌>>=◌, ◌>>◌, state, require, give, nothing, stuck}
use sysres_os.Mmu.State.{mask, Mmu, Cmd, BlockAttributes, store}
use sysres_os.Mmu.Entry.{
  new_block_attributes_sg1, init_block_and_page_entry_sg1, set_invalid_entry,
  set_identifier_table_entry, is_table_entry, get_address_sg1,
}
use sysres_os.Mmu.Walk.{get_lvl2_table_entry_phys_address, get_lvl3_entry_phys_address, status_of}
use sysres_os.Mmu.Pages.{increment_bind_counter, get_unbound_physical_page}

-- The loop of `init_new_lvl3_table`, from entry `i` on.
unfoldable pub invalidate_entries : (rounds i lvl2_entry : ℕ) → Cmd (Unit {0})
invalidate_entries zero i lvl2_entry = nothing
invalidate_entries (suc rounds) i lvl2_entry = do
  m ← state
  set_invalid_entry (get_address_sg1 (m.word lvl2_entry) + i * 8)
  invalidate_entries rounds (i + 1) lvl2_entry

unfoldable pub init_new_lvl3_table : ℕ → Cmd (Unit {0})
init_new_lvl3_table lvl2_entry = do
  set_identifier_table_entry lvl2_entry
  m ← state
  require (is_table_entry (m.word lvl2_entry))
  invalidate_entries 512 0 lvl2_entry

-- The branch of `bind_address` on a page whose entry is at `lvl3_entry`.
unfoldable pub bind_entry : (lvl3_entry physical_addr : ℕ) → BlockAttributes → Cmd ℕ
bind_entry lvl3_entry physical_addr ba = do
  init_block_and_page_entry_sg1 lvl3_entry physical_addr ba
  m ← state
  if leb m.id_paging_size physical_addr then increment_bind_counter physical_addr else nothing
  give 0

-- The recursive call has fuel.
unfoldable pub bind_address : (fuel virtual_addr physical_addr : ℕ) → BlockAttributes → Cmd ℕ
bind_address zero virtual_addr physical_addr ba = λ _. stuck
bind_address (suc fuel) virtual_addr physical_addr ba =
    let again = bind_address fuel virtual_addr physical_addr ba in
    if not (bit_and physical_addr (mask 11 0) == 0) then give 4 else do
      m ← state
      let lvl3_entry = get_lvl3_entry_phys_address m virtual_addr
      if status_of lvl3_entry == 0
          then bind_entry lvl3_entry physical_addr ba
          else if status_of lvl3_entry == 5
          then init_new_lvl3_table (get_lvl2_table_entry_phys_address m virtual_addr) >> again
          else give (to_int lvl3_entry)

unfoldable pub get_new_page : (virtual_address block_perm cache_config : ℕ) → Cmd ℕ
unfolding new_block_attributes_sg1
get_new_page virtual_address block_perm cache_config = do
  physical_address ← get_unbound_physical_page
  bind_address 2 virtual_address physical_address (new_block_attributes_sg1 block_perm cache_config)
