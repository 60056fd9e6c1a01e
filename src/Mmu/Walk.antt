-- ===== src/Mmu/Walk.antt =====
-- The walk through the translation tables.
pub mod Layout
use sysres_os.Base.{ℕ, ◌*◌, ◌/◌, ◌^◌, not, ◌==◌, ◌||◌, if◌then◌else◌, bit_and, add64}
use sysres_os.Step.{◌>>=◌, ◌>>◌, state, require, give}
use sysres_os.Mmu.State.{mask, Mmu, Cmd}
use sysres_os.Mmu.Entry.{get_address_sg1, is_table_entry, set_invalid_entry, set_entry_access_flag}

-- The address of the entry, or an error code from 1 to 5, whose low three digits are not 0.
unfoldable pub get_lvl2_table_entry_phys_address : Mmu → ℕ → ℕ
get_lvl2_table_entry_phys_address m virtual_addr =
    if not (bit_and virtual_addr (mask 47 30) == 0)
    then 2
    else if bit_and virtual_addr (mask 63 48) == mask 63 48
    then 1
    else if not (bit_and virtual_addr (mask 63 48) == 0)
    then 1
    else if not (bit_and m.lvl2_table_address (mask 16 0) == 0)
    then 3
    else add64 m.lvl2_table_address (8 * (bit_and virtual_addr (mask 29 21) / 2 ^ 21))

unfoldable pub get_lvl3_entry_phys_address : Mmu → ℕ → ℕ
get_lvl3_entry_phys_address m virtual_addr =
    let lvl2_entry = get_lvl2_table_entry_phys_address m virtual_addr in
    if not (bit_and lvl2_entry (mask 2 0) == 0)
    then lvl2_entry
    else if not (is_table_entry (m.word lvl2_entry))
    then 5
    else add64 (get_address_sg1 (m.word lvl2_entry))
        (8 * (bit_and virtual_addr (mask 20 12) / 2 ^ 12))

abbrev pub status_of : ℕ → ℕ
status_of address = bit_and address (mask 2 0)

unfoldable pub set_invalid_page : ℕ → Cmd (Unit {0})
set_invalid_page virtual_addr = do
  m ← state
  let lvl3_entry = get_lvl3_entry_phys_address m virtual_addr
  require (status_of lvl3_entry == 0)
  set_invalid_entry lvl3_entry

unfoldable pub set_page_access_flag : ℕ → Cmd (Unit {0})
set_page_access_flag virtual_addr = do
  m ← state
  let lvl3_entry = get_lvl3_entry_phys_address m virtual_addr
  require (status_of lvl3_entry == 0)
  set_entry_access_flag lvl3_entry

unfoldable pub get_physical_address : ℕ → Cmd ℕ
get_physical_address virtual_addr = do
  m ← state
  let lvl3_entry = get_lvl3_entry_phys_address m virtual_addr
  require (status_of lvl3_entry == 0)
  give (add64 (get_address_sg1 (m.word lvl3_entry)) (bit_and virtual_addr (mask 11 0)))

unfoldable pub get_asid_from_ttbr0 : ℕ → ℕ
get_asid_from_ttbr0 ttbr0_el1 = bit_and ttbr0_el1 (mask 63 48) / 2 ^ 48

unfoldable pub get_lvl2_table_address_from_ttbr0 : ℕ → ℕ
get_lvl2_table_address_from_ttbr0 ttbr0_el1 = bit_and ttbr0_el1 (mask 47 1)
