-- ===== src/Mmu/Entry.antt =====
-- Table and page entries.
pub mod Fields
pub mod TableFields
use sysres_os.Base.{
  ℕ, ◌+◌, ◌-◌, ◌*◌, ◌/◌, ◌%◌, ◌^◌, Bool, ltb, ◌==◌, ◌&&◌, ◌||◌, if◌then◌else◌, bit_and, bit_or, u64,
}
use sysres_os.Step.{◌>>=◌, ◌>>◌, state}
use sysres_os.Mmu.State.{mask, BlockAttributes, TableAttributes, Cmd, store, kernel_page, io_page}

unfoldable pub new_block_attributes_sg1 : (perm_config cache_config : ℕ) → BlockAttributes
new_block_attributes_sg1 perm_config cache_config = record {
  uxn = bit_and (perm_config / 2 ^ 3) 1;
  pxn = bit_and (perm_config / 2 ^ 2) 1;
  continuous_bit = 0;
  dirty_bit = 0;
  not_global =
      if bit_and perm_config (mask 3 0) == kernel_page
        || (bit_and perm_config (mask 3 0) == io_page)
      then 0
      else 1;
  access_flag = bit_and (perm_config / 2 ^ 4) 1;
  shareability = 0;
  access_permission = bit_and perm_config 3;
  non_secure = 1;
  attr_index = cache_config;
}

-- The word that `set_block_and_page_attributes_sg1` writes over a word.
unfoldable pub with_attributes : ℕ → BlockAttributes → ℕ
with_attributes entr bas1 =
    let entr1 = bit_and entr (mask 47 12) in
    let entr2 = bit_or entr1 (bit_and bas1.uxn 1 * 2 ^ 54) in
    let entr3 = bit_or entr2 (bit_and bas1.pxn 1 * 2 ^ 53) in
    let entr4 = bit_or entr3 (bit_and bas1.continuous_bit 1 * 2 ^ 52) in
    let entr5 = bit_or entr4 (bit_and bas1.dirty_bit 1 * 2 ^ 51) in
    let entr6 = bit_or entr5 (bit_and bas1.not_global 1 * 2 ^ 11) in
    let entr7 = bit_or entr6 (bit_and bas1.access_flag 1 * 2 ^ 10) in
    let entr8 = bit_or entr7 (bit_and bas1.shareability 3 * 2 ^ 8) in
    let entr9 = bit_or entr8 (bit_and bas1.access_permission 3 * 2 ^ 6) in
    let entr10 = bit_or entr9 (bit_and bas1.non_secure 1 * 2 ^ 5) in
    let entr11 = bit_or entr10 (bit_and bas1.attr_index 1 * 2 ^ 2) in bit_or entr11 3

unfoldable pub set_block_and_page_attributes_sg1 : ℕ → BlockAttributes → Cmd (Unit {0})
set_block_and_page_attributes_sg1 addr bas1 = do
  m ← state
  store addr (with_attributes (m.word addr) bas1)

-- The word with the address of a page or table in place of its own.
unfoldable pub with_inner : ℕ → ℕ → ℕ
with_inner entr inner_addr =
    bit_or (bit_and entr (bit_or (mask 63 48) (mask 11 0))) (bit_and inner_addr (mask 35 0))

unfoldable pub init_block_and_page_entry_sg1 :
    (entry_addr inner_addr : ℕ) → BlockAttributes → Cmd (Unit {0})
init_block_and_page_entry_sg1 entry_addr inner_addr ba = do
  m ← state
  store entry_addr (with_inner (m.word entry_addr) inner_addr)
  set_block_and_page_attributes_sg1 entry_addr ba

unfoldable pub set_entry_dirty_bit : ℕ → Cmd (Unit {0})
set_entry_dirty_bit entry_addr = do
  m ← state
  store entry_addr (bit_or (m.word entry_addr) (2 ^ 51))

unfoldable pub set_entry_access_flag : ℕ → Cmd (Unit {0})
set_entry_access_flag entry_addr = do
  m ← state
  store entry_addr (bit_or (m.word entry_addr) (2 ^ 10))

-- `~(1 << 10)` is an `int`, sign-extended.
unfoldable pub clear_entry_access_flag : ℕ → Cmd (Unit {0})
clear_entry_access_flag entry_addr = do
  m ← state
  store entry_addr (bit_and (m.word entry_addr) (u64 - 1 - 2 ^ 10))

unfoldable pub set_invalid_entry : ℕ → Cmd (Unit {0})
set_invalid_entry entry_addr = do
  m ← state
  store entry_addr (bit_and (m.word entry_addr) (mask 63 1))

unfoldable pub set_identifier_table_entry : ℕ → Cmd (Unit {0})
set_identifier_table_entry entry_addr = do
  m ← state
  store entry_addr (bit_or (m.word entry_addr) 3)

abbrev pub new_table_attributes_sg1 : TableAttributes
new_table_attributes_sg1 = record { ns_table = 1; ap_table = 0; uxn_table = 0; pxn_table = 0 }

-- The word that `set_table_attributes_sg1` writes over a word.
unfoldable pub with_table_attributes : ℕ → TableAttributes → ℕ
with_table_attributes entry ta1 =
    let entry1 = bit_and entry (mask 58 0) in
    let entry2 = bit_or entry1 (bit_and ta1.ns_table 1 * 2 ^ 63) in
    let entry3 = bit_or entry2 (bit_and ta1.ap_table 3 * 2 ^ 61) in
    let entry4 = bit_or entry3 (bit_and ta1.uxn_table 1 * 2 ^ 60) in
    let entry5 = bit_or entry4 (bit_and ta1.pxn_table 1 * 2 ^ 59) in bit_or entry5 3

unfoldable pub set_table_attributes_sg1 : ℕ → TableAttributes → Cmd (Unit {0})
set_table_attributes_sg1 addr ta1 = do
  m ← state
  store addr (with_table_attributes (m.word addr) ta1)

unfoldable pub init_table_entry_sg1 : (entry_addr inner_addr : ℕ) → Cmd (Unit {0})
init_table_entry_sg1 entry_addr inner_addr = do
  m ← state
  store entry_addr (with_inner (m.word entry_addr) inner_addr)
  set_table_attributes_sg1 entry_addr new_table_attributes_sg1

-- `get_address_sg1`, of the word at the entry's address.
unfoldable pub get_address_sg1 : ℕ → ℕ
get_address_sg1 entry = bit_and entry (mask 47 12)

unfoldable pub is_block_entry : ℕ → ℕ → Bool
is_block_entry entry lvl =
    ltb lvl 3 && (bit_and entry (mask 1 0) == 1) || ((lvl == 3) && (bit_and entry (mask 1 0) == 3))

unfoldable pub is_table_entry : ℕ → Bool
is_table_entry entry = bit_and entry (mask 1 0) == 3
