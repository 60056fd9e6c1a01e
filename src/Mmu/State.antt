-- ===== src/Mmu/State.antt =====
-- The state of src/memory/mmu.c, and the constants of mmu.h, alloc.h, uart.h and timer.h it uses.
use sysres_os.Base.{ℕ, ◌+◌, ◌-◌, ◌*◌, ◌^◌}
use sysres_os.Proc.Run.{update}
use sysres_os.Step.{Action, revise}

-- `MASK(f, t)`: ones from digit `t` to digit `f`.
abbrev pub mask : ℕ → ℕ → ℕ
mask f t = 2 ^ (f + 1) - 2 ^ t

abbrev pub ram_size : ℕ
ram_size = 1073741824

abbrev pub page_size : ℕ
page_size = 0x1000

abbrev pub n_table_entries : ℕ
n_table_entries = 512

abbrev pub gpio_base : ℕ
gpio_base = 0x3f200000

abbrev pub timer_irq_page : ℕ
timer_irq_page = 0x3f00b000

abbrev pub stack_end : ℕ
stack_end = gpio_base - 2 * page_size

abbrev pub stack_page_1 : ℕ
stack_page_1 = gpio_base - 1 * page_size

abbrev pub stack_page_2 : ℕ
stack_page_2 = gpio_base - 2 * page_size

abbrev pub page_res_1 : ℕ
page_res_1 = stack_end - 1 * page_size

abbrev pub page_res_2 : ℕ
page_res_2 = stack_end - 2 * page_size

-- `enum block_perm_config`
abbrev pub access_flag_set : ℕ
access_flag_set = 16

abbrev pub kernel_page : ℕ
kernel_page = 0

abbrev pub user_page : ℕ
user_page = 1

abbrev pub code_page : ℕ
code_page = 3

abbrev pub forked_page : ℕ
forked_page = 3

abbrev pub io_page : ℕ
io_page = 9

abbrev pub data_page : ℕ
data_page = 9

-- `enum block_cache_config`, as far as it is used.
abbrev pub device : ℕ
device = 0

abbrev pub normal_wt_nt : ℕ
normal_wt_nt = 1

pub record BlockAttributes : Type 0 where
  pub uxn : ℕ
  pub pxn : ℕ
  pub continuous_bit : ℕ
  pub dirty_bit : ℕ
  pub not_global : ℕ
  pub access_flag : ℕ
  pub shareability : ℕ
  pub access_permission : ℕ
  pub non_secure : ℕ
  pub attr_index : ℕ

pub record TableAttributes : Type 0 where
  pub ns_table : ℕ
  pub ap_table : ℕ
  pub uxn_table : ℕ
  pub pxn_table : ℕ

-- `struct physical_memory_map_t`, with the numbers at `map` and the address of the counters.
pub record PhysicalMap : Type 0 where
  pub map : ℕ → ℕ
  pub map_address : ℕ
  pub head : ℕ
  pub size : ℕ
  pub bind_counter_offset : ℕ
  pub bind_counter : ℕ

-- The static variables of mmu.c, the 64-bit word at each address of the translation tables, and the
-- byte at each other physical address: the three areas do not overlap.
pub record Mmu : Type 0 where
  pub lvl2_table_address : ℕ
  pub id_paging_size : ℕ
  pub word : ℕ → ℕ
  pub byte : ℕ → ℕ
  pub pages : PhysicalMap

abbrev pub Cmd : Type 0 → Type 0
Cmd A = Action Mmu A

-- `AT(address) = v`
abbrev pub store : ℕ → ℕ → Cmd (Unit {0})
store address v = revise (λ m. record m { word = update m.word address v })

abbrev pub store_byte : ℕ → ℕ → Cmd (Unit {0})
store_byte address v = revise (λ m. record m { byte = update m.byte address v })

abbrev pub set_lvl2_address : ℕ → Cmd (Unit {0})
set_lvl2_address address = revise (λ m. record m { lvl2_table_address = address })
