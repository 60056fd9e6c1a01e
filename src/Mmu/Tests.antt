-- ===== src/Mmu/Tests.antt =====
-- Tables with one page bound, and the theorems of the memory management unit at them.
use sysres_os.Base.{
  ℕ, ◌+◌, ◌*◌, ◌/◌, ◌%◌, ◌^◌, ◌<◌, ◌≡◌, refl, true, ltb, leb, ◌==◌, ◌&&◌, if◌then◌else◌, arith,
}
use sysres_os.Step.{◌>>◌, returns}
use sysres_os.Mmu.State.{Mmu, BlockAttributes}
use sysres_os.Mmu.Entry.{with_attributes}
use sysres_os.Mmu.Entry.Fields.{with_attributes_lem}
use sysres_os.Mmu.Walk.{get_physical_address}
use sysres_os.Mmu.Walk.Layout.{IsLaidOut, n_pages, page_at, valid, get_physical_address-refines}
use sysres_os.Mmu.Pages.{get_bind_counter, get_bind_counter_address, fill_map}
use sysres_os.Mmu.Pages.Initial.{fill_map-steps_over}
use sysres_os.Mmu.Bind.{bind_address, get_new_page}
use sysres_os.Mmu.Bind.Entry.{Binds}
use sysres_os.Mmu.Bind.Fresh.{bind_address-refines}
use sysres_os.Mmu.Bind.NewPage.{taken, get_new_page-refines}
use sysres_os.Mmu.Bind.Rejects.{bind_address-rejects}
use sysres_os.Mmu.Tables.{bind_identity, check_identity_paging, populate_lvl2_table}
use sysres_os.Mmu.Tables.Identity.{IsIdentity, bind_identity-check_identity_paging}
use sysres_os.Mmu.Tables.Layout.{populate_lvl2_table-IsLaidOut}
use sysres_os.Mmu.Sync.{c_sync_handler}
use sysres_os.Mmu.Sync.Write.{writable, c_sync_handler-writable}
use sysres_os.Mmu.Free.{free_virtual_page}
use sysres_os.Mmu.Free.Page.{Unbinds, free_virtual_page-refines}

-- The entries of level 2, and the page 300 at the first entry of level 3.
abbrev words : ℕ → ℕ
words x =
    if ltb x 4088 && (x % 8 == 0)
    then (x / 8 + 1) * 4096 + 3
    else if x == 4096
    then 300 * 4096 + 3
    else 0

-- A kernel of 256 pages, with counters of 1.
abbrev mmu : Mmu
mmu = record {
  lvl2_table_address = 0;
  id_paging_size = 256 * 4096;
  word = words;
  byte = λ x. 1;
  pages = record {
    map = λ x. 300 * 4096;
    map_address = 0x40000;
    head = 5;
    size = 100;
    bind_counter_offset = 256;
    bind_counter = 0x80000;
  };
}

IsLaidOut-mmu : IsLaidOut mmu
IsLaidOut-mmu = record {
  aligned = refl;
  low = omega arith;
  tables = λ i h. ground (arith, h);
  words = λ x. ground arith;
}

abbrev attributes : BlockAttributes
attributes = record {
  uxn = 1;
  pxn = 0;
  continuous_bit = 0;
  dirty_bit = 0;
  not_global = 1;
  access_flag = 1;
  shareability = 0;
  access_permission = 1;
  non_secure = 1;
  attr_index = 1;
}

with_attributes_lem_example :
    with_attributes 0x12c003 attributes
    ≡ 2 ^ 54 + 0x12c * 2 ^ 12 + 2 ^ 11 + 2 ^ 10 + 2 ^ 6 + 2 ^ 5 + 2 ^ 2 + 3
with_attributes_lem_example = with_attributes_lem 0x12c003 attributes

get_physical_address-refines_example :
    get_physical_address 0x123 mmu ≡ returns (300 * 2 ^ 12 + 0x123) mmu
get_physical_address-refines_example =
    get_physical_address-refines mmu IsLaidOut-mmu 0x123 (omega arith) 300 refl

bind_address-refines_example :
    (s' : Mmu) × (bind_address 2 0x200123 (301 * 2 ^ 12) attributes mmu ≡ returns 0 s')
    × Binds mmu 512 301 s'
unfolding get_bind_counter_address
bind_address-refines_example =
    bind_address-refines mmu IsLaidOut-mmu 0x200123 301 (omega arith) (omega arith) attributes
      (λ h. omega arith)

bind_address-rejects_example : bind_address 1 0x80000000 0x1000 attributes mmu ≡ returns 2 mmu
bind_address-rejects_example =
    bind_address-rejects mmu 0x80000000 0x1000 (omega arith) attributes 0 refl

get_new_page-refines_example :
    (s' : Mmu) × (get_new_page 0x200000 1 1 mmu ≡ returns 0 s') × Binds (taken mmu) 512 300 s'
unfolding get_bind_counter_address
get_new_page-refines_example =
    get_new_page-refines mmu IsLaidOut-mmu 0x200000 300 (omega arith) (omega arith) (omega arith)
      (omega arith) refl (λ h. omega arith) 1 1

free_virtual_page-refines_example :
    (s' : Mmu) × (free_virtual_page 0x123 mmu ≡ returns 0 s') × Unbinds mmu 0 300 s'
unfolding get_bind_counter
free_virtual_page-refines_example =
    free_virtual_page-refines mmu IsLaidOut-mmu 0x123 300 (omega arith) (omega arith) refl
      (omega arith) (omega arith) (omega arith) (omega arith)

-- The same state with counters of 0.
abbrev idle : Mmu
idle = record mmu { byte = λ x. 0 }

-- With 1000 pages behind a kernel that ends 10 pages before the timer's page, and their entry 11.
fill_map-steps_over_example :
    fill_map 1000 0 0 (258049 * 0x1000) 0 (λ x. 0) 11 ≡ (258049 + 11 + 1) * 0x1000
fill_map-steps_over_example =
    fill_map-steps_over 258049 1000 (λ x. 0) (omega arith) (omega arith) 11

-- A kernel of two pages.
abbrev small : Mmu
small = record mmu { id_paging_size = 2 * 4096 }

IsLaidOut-small : IsLaidOut small
IsLaidOut-small = record {
  aligned = refl;
  low = omega arith;
  tables = IsLaidOut-mmu.tables;
  words = IsLaidOut-mmu.words;
}

bind_identity-check_identity_paging_example :
    (s' : Mmu) × ((bind_identity 2 0 attributes >> check_identity_paging) small ≡ returns tt s')
    × IsIdentity small 0 2 s'
bind_identity-check_identity_paging_example =
    bind_identity-check_identity_paging 2 small attributes IsLaidOut-small (omega arith) refl

-- A state with empty tables.
abbrev empty : Mmu
empty = record mmu { word = λ x. 0 }

populate_lvl2_table-IsLaidOut_example :
    (w : ℕ → ℕ) × (populate_lvl2_table 4096 empty ≡ returns tt (record empty { word = w }))
    × IsLaidOut (record empty { word = w })
    × ((i : ℕ) → i < 511 → valid (w (0 + 8 * i)) ≡ true)
    × ((x : ℕ) → ltb x 0 ≡ true → w x ≡ 0)
    × ((x : ℕ) → leb 4088 x ≡ true → w x ≡ 0)
populate_lvl2_table-IsLaidOut_example =
    populate_lvl2_table-IsLaidOut empty refl (omega arith) (λ x. omega arith)

-- The class of a data abort from a process and the code of a permission fault, at page 0 of a kernel
-- without pages.
abbrev bare : Mmu
bare = record mmu { id_paging_size = 0 }

IsLaidOut-bare : IsLaidOut bare
IsLaidOut-bare = record {
  aligned = refl;
  low = omega arith;
  tables = IsLaidOut-mmu.tables;
  words = IsLaidOut-mmu.words;
}

c_sync_handler-writable_example :
    (c_sync_handler (λ x. 0) 0 0 5 (36 * 2 ^ 26 + 15) 0x123 bare
      ≡ returns tt (writable bare IsLaidOut-bare 0x123 300 (omega arith) refl))
    × ((x : ℕ)
        → x < n_pages
        → page_at (writable bare IsLaidOut-bare 0x123 300 (omega arith) refl) x ≡ page_at bare x)
    × ((writable bare IsLaidOut-bare 0x123 300 (omega arith) refl).word 4096 / 2 ^ 6 % 4 ≡ 1)
unfolding get_bind_counter
c_sync_handler-writable_example =
    c_sync_handler-writable bare IsLaidOut-bare 0x123 300 (omega arith) refl refl (λ x. 0) 0 0 5
      (36 * 2 ^ 26 + 15) (omega arith) (omega arith) (omega arith) (omega arith)
