-- ===== src/Mmu/Walk/Layout.antt =====
-- The tables as `populate_lvl2_table` lays them out, and the walk through them.
use sysres_os.Base.{
  ℕ, ◌+◌, ◌*◌, ◌/◌, ◌%◌, ◌^◌, ◌<◌, ◌≤◌, ◌≡◌, ◌∙◌, refl, Bool, true, false, ◌==◌, ◌&&◌,
  if◌then◌else◌, Option, none, some, bit_and, u64, add64, arith, and_field,
}
use sysres_os.Step.{returns}
use sysres_os.Mmu.State.{mask, Mmu}
use sysres_os.Mmu.Entry.{get_address_sg1}
use sysres_os.Mmu.Entry.Fields.{page_of, get_address_lem, table_bits}
use sysres_os.Mmu.Walk.{
  get_lvl2_table_entry_phys_address, get_lvl3_entry_phys_address, status_of, get_physical_address,
}

-- Table `i` of level 3 lies `i + 1` pages behind the table of level 2. The last entry of the table of
-- level 2 has none.
pub record IsLaidOut (m : Mmu) : Type 0 where
  pub aligned : m.lvl2_table_address % 2 ^ 17 ≡ 0
  pub low : m.lvl2_table_address + 2 ^ 21 ≤ 2 ^ 36
  pub tables :
      (i : ℕ)
      → i < 511
      → page_of (m.word (m.lvl2_table_address + 8 * i)) * 2 ^ 12
        ≡ m.lvl2_table_address + (i + 1) * 2 ^ 12
  pub words : (x : ℕ) → m.word x < u64

-- The number of virtual pages that have an entry.
abbrev pub n_pages : ℕ
n_pages = 511 * 512

-- The addresses of the entries of a virtual page.
abbrev pub table_slot : Mmu → ℕ → ℕ
table_slot m v = m.lvl2_table_address + 8 * (v / 512)

abbrev pub page_slot : Mmu → ℕ → ℕ
page_slot m v = m.lvl2_table_address + (v / 512 + 1) * 2 ^ 12 + 8 * (v % 512)

abbrev pub valid : ℕ → Bool
valid entry = entry % 4 == 3

-- The physical page that a virtual page is bound to.
abbrev pub page_at : Mmu → ℕ → Option ℕ
page_at m v =
    if valid (m.word (table_slot m v)) && valid (m.word (page_slot m v))
    then some (page_of (m.word (page_slot m v)))
    else none

module _ (m : Mmu) (l : IsLaidOut m) (virtual_addr : ℕ)
    (inside : virtual_addr < n_pages * 2 ^ 12) where
  abbrev v : ℕ
  v = virtual_addr / 2 ^ 12

  pub lvl2_lem : get_lvl2_table_entry_phys_address m virtual_addr ≡ table_slot m v
  unfolding get_lvl2_table_entry_phys_address
  lvl2_lem =
      let a : bit_and virtual_addr (mask 47 30) ≡ 0 = omega (arith, and_field 18 30 virtual_addr) in
      let b : bit_and virtual_addr (mask 63 48) ≡ 0 = omega (arith, and_field 16 48 virtual_addr) in
      let c : bit_and m.lvl2_table_address (mask 16 0) ≡ 0 =
        omega (arith, and_field 17 0 m.lvl2_table_address, l.aligned) in
      let d : bit_and virtual_addr (mask 29 21) / 2 ^ 21 ≡ v / 512 =
        omega (arith, and_field 9 21 virtual_addr) in
      rw (a, b, c, d) (omega (arith, l.low))

  status_zero : (x : ℕ) → x % 8 ≡ 0 → status_of x ≡ 0
  status_zero x h = omega (arith, and_field 3 0 x)

  pub lvl3_mapped :
      valid (m.word (table_slot m v)) ≡ true
      → get_lvl3_entry_phys_address m virtual_addr ≡ page_slot m v
  unfolding get_lvl3_entry_phys_address
  lvl3_mapped ok =
      let st = status_zero (table_slot m v) (omega (arith, l.aligned)) in
      let a : get_address_sg1 (m.word (table_slot m v))
          ≡ m.lvl2_table_address + (v / 512 + 1) * 2 ^ 12 =
        get_address_lem (m.word (table_slot m v)) ∙ l.tables (v / 512) (omega arith) in
      let d : bit_and virtual_addr (mask 20 12) / 2 ^ 12 ≡ v % 512 =
        omega (arith, and_field 9 12 virtual_addr) in
      rw (lvl2_lem, st, table_bits (m.word (table_slot m v)), ok, a, d) (omega (arith, l.low))

  pub lvl3_unmapped :
      valid (m.word (table_slot m v)) ≡ false → get_lvl3_entry_phys_address m virtual_addr ≡ 5
  unfolding get_lvl3_entry_phys_address
  lvl3_unmapped bad =
      let st = status_zero (table_slot m v) (omega (arith, l.aligned)) in
      rw (lvl2_lem, st, table_bits (m.word (table_slot m v)), bad) refl

  pub slot_status : status_of (page_slot m v) ≡ 0
  slot_status = status_zero (page_slot m v) (omega (arith, l.aligned))

  -- The physical address of an address in a bound page is that of the page plus the offset.
  pub get_physical_address-refines :
      (p : ℕ)
      → page_at m v ≡ some p
      → get_physical_address virtual_addr m ≡ returns (p * 2 ^ 12 + virtual_addr % 2 ^ 12) m
  unfolding get_physical_address
  get_physical_address-refines p h =
      let ok : valid (m.word (table_slot m v)) ≡ true = ground (arith, h) in
      let page : page_of (m.word (page_slot m v)) ≡ p = ground (arith, h) in
      let a : get_address_sg1 (m.word (page_slot m v)) ≡ p * 2 ^ 12 =
        omega (arith, get_address_lem (m.word (page_slot m v)), page) in
      let b : bit_and virtual_addr (mask 11 0) ≡ virtual_addr % 2 ^ 12 =
        omega (arith, and_field 12 0 virtual_addr) in
      let c : add64 (p * 2 ^ 12) (virtual_addr % 2 ^ 12) ≡ p * 2 ^ 12 + virtual_addr % 2 ^ 12 =
        omega (arith, page) in
      rw (lvl3_mapped ok, slot_status, a, b, c) refl
