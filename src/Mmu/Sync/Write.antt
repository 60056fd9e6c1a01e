-- ===== src/Mmu/Sync/Write.antt =====
-- A write from user mode to a shared page that nothing else has any more, in the tables whose address
-- `lvl2_table_address` holds.
use sysres_os.Base.{
  ℕ, ◌+◌, ◌*◌, ◌/◌, ◌%◌, ◌^◌, ◌<◌, ◌≤◌, ◌≡◌, refl, true, false, ltb, ◌==◌, if◌then◌else◌, some,
  bit_and, bit_or, arith, and_field, Bool-cases, inl, inr,
}
use sysres_os.Proc.Run.{update}
use sysres_os.Step.{returns, panics}
use sysres_os.Mmu.State.{
  mask, Mmu, BlockAttributes, gpio_base, user_page, access_flag_set, normal_wt_nt,
}
use sysres_os.Mmu.Entry.{
  new_block_attributes_sg1, with_attributes, set_block_and_page_attributes_sg1,
}
use sysres_os.Mmu.Entry.Fields.{page_of, with_attributes_lem}
use sysres_os.Mmu.Walk.Layout.{
  IsLaidOut, n_pages, table_slot, page_slot, valid, page_at, lvl3_mapped,
  get_physical_address-refines,
}
use sysres_os.Mmu.Pages.{get_bind_counter}
use sysres_os.Mmu.Fault.{permission_fault_handler, handle_shared_page_write}
use sysres_os.Mmu.Sync.{data_abort_handler, c_sync_handler}

-- The permissions that user mode gets back.
abbrev pub user_attributes : BlockAttributes
unfolding new_block_attributes_sg1
user_attributes = new_block_attributes_sg1 (bit_or user_page access_flag_set) normal_wt_nt

permission : user_attributes.access_permission % 4 ≡ 1
unfolding new_block_attributes_sg1
permission = refl

module _ (s : Mmu) (l : IsLaidOut s) (far p : ℕ) (inside : far < n_pages * 2 ^ 12)
    (bound : page_at s (far / 2 ^ 12) ≡ some p) where
  abbrev v : ℕ
  v = far / 2 ^ 12

  abbrev entry : ℕ
  entry = with_attributes (s.word (page_slot s v)) user_attributes

  abbrev pub writable : Mmu
  writable = record s { word = update s.word (page_slot s v) entry }

  same_page : page_of entry ≡ page_of (s.word (page_slot s v))
  same_page = omega (arith, with_attributes_lem (s.word (page_slot s v)) user_attributes)

  entry-valid : valid entry ≡ true
  entry-valid =
      let low : entry % 4 ≡ 3 =
        omega (arith, with_attributes_lem (s.word (page_slot s v)) user_attributes) in
      ground (arith, low)

  slot-valid : valid (s.word (page_slot s v)) ≡ true
  slot-valid = ground (arith, bound)

  same_map : (x : ℕ) → x < n_pages → page_at writable x ≡ page_at s x
  same_map x h = elim (Bool-cases (page_slot s x == page_slot s v)) [
    | inl e ↦
        let at : page_slot s x ≡ page_slot s v = ground arith in
        let kept : (table_slot s x == page_slot s v) ≡ false = ground arith in
        let self : (page_slot s v == page_slot s v) ≡ true = ground arith in
        rw (kept, at, self, same_page, entry-valid, slot-valid) refl
    | inr ne ↦
        let kept : (table_slot s x == page_slot s v) ≡ false = ground arith in rw (kept, ne) refl
  ]

  entry_permission : writable.word (page_slot s v) / 2 ^ 6 % 4 ≡ 1
  entry_permission =
      let at : writable.word (page_slot s v) ≡ entry = ground arith in
      omega (arith, at, with_attributes_lem (s.word (page_slot s v)) user_attributes, permission)

  module _ (alone : get_bind_counter s (p * 2 ^ 12 + far % 2 ^ 12) ≡ 1) where
    -- The entry is at a multiple of 64 for each eighth page.
    entry_place : (bit_and (page_slot s v) (mask 5 0) == 0) ≡ (v % 8 == 0)
    entry_place = ground (arith, and_field 6 0 (page_slot s v), l.aligned)

    run_write :
        handle_shared_page_write far true s ≡ (if v % 8 == 0 then returns tt writable else panics)
    unfolding handle_shared_page_write set_block_and_page_attributes_sg1 new_block_attributes_sg1
        user_attributes
    run_write =
        let used : valid (s.word (table_slot s v)) ≡ true = ground (arith, bound) in
        rw
          (
            get_physical_address-refines s l far inside p bound,
            alone,
            lvl3_mapped s l far inside used,
            entry_place,
          )
          (elim (Bool-cases (v % 8 == 0)) [ inl e ↦ rw e refl | inr e ↦ rw e refl ])

    -- A permission fault from user mode, of whatever process, at a page between the kernel's pages and
    -- GPIO_BASE that is bound once, in the tables whose address `lvl2_table_address` holds: the handler
    -- does not set that variable to the tables of the process. Where the number of the page is a
    -- multiple of 8, the page gets user mode's permission to write, and every page of these tables stays
    -- bound as it was. For the other pages the kernel panics, since the address of the entry is tested
    -- for six zero digits, and it has three.
    pub c_sync_handler-writable :
        (tables : ℕ → ℕ) (heap_begin end_offset pid esr : ℕ)
        → esr / 2 ^ 26 % 2 ^ 6 ≡ 36
        → esr % 2 ^ 6 ≡ 15
        → s.id_paging_size ≤ far
        → far ≤ gpio_base
        → (c_sync_handler tables heap_begin end_offset pid esr far s
            ≡ (if v % 8 == 0 then returns tt writable else panics))
          × ((x : ℕ) → x < n_pages → page_at writable x ≡ page_at s x)
          × (writable.word (page_slot s v) / 2 ^ 6 % 4 ≡ 1)
    unfolding c_sync_handler data_abort_handler permission_fault_handler
    c_sync_handler-writable tables heap_begin end_offset pid esr class code low high =
        let abort_class : bit_and esr 0xfc000000 / 2 ^ 26 ≡ 36 =
          omega (arith, and_field 6 26 esr, class) in
        let abort_code : bit_and esr (mask 5 0) ≡ 15 = omega (arith, and_field 6 0 esr, code) in
        let above : ltb far s.id_paging_size ≡ false = ground (arith, low) in
        let below : ltb gpio_base far ≡ false = ground (arith, high) in
        (rw (abort_class, abort_code, above, below) run_write, same_map, entry_permission)
