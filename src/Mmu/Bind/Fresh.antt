-- ===== src/Mmu/Bind/Fresh.antt =====
-- A table of level 3 that is taken into use, and `bind_address` on any page.
use mathlib.Core.Path.{fun_ext}
use sysres_os.Base.{
  ℕ, zero, suc, ◌+◌, ◌-◌, ◌*◌, ◌/◌, ◌%◌, ◌^◌, ◌<◌, ◌≤◌, ◌≡◌, ap, ◌∙◌, refl, true, false, ltb, leb,
  ◌==◌, ◌&&◌, if◌then◌else◌, bit_and, u64, arith, and_field, Bool-cases, inl, inr,
}
use sysres_os.Proc.Run.{update}
use sysres_os.Step.{returns}
use sysres_os.Mmu.State.{mask, Mmu, BlockAttributes}
use sysres_os.Mmu.Entry.{
  set_invalid_entry, set_identifier_table_entry, get_address_sg1, is_table_entry,
}
use sysres_os.Mmu.Entry.Fields.{page_of, get_address_lem, table_bits, invalid_lem, identifier_lem}
use sysres_os.Mmu.Walk.Layout.{
  IsLaidOut, n_pages, table_slot, page_slot, valid, page_at, lvl2_lem, lvl3_unmapped,
}
use sysres_os.Mmu.Pages.{get_bind_counter_address, get_bind_counter}
use sysres_os.Mmu.Bind.{bind_address, invalidate_entries, init_new_lvl3_table}
use sysres_os.Mmu.Bind.Entry.{Binds, bound, bound-Binds, bind_mapped}

-- The words with `n` entries from the `i`th of the table at `t` on made invalid.
abbrev wiped : (t i n : ℕ) → (ℕ → ℕ) → ℕ → ℕ
wiped t i n w x =
    if leb (t + i * 8) x && (ltb x (t + (i + n) * 8) && ((x - t) % 8 == 0))
    then w x / 2 * 2
    else w x

run_wiped :
    (n i t e : ℕ) (m : Mmu)
    → get_address_sg1 (m.word e) ≡ t
    → e < t
    → ((x : ℕ) → m.word x < u64)
    → invalidate_entries n i e m ≡ returns tt (record m { word = wiped t i n m.word })
unfolding invalidate_entries set_invalid_entry
run_wiped zero i t e m at low words =
    ap (λ (w : ℕ → ℕ). returns tt (record m { word = w })) (fun_ext λ x. ground arith)
run_wiped (suc n) i t e m at low words =
    let w = update m.word (t + i * 8) (m.word (t + i * 8) / 2 * 2) in
    let first = invalid_lem (m.word (t + i * 8)) (words (t + i * 8)) in
    let apart : (e == t + i * 8) ≡ false = ground arith in
    let rest =
      run_wiped n (i + 1) t e (record m { word = w }) (rw apart at) low
        (λ x. ground (arith, words x, words (t + i * 8))) in
    rw (at, first)
      (rest ∙ ap (λ (w : ℕ → ℕ). returns tt (record m { word = w })) (fun_ext λ x. ground arith))

module _ (s : Mmu) (l : IsLaidOut s) (va : ℕ) (inside : va < n_pages * 2 ^ 12)
    (unused : valid (s.word (table_slot s (va / 2 ^ 12))) ≡ false) where
  abbrev v : ℕ
  v = va / 2 ^ 12

  abbrev e : ℕ
  e = table_slot s v

  abbrev table : ℕ
  table = s.lvl2_table_address + (v / 512 + 1) * 2 ^ 12

  abbrev identified : ℕ → ℕ
  identified = update s.word e (s.word e / 4 * 4 + 3)

  abbrev fresh : Mmu
  fresh = record s { word = wiped table 0 512 identified }

  table_word :
      (i : ℕ)
      → i < 512
      → fresh.word (s.lvl2_table_address + 8 * i) ≡ identified (s.lvl2_table_address + 8 * i)
  table_word i h = ground arith

  other_table :
      (x : ℕ) → (x / 512 == v / 512) ≡ false → fresh.word (page_slot s x) ≡ s.word (page_slot s x)
  other_table x ne = ground arith

  in_table : (x : ℕ) → x / 512 ≡ v / 512 → valid (fresh.word (page_slot s x)) ≡ false
  in_table x eq =
      let at : page_slot s x ≡ table + (x % 512) * 8 = omega (arith, eq) in
      let inner : (leb (table + 0 * 8) (page_slot s x)
            && (ltb (page_slot s x) (table + (0 + 512) * 8) && ((page_slot s x - table) % 8 == 0)))
          ≡ true =
        rw at (ground arith) in
      rw inner (ground arith)

  same_page_at : (x : ℕ) → x < n_pages → page_at fresh x ≡ page_at s x
  same_page_at x h = elim (Bool-cases (x / 512 == v / 512)) [
    | inl e ↦
        let eq : x / 512 ≡ v / 512 = ground arith in
        let off : valid (s.word (table_slot s x)) ≡ false = rw eq unused in
        rw (in_table x eq, off) (ground arith)
    | inr ne ↦
        let same : identified (s.lvl2_table_address + 8 * (x / 512))
            ≡ s.word (s.lvl2_table_address + 8 * (x / 512)) =
          ground arith in
        rw (table_word (x / 512) (omega arith), same, other_table x ne) refl
  ]

  fresh_valid : valid (fresh.word e) ≡ true
  fresh_valid =
      let self : identified e ≡ s.word e / 4 * 4 + 3 = ground arith in
      rw (table_word (v / 512) (omega arith), self) (ground arith)

  tables_kept :
      (i : ℕ)
      → i < 511
      → page_of (fresh.word (s.lvl2_table_address + 8 * i)) * 2 ^ 12
        ≡ s.lvl2_table_address + (i + 1) * 2 ^ 12
  tables_kept i h = elim (Bool-cases (s.lvl2_table_address + 8 * i == e)) [
    | inl y ↦
        let eq : i ≡ v / 512 = ground arith in
        let kept : identified (s.lvl2_table_address + 8 * i)
            ≡ s.word (s.lvl2_table_address + 8 * i) / 4 * 4 + 3 =
          rw eq (ground arith) in
        rw (table_word i (omega arith), kept) (omega (arith, l.tables i h))
    | inr n ↦ rw (table_word i (omega arith), n) (l.tables i h)
  ]

  fresh_laid : IsLaidOut fresh
  fresh_laid = record {
    aligned = l.aligned;
    low = l.low;
    tables = tables_kept;
    words = λ x. ground (arith, l.words x, l.words e);
  }

  run_fresh : init_new_lvl3_table e s ≡ returns tt fresh
  unfolding init_new_lvl3_table set_identifier_table_entry
  run_fresh =
      let self : identified e ≡ s.word e / 4 * 4 + 3 = ground arith in
      let is_table : is_table_entry (identified e) ≡ true =
        table_bits (identified e) ∙ rw self (ground arith) in
      let at : get_address_sg1 (identified e) ≡ table =
        get_address_lem (identified e)
        ∙ rw self (omega (arith, l.tables (v / 512) (omega arith))) in
      rw (identifier_lem (s.word e), is_table)
        (run_wiped 512 0 table e (record s { word = identified }) at (omega arith)
          (λ x. ground (arith, l.words x, l.words e)))

module _ (s : Mmu) (l : IsLaidOut s) (va p : ℕ) (inside : va < n_pages * 2 ^ 12) (page : p < 2 ^ 24)
    (ba : BlockAttributes)
    (room : s.id_paging_size ≤ p * 2 ^ 12
      → get_bind_counter_address s (p * 2 ^ 12) < s.id_paging_size) where
  module _ (bad : valid (s.word (table_slot s (va / 2 ^ 12))) ≡ false) where
    abbrev f : Mmu
    f = fresh s l va inside bad

    abbrev bound_fresh : Mmu
    unfolding get_bind_counter_address
    bound_fresh = bound f (fresh_laid s l va inside bad) va p inside page ba room

    step_unmapped :
        (fuel : ℕ)
        → bind_address (suc fuel) va (p * 2 ^ 12) ba s ≡ bind_address fuel va (p * 2 ^ 12) ba f
    unfolding bind_address
    step_unmapped fuel =
        let a : bit_and (p * 2 ^ 12) (mask 11 0) ≡ 0 = omega (arith, and_field 12 0 (p * 2 ^ 12)) in
        rw (a, lvl3_unmapped s l va inside bad, lvl2_lem s l va inside, run_fresh s l va inside bad)
          refl

    run_unmapped : bind_address 2 va (p * 2 ^ 12) ba s ≡ returns 0 bound_fresh
    unfolding get_bind_counter_address
    run_unmapped =
        step_unmapped 1
        ∙ bind_mapped f (fresh_laid s l va inside bad) va p inside page ba room 0
            (fresh_valid s l va inside bad)

    Binds-fresh : Binds s (va / 2 ^ 12) p bound_fresh
    unfolding get_bind_counter_address get_bind_counter
    Binds-fresh =
        let b =
          bound-Binds f (fresh_laid s l va inside bad) va p inside page ba room
            (fresh_valid s l va inside bad) in
        record {
          maps = λ x h. b.maps x h ∙ rw (same_page_at s l va inside bad x h) refl;
          laid = b.laid;
          same_table = refl;
          same_size = refl;
          same_pages = refl;
          counted = refl;
        }

  -- `bind_address` of a page below 2 ^ 36, at an address that has an entry, returns 0, with fuel for
  -- one recursive call. The page of the address is bound to it, no other page is bound or unbound, and
  -- the counter of a physical page behind the kernel's goes up, where it has a place.
  pub bind_address-refines :
      (s' : Mmu) × (bind_address 2 va (p * 2 ^ 12) ba s ≡ returns 0 s') × Binds s (va / 2 ^ 12) p s'
  bind_address-refines = elim (Bool-cases (valid (s.word (table_slot s (va / 2 ^ 12))))) [
    | inl ok ↦ (
      _,
      bind_mapped s l va p inside page ba room 1 ok,
      bound-Binds s l va p inside page ba room ok,
    )
    | inr bad ↦ (bound_fresh bad, run_unmapped bad, Binds-fresh bad)
  ]
