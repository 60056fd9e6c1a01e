-- ===== src/Mmu/Bind/Entry.antt =====
-- `bind_address` where the table of level 3 is in use.
use mathlib.Core.Path.{fun_ext}
use sysres_os.Base.{
  ℕ, ◌+◌, ◌*◌, ◌/◌, ◌%◌, ◌^◌, ◌<◌, ◌≤◌, ◌≡◌, refl, true, false, ltb, leb, ◌==◌, if◌then◌else◌, suc,
  some, bit_and, u64, arith, and_field, Bool-cases, inl, inr,
}
use sysres_os.Proc.Run.{update}
use sysres_os.Step.{returns}
use sysres_os.Mmu.State.{mask, Mmu, BlockAttributes}
use sysres_os.Mmu.Entry.{
  with_attributes, with_inner, init_block_and_page_entry_sg1, set_block_and_page_attributes_sg1,
}
use sysres_os.Mmu.Entry.Fields.{page_of, with_attributes_lem, with_inner_lem}
use sysres_os.Mmu.Walk.Layout.{
  IsLaidOut, n_pages, table_slot, page_slot, valid, page_at, lvl3_mapped, slot_status,
}
use sysres_os.Mmu.Pages.{get_bind_counter_address, get_bind_counter, increment_bind_counter}
use sysres_os.Mmu.Bind.{bind_entry, bind_address}

-- `s'` is `s` with the virtual page `v` bound to the physical page `p`, and nothing else bound or
-- unbound.
pub record Binds (s : Mmu) (v p : ℕ) (s' : Mmu) : Type 0 where
  pub maps : (x : ℕ) → x < n_pages → page_at s' x ≡ (if x == v then some p else page_at s x)
  pub laid : IsLaidOut s'
  pub same_table : s'.lvl2_table_address ≡ s.lvl2_table_address
  pub same_size : s'.id_paging_size ≡ s.id_paging_size
  pub same_pages : s'.pages ≡ s.pages
  -- The counter of a page behind the kernel's goes up by one.
  pub counted : s'.byte ≡ (
      if leb s.id_paging_size (p * 2 ^ 12)
      then update s.byte
          (get_bind_counter_address s (p * 2 ^ 12))
          ((get_bind_counter s (p * 2 ^ 12) + 1) % 256)
      else s.byte)

self : (k : ℕ) → (k == k) ≡ true
self k = ground arith

overwrite : (f : ℕ → ℕ) (a x y : ℕ) → update (update f a x) a y ≡ update f a y
overwrite f a x y = fun_ext λ k. ground arith

module _ (s : Mmu) (l : IsLaidOut s) (va p : ℕ) (inside : va < n_pages * 2 ^ 12) (page : p < 2 ^ 24)
    (ba : BlockAttributes)
    (room : s.id_paging_size ≤ p * 2 ^ 12
      → get_bind_counter_address s (p * 2 ^ 12) < s.id_paging_size) where
  abbrev pub v : ℕ
  v = va / 2 ^ 12

  abbrev pub entry : ℕ
  entry = with_attributes (with_inner (s.word (page_slot s v)) (p * 2 ^ 12)) ba

  -- The state with the entry written.
  abbrev pub written : Mmu
  written = record s { word = update s.word (page_slot s v) entry }

  entry_page : page_of entry ≡ p
  entry_page = omega (
    arith,
    with_attributes_lem (with_inner (s.word (page_slot s v)) (p * 2 ^ 12)) ba,
    with_inner_lem (s.word (page_slot s v)) (p * 2 ^ 12),
  )

  entry-valid : valid entry ≡ true
  entry-valid =
      let e : entry % 4 ≡ 3 =
        omega (arith, with_attributes_lem (with_inner (s.word (page_slot s v)) (p * 2 ^ 12)) ba) in
      ground (arith, e)

  entry_word : entry < u64
  entry_word =
      omega (arith, with_attributes_lem (with_inner (s.word (page_slot s v)) (p * 2 ^ 12)) ba)

  table_kept : (i : ℕ) → i < 512 → (s.lvl2_table_address + 8 * i == page_slot s v) ≡ false
  table_kept i h = ground arith

  laid_out : IsLaidOut written
  laid_out = record {
    aligned = l.aligned;
    low = l.low;
    tables = λ i h. rw (table_kept i (omega arith)) (l.tables i h);
    words = λ x. ground (arith, l.words x, entry_word);
  }

  distinct : (x : ℕ) → x < n_pages → (page_slot s x == page_slot s v) ≡ (x == v)
  distinct x h = elim (Bool-cases (x == v)) [
    | inl e ↦ let same : x ≡ v = ground arith in rw same (ground arith)
    | inr ne ↦ ground arith
  ]

  maps_entry :
      valid (s.word (table_slot s v)) ≡ true
      → (x : ℕ) → x < n_pages
      → page_at written x ≡ (if x == v then some p else page_at s x)
  maps_entry ok x h = elim (Bool-cases (x == v)) [
    | inl e ↦
        let same : x ≡ v = ground arith in
        rw
          (
            same,
            table_kept (v / 512) (omega arith),
            ok,
            self (page_slot s v),
            entry-valid,
            entry_page,
            self v,
          )
          refl
    | inr ne ↦ rw (table_kept (x / 512) (omega arith), distinct x h, ne) refl
  ]

  -- The bytes after the counter of the page goes up.
  abbrev pub bytes : ℕ → ℕ
  bytes =
      if leb s.id_paging_size (p * 2 ^ 12)
      then update s.byte (get_bind_counter_address s (p * 2 ^ 12))
          ((get_bind_counter s (p * 2 ^ 12) + 1) % 256)
      else s.byte

  abbrev pub bound : Mmu
  bound = record written { byte = bytes }

  run_entry : bind_entry (page_slot s v) (p * 2 ^ 12) ba s ≡ returns 0 bound
  unfolding bind_entry init_block_and_page_entry_sg1 set_block_and_page_attributes_sg1
      increment_bind_counter get_bind_counter get_bind_counter_address
  run_entry =
      rw
        (
          self (page_slot s v),
          overwrite s.word (page_slot s v) (with_inner (s.word (page_slot s v)) (p * 2 ^ 12)) entry,
        )
        (elim (Bool-cases (leb s.id_paging_size (p * 2 ^ 12))) [
          | inl e ↦
              let below : ltb (get_bind_counter_address s (p * 2 ^ 12)) s.id_paging_size ≡ true =
                ground (arith, room) in
              rw (e, below) refl
          | inr e ↦ rw e refl
        ])

  pub bound-Binds : valid (s.word (table_slot s v)) ≡ true → Binds s v p bound
  bound-Binds ok = record {
    maps = maps_entry ok;
    laid = record {
      aligned = laid_out.aligned;
      low = laid_out.low;
      tables = laid_out.tables;
      words = laid_out.words;
    };
    same_table = refl;
    same_size = refl;
    same_pages = refl;
    counted = refl;
  }

  pub bind_mapped :
      (fuel : ℕ)
      → valid (s.word (table_slot s v)) ≡ true
      → bind_address (suc fuel) va (p * 2 ^ 12) ba s ≡ returns 0 bound
  unfolding bind_address
  bind_mapped fuel ok =
      let a : bit_and (p * 2 ^ 12) (mask 11 0) ≡ 0 = omega (arith, and_field 12 0 (p * 2 ^ 12)) in
      rw (a, lvl3_mapped s l va inside ok, slot_status s l va inside) run_entry
