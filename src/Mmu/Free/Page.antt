-- ===== src/Mmu/Free/Page.antt =====
-- A virtual page that is given back.
use mathlib.Core.Path.{subst}
use sysres_os.Base.{
  ℕ, ◌+◌, ◌*◌, ◌/◌, ◌^◌, ◌<◌, ◌≤◌, ◌≡◌, sym, refl, true, false, leb, ◌==◌, if◌then◌else◌, some,
  none, arith, Bool-cases, inl, inr,
}
use sysres_os.Proc.Run.{update}
use sysres_os.Step.{returns}
use sysres_os.Mmu.State.{Mmu, PhysicalMap}
use sysres_os.Mmu.Entry.{set_invalid_entry, get_address_sg1}
use sysres_os.Mmu.Entry.Fields.{page_of, get_address_lem, invalid_lem}
use sysres_os.Mmu.Walk.Layout.{
  IsLaidOut, n_pages, table_slot, page_slot, valid, page_at, lvl3_mapped, slot_status,
}
use sysres_os.Mmu.Pages.{get_bind_counter, get_bind_counter_address}
use sysres_os.Mmu.Pages.Stack.{pushed, dropped, decr_and_free_physical_page-refines}
use sysres_os.Mmu.Free.{free_virtual_page}

-- `s'` is `s` with the virtual page `v`, bound to the physical page `p`, unbound. The page goes on the
-- stack of free pages when it was bound once.
pub record Unbinds (s : Mmu) (v p : ℕ) (s' : Mmu) : Type 0 where
  pub maps : (x : ℕ) → x < n_pages → page_at s' x ≡ (if x == v then none else page_at s x)
  pub laid : IsLaidOut s'
  pub counted : s'.byte ≡ (dropped s (p * 2 ^ 12)).byte
  pub stack :
      s'.pages
      ≡ (if get_bind_counter s (p * 2 ^ 12) == 1 then (pushed s (p * 2 ^ 12)).pages else s.pages)

module _ (s : Mmu) (l : IsLaidOut s) (va p : ℕ) (inside : va < n_pages * 2 ^ 12) (page : p < 2 ^ 20)
    (bound : page_at s (va / 2 ^ 12) ≡ some p) (managed : s.id_paging_size ≤ p * 2 ^ 12)
    (used : 0 < get_bind_counter s (p * 2 ^ 12))
    (byte_sized : get_bind_counter s (p * 2 ^ 12) < 256) (space : 0 < s.pages.head) where
  abbrev v : ℕ
  v = va / 2 ^ 12

  abbrev cleared : Mmu
  cleared = record s { word = update s.word (page_slot s v) (s.word (page_slot s v) / 2 * 2) }

  abbrev once : Mmu
  once = dropped cleared (p * 2 ^ 12)

  abbrev after : Mmu
  after = if get_bind_counter s (p * 2 ^ 12) == 1 then pushed once (p * 2 ^ 12) else once

  kept : (i : ℕ) → i < 512 → (s.lvl2_table_address + 8 * i == page_slot s v) ≡ false
  kept i h = ground arith

  distinct : (x : ℕ) → x < n_pages → (x == v) ≡ false → (page_slot s x == page_slot s v) ≡ false
  distinct x h ne = ground arith

  cleared_maps : (x : ℕ) → x < n_pages → page_at cleared x ≡ (if x == v then none else page_at s x)
  cleared_maps x h = elim (Bool-cases (x == v)) [
    | inl e ↦
        let same : x ≡ v = ground arith in
        let at : (page_slot s v == page_slot s v) ≡ true = ground arith in
        let off : valid (s.word (page_slot s v) / 2 * 2) ≡ false = ground arith in
        let here : (v == v) ≡ true = ground arith in
        rw (same, kept (v / 512) (omega arith), at, off, here) (ground arith)
    | inr ne ↦ rw (kept (x / 512) (omega arith), distinct x h ne, ne) refl
  ]

  cleared_laid : IsLaidOut cleared
  cleared_laid = record {
    aligned = l.aligned;
    low = l.low;
    tables = λ i h. rw (kept i (omega arith)) (l.tables i h);
    words = λ x. ground (arith, l.words x, l.words (page_slot s v));
  }

  Unbinds-pages :
      (stack : PhysicalMap)
      → stack
        ≡ (if get_bind_counter s (p * 2 ^ 12) == 1 then (pushed s (p * 2 ^ 12)).pages else s.pages)
      → Unbinds s v p (record once { pages = stack })
  unfolding get_bind_counter get_bind_counter_address
  Unbinds-pages stack eq = record {
    maps = cleared_maps;
    laid = record {
      aligned = cleared_laid.aligned;
      low = cleared_laid.low;
      tables = cleared_laid.tables;
      words = cleared_laid.words;
    };
    counted = refl;
    stack = eq;
  }

  Unbinds-after : Unbinds s v p after
  Unbinds-after = elim (Bool-cases (get_bind_counter s (p * 2 ^ 12) == 1)) [
    | inl e ↦
        subst (λ b. Unbinds s v p (if b then pushed once (p * 2 ^ 12) else once)) (sym e)
          (Unbinds-pages (pushed s (p * 2 ^ 12)).pages (rw e refl))
    | inr e ↦
        subst (λ b. Unbinds s v p (if b then pushed once (p * 2 ^ 12) else once)) (sym e)
          (Unbinds-pages s.pages (rw e refl))
  ]

  run : free_virtual_page va s ≡ returns 0 after
  unfolding free_virtual_page set_invalid_entry get_bind_counter get_bind_counter_address
  run =
      let ok : valid (s.word (table_slot s v)) ≡ true = ground (arith, bound) in
      let at : page_of (s.word (page_slot s v)) ≡ p = ground (arith, bound) in
      let a : get_address_sg1 (s.word (page_slot s v)) ≡ p * 2 ^ 12 =
        omega (arith, get_address_lem (s.word (page_slot s v)), at) in
      let m : leb s.id_paging_size (p * 2 ^ 12) ≡ true = ground (arith, managed) in
      rw
        (
          lvl3_mapped s l va inside ok,
          a,
          invalid_lem (s.word (page_slot s v)) (l.words (page_slot s v)),
          m,
          decr_and_free_physical_page-refines cleared (p * 2 ^ 12) (omega arith)
              (omega (arith, page)) used byte_sized space,
          slot_status s l va inside,
        )
        refl

  -- `free_virtual_page` of a bound page returns 0. The page is not bound any more, no other page is
  -- bound or unbound, and the physical page is freed when no virtual page is bound to it.
  pub free_virtual_page-refines :
      (s' : Mmu) × (free_virtual_page va s ≡ returns 0 s') × Unbinds s (va / 2 ^ 12) p s'
  free_virtual_page-refines = (after, run, Unbinds-after)
