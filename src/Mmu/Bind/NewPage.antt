-- ===== src/Mmu/Bind/NewPage.antt =====
-- A virtual page that is bound to the next free page.
use sysres_os.Base.{ℕ, ◌+◌, ◌*◌, ◌/◌, ◌^◌, ◌<◌, ◌≤◌, ◌≡◌, true, ltb, u32, add32, arith}
use sysres_os.Step.{returns}
use sysres_os.Mmu.State.{Mmu}
use sysres_os.Mmu.Entry.{new_block_attributes_sg1}
use sysres_os.Mmu.Walk.Layout.{IsLaidOut, n_pages}
use sysres_os.Mmu.Pages.{get_bind_counter_address, get_unbound_physical_page}
use sysres_os.Mmu.Bind.{get_new_page}
use sysres_os.Mmu.Bind.Entry.{Binds}
use sysres_os.Mmu.Bind.Fresh.{bind_address-refines}

-- The state with the top of the stack of free pages taken.
abbrev pub taken : Mmu → Mmu
taken s = record s { pages = record (s.pages) { head = s.pages.head + 1 } }

module _ (s : Mmu) (l : IsLaidOut s) (va p : ℕ) (inside : va < n_pages * 2 ^ 12) (page : p < 2 ^ 24)
    (free : s.pages.head < s.pages.size) (sized : s.pages.size < u32)
    (top : s.pages.map s.pages.head ≡ p * 2 ^ 12)
    (room : s.id_paging_size ≤ p * 2 ^ 12
      → get_bind_counter_address s (p * 2 ^ 12) < s.id_paging_size) where
  taken_laid : IsLaidOut (taken s)
  taken_laid = record { aligned = l.aligned; low = l.low; tables = l.tables; words = l.words }

  -- `get_new_page` binds the virtual page to the page on top of the stack of free pages, which it pops.
  -- No other page is bound or unbound.
  pub get_new_page-refines :
      (perm cache : ℕ)
      → (s' : Mmu) × (get_new_page va perm cache s ≡ returns 0 s')
        × Binds (taken s) (va / 2 ^ 12) p s'
  unfolding get_new_page get_unbound_physical_page get_bind_counter_address
  get_new_page-refines perm cache =
      let a : ltb s.pages.head s.pages.size ≡ true = ground (arith, free) in
      let b : add32 s.pages.head 1 ≡ s.pages.head + 1 = omega (arith, free, sized) in
      let (s', run, binds) =
        bind_address-refines (taken s) taken_laid va p inside page
          (new_block_attributes_sg1 perm cache) room in
      (s', rw (a, b, top) run, binds)
