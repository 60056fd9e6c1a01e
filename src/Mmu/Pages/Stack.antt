-- ===== src/Mmu/Pages/Stack.antt =====
-- The stack of free pages.
use sysres_os.Base.{
  ℕ, ◌+◌, ◌-◌, ◌%◌, ◌<◌, ◌≤◌, ◌≡◌, refl, true, ltb, ◌==◌, if◌then◌else◌, u32, add32, to_int, arith,
  Bool-cases, inl, inr, false,
}
use sysres_os.Proc.Run.{update}
use sysres_os.Step.{◌>>◌, returns}
use sysres_os.Mmu.State.{Mmu, page_size}
use sysres_os.Mmu.Pages.{
  get_bind_counter, get_bind_counter_address, get_unbound_physical_page, free_physical_page,
  decrement_bind_counter, decr_and_free_physical_page,
}

-- The state with a page on top of the stack.
abbrev pub pushed : Mmu → ℕ → Mmu
pushed m page = record m {
  pages = record (m.pages) {
    head = m.pages.head - 1;
    map = update m.pages.map (m.pages.head - 1) page;
  };
}

-- The state with one binding less of a page.
abbrev pub dropped : Mmu → ℕ → Mmu
dropped m page = record m {
  byte = update m.byte (get_bind_counter_address m page) (get_bind_counter m page - 1);
}

to_eq : {x : ℕ} → (x == 1) ≡ true → x ≡ 1
to_eq e = ground arith

module _ (m : Mmu) (page : ℕ) (aligned : page % page_size ≡ 0) (small : page < u32)
    (space : 0 < m.pages.head) where
  pub free_lem :
      get_bind_counter m page ≡ 0 → free_physical_page page m ≡ returns tt (pushed m page)
  unfolding free_physical_page
  free_lem unused =
      let a : ltb 0 m.pages.head ≡ true = ground (arith, space) in
      let b : (page % page_size == 0) ≡ true = ground (arith, aligned) in
      let c : (get_bind_counter m page == 0) ≡ true = ground (arith, unused) in
      let d : to_int page ≡ page = omega (arith, small) in rw (a, b, c, d) refl

  -- A page that no virtual page is bound to can be freed, and the next page taken is this one. The
  -- head of the stack is then as before.
  pub free_physical_page-get_unbound_physical_page :
      (sized : m.pages.head ≤ m.pages.size) (bounded : m.pages.size < u32)
      → get_bind_counter m page ≡ 0
      → (free_physical_page page >> get_unbound_physical_page) m
        ≡ returns page (record m {
          pages = record (m.pages) { map = update m.pages.map (m.pages.head - 1) page };
        })
  unfolding get_unbound_physical_page
  free_physical_page-get_unbound_physical_page sized bounded unused =
      let a : ltb (m.pages.head - 1) m.pages.size ≡ true = ground (arith, sized, space) in
      let b : add32 (m.pages.head - 1) 1 ≡ m.pages.head = omega (arith, space, sized, bounded) in
      let c : update m.pages.map (m.pages.head - 1) page (m.pages.head - 1) ≡ page = ground arith in
      rw (free_lem unused, a, b, c) refl

module _ (m : Mmu) (page : ℕ) (aligned : page % page_size ≡ 0) (small : page < u32)
    (used : 0 < get_bind_counter m page) (byte_sized : get_bind_counter m page < 256)
    (space : 0 < m.pages.head) where
  run_decrement : decrement_bind_counter page m ≡ returns tt (dropped m page)
  unfolding decrement_bind_counter
  run_decrement =
      let a : (get_bind_counter m page + 255) % 256 ≡ get_bind_counter m page - 1 =
        omega (arith, used, byte_sized) in
      rw a refl

  counter_dropped : get_bind_counter (dropped m page) page ≡ get_bind_counter m page - 1
  unfolding get_bind_counter
  counter_dropped = ground arith

  -- `decr_and_free_physical_page` takes one binding of the page away, and pushes the page on the stack
  -- of free pages exactly when that was the last one.
  pub decr_and_free_physical_page-refines :
      decr_and_free_physical_page page m
      ≡ returns tt
          (if get_bind_counter m page == 1 then pushed (dropped m page) page else dropped m page)
  unfolding decr_and_free_physical_page
  decr_and_free_physical_page-refines = elim (Bool-cases (get_bind_counter m page == 1)) [
    | inl e ↦
        let last : get_bind_counter (dropped m page) page ≡ 0 =
          omega (arith, counter_dropped, to_eq e) in
        let test : (get_bind_counter (dropped m page) page == 0) ≡ true = ground (arith, last) in
        rw (run_decrement, test, e) (free_lem (dropped m page) page aligned small space last)
    | inr e ↦
        let test : (get_bind_counter (dropped m page) page == 0) ≡ false =
          ground (arith, counter_dropped, used, e) in
        rw (run_decrement, test, e) refl
  ]
