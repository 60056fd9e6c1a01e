-- ===== src/Mmu/Pages/Initial.antt =====
-- The stack of free pages at the start.
use sysres_os.Base.{
  ℕ, zero, suc, ◌+◌, ◌-◌, ◌*◌, ◌/◌, ◌%◌, ◌^◌, ◌<◌, ◌≤◌, ◌≡◌, ◌∙◌, sym, refl, ltb, leb, ◌==◌, ◌&&◌,
  ◌||◌, if◌then◌else◌, u32, add32, to_int, arith, Bool-cases, inl, inr,
}
use sysres_os.Proc.Run.{update}
use sysres_os.Mmu.State.{page_size, gpio_base, timer_irq_page}
use sysres_os.Mmu.Pages.{fill_map, is_peripheral}

-- The number of pages stepped over before the `i`th of the stack, where the stack starts at page
-- `first`.
abbrev pub skipped_before : (first i : ℕ) → ℕ
skipped_before first i =
    (if leb (timer_irq_page / page_size) (first + i) then 1 else 0)
    + (if leb (gpio_base / page_size) (first + i + 1) then 1 else 0)
    + (if leb (gpio_base / page_size + 0x15) (first + i + 2) then 1 else 0)

-- The number of pages stepped over when page `i` is reached, itself not counted.
abbrev reached : (first i : ℕ) → ℕ
reached first i = if i == 0 then 0 else skipped_before first (i - 1)

-- An address below 4 GiB in pages.
page_address :
    (first i d : ℕ)
    → first + i + d < 2 ^ 20
    → (i + d) * page_size % u32 + first * page_size ≡ (first + i + d) * page_size
page_address first i d h = omega arith

peripheral_page :
    (q : ℕ)
    → is_peripheral (q * page_size) ≡ (
        if (q == gpio_base / page_size)
          || (q == gpio_base / page_size + 1)
          || (q == gpio_base / page_size + 0x15)
          || (q == timer_irq_page / page_size)
        then 1
        else 0)
peripheral_page q = ground arith

step_skips :
    (first i : ℕ)
    → first ≤ timer_irq_page / page_size
    → reached first i
        + (if (first + i + reached first i == gpio_base / page_size)
              || (first + i + reached first i == gpio_base / page_size + 1)
              || (first + i + reached first i == gpio_base / page_size + 0x15)
              || (first + i + reached first i == timer_irq_page / page_size)
            then 1
            else 0)
      ≡ skipped_before first i
step_skips first i h = ground arith

reached_next : (first i : ℕ) → reached first (i + 1) ≡ skipped_before first i
reached_next first i = ground arith

few : (first i : ℕ) → reached first i ≤ 3
few first i = ground arith

few_before : (first i : ℕ) → skipped_before first i ≤ 3
few_before first i = ground arith

step_delta :
    (first i : ℕ)
    → first ≤ timer_irq_page / page_size
    → first + i + 3 < 2 ^ 20
    → reached first i + is_peripheral ((i + reached first i) * page_size % u32 + first * page_size)
      ≡ skipped_before first i
step_delta first i h bound =
    rw
      (
        page_address first i (reached first i) (omega (arith, few first i)),
        peripheral_page (first + i + reached first i),
      )
      (step_skips first i h)

step_entry :
    (first i : ℕ)
    → first + i + 3 < 2 ^ 20
    → to_int ((i + skipped_before first i) * page_size % u32 + first * page_size)
      ≡ (first + i + skipped_before first i) * page_size
step_entry first i bound =
    let small = few_before first i in
    rw (page_address first i (skipped_before first i) (omega (arith, small))) (omega (arith, small))

fill_from :
    (n i d first : ℕ) (map : ℕ → ℕ)
    → d ≡ reached first i
    → first ≤ timer_irq_page / page_size
    → first + i + n + 3 < 2 ^ 20
    → (x : ℕ)
    → fill_map n i d (first * page_size) 0 map x ≡ (
        if leb i x && ltb x (i + n)
        then (first + x + skipped_before first x) * page_size
        else map x)
unfolding fill_map
fill_from zero i d first map e h bound x = ground arith
fill_from (suc n) i d first map e h bound x =
    let place : add32 0 i ≡ i = omega (arith, bound) in
    let rest =
      fill_from n (i + 1) (skipped_before first i) first
        (update map i ((first + i + skipped_before first i) * page_size))
        (sym (reached_next first i)) h (omega arith) x in
    rw (e, step_delta first i h (omega arith), step_entry first i (omega arith), place)
      (rest ∙ entry x)
  where
    entry :
        (y : ℕ)
        → (if leb (i + 1) y && ltb y (i + 1 + n)
            then (first + y + skipped_before first y) * page_size
            else update map i ((first + i + skipped_before first i) * page_size) y)
          ≡ (if leb i y && ltb y (i + suc n)
              then (first + y + skipped_before first y) * page_size
              else map y)
    entry y = elim (Bool-cases (y == i)) [
      | inl e ↦ let same : y ≡ i = ground arith in rw same (ground arith)
      | inr ne ↦ ground arith
    ]

-- The stack of free pages behind a kernel of `first` pages that ends before the timer's page: entry `x`
-- is page `first + x`, one further from the timer's page on, two further from the page at GPIO_BASE
-- on, and three further from the page at GPIO_BASE + 0x15000 on. Page GPIO_BASE + 0x1000 is on it.
pub fill_map-steps_over :
    (first n : ℕ) (map : ℕ → ℕ)
    → first ≤ timer_irq_page / page_size
    → first + n + 3 < 2 ^ 20
    → (x : ℕ)
    → fill_map n 0 0 (first * page_size) 0 map x
      ≡ (if ltb x n then (first + x + skipped_before first x) * page_size else map x)
fill_map-steps_over first n map h bound x =
    fill_from n 0 0 first map refl h (omega (arith, bound)) x ∙ ground arith
