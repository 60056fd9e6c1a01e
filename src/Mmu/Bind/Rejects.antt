-- ===== src/Mmu/Bind/Rejects.antt =====
-- The error codes of `bind_address`.
use sysres_os.Base.{
  ℕ, suc, ◌/◌, ◌%◌, ◌^◌, ◌<◌, ◌≤◌, to_int, ◌≡◌, refl, Bool, true, false, not, ltb, ◌==◌,
  if◌then◌else◌, bit_and, u64, arith, and_field, Bool-cases, inl, inr,
}
use sysres_os.Step.{returns}
use sysres_os.Mmu.State.{mask, Mmu, BlockAttributes}
use sysres_os.Mmu.Walk.{get_lvl2_table_entry_phys_address, get_lvl3_entry_phys_address}
use sysres_os.Mmu.Bind.{bind_address}

-- The code for addresses that cannot be bound, or 0: 4 for a physical address that is no page's, 2 for
-- a virtual address with a digit in [47:30], 1 for one with a digit in [63:48], and 3 for a table at no
-- multiple of 2 ^ 17. mmu.h asks for a multiple of 2 ^ 21 there.
abbrev pub refusal : Mmu → (va pa : ℕ) → ℕ
refusal s va pa =
    if not (pa % 2 ^ 12 == 0)
    then 4
    else if not (va / 2 ^ 30 % 2 ^ 18 == 0)
    then 2
    else if not (va / 2 ^ 48 == 0)
    then 1
    else if not (s.lvl2_table_address % 2 ^ 17 == 0)
    then 3
    else 0

low_digits : (x : ℕ) → (bit_and x (mask 11 0) == 0) ≡ (x % 2 ^ 12 == 0)
low_digits x = ground (arith, and_field 12 0 x)

positive : (x : ℕ) → ltb 0 x ≡ true → 0 < x
positive x h = ground arith

four :
    (a b c d : Bool)
    → (if not a then 4 else if not b then 2 else if not c then 1 else if not d then 3 else 0) ≤ 4
four a b c d = ground arith

module _ (s : Mmu) (va pa : ℕ) (word : va < u64) where
  middle : (bit_and va (mask 47 30) == 0) ≡ (va / 2 ^ 30 % 2 ^ 18 == 0)
  middle = ground (arith, and_field 18 30 va)

  header : (bit_and va (mask 63 48) == 0) ≡ (va / 2 ^ 48 == 0)
  header = ground (arith, and_field 16 48 va)

  table_digits :
      (bit_and s.lvl2_table_address (mask 16 0) == 0) ≡ (s.lvl2_table_address % 2 ^ 17 == 0)
  table_digits = ground (arith, and_field 17 0 s.lvl2_table_address)

  at_most_four : refusal s va pa ≤ 4
  at_most_four =
      four (pa % 2 ^ 12 == 0) (va / 2 ^ 30 % 2 ^ 18 == 0) (va / 2 ^ 48 == 0)
        (s.lvl2_table_address % 2 ^ 17 == 0)

  same_code : (b : Bool) (n : ℕ) → (if b then n else n) ≡ n
  same_code b n = ground arith

  lvl2_refusal :
      (pa % 2 ^ 12 == 0) ≡ true
      → ltb 0 (refusal s va pa) ≡ true
      → get_lvl2_table_entry_phys_address s va ≡ refusal s va pa
  unfolding get_lvl2_table_entry_phys_address
  lvl2_refusal aligned refused = elim (Bool-cases (va / 2 ^ 30 % 2 ^ 18 == 0)) [
    | inr m ↦ rw (middle, aligned, m) refl
    | inl m ↦ elim (Bool-cases (va / 2 ^ 48 == 0)) [
      | inr h ↦
          rw (middle, header, aligned, m, h) (same_code (bit_and va (mask 63 48) == mask 63 48) 1)
      | inl h ↦ elim (Bool-cases (s.lvl2_table_address % 2 ^ 17 == 0)) [
        | inr t ↦
            let low : (bit_and va (mask 63 48) == mask 63 48) ≡ false = ground (arith, header, h) in
            rw (middle, header, table_digits, low, aligned, m, h, t) refl
        | inl t ↦
            let none_refused : refusal s va pa ≡ 0 = rw (aligned, m, h, t) refl in
            ground (arith, none_refused, refused)
      ]
    ]
  ]

  refused_by :
      (ba : BlockAttributes) (fuel code : ℕ)
      → (pa % 2 ^ 12 == 0) ≡ true
      → get_lvl2_table_entry_phys_address s va ≡ code
      → 0 < code
      → code ≤ 4
      → bind_address (suc fuel) va pa ba s ≡ returns code s
  unfolding bind_address get_lvl3_entry_phys_address
  refused_by ba fuel code aligned found some_code few =
      let status : bit_and code (mask 2 0) ≡ code = omega (arith, and_field 3 0 code, few) in
      let failed : (code == 0) ≡ false = ground (arith, some_code) in
      let other : (code == 5) ≡ false = ground (arith, few) in
      let int : to_int code ≡ code = omega (arith, few) in
      rw (low_digits pa, aligned, found, status, failed, status, failed, other, int) refl

  -- An address that cannot be bound gives the code that `refusal` has for it, the one of the physical
  -- address first, and changes nothing. A table at no multiple of 2 ^ 17 is refused, and not, as mmu.h
  -- says, one at no multiple of 2 ^ 21.
  pub bind_address-rejects :
      (ba : BlockAttributes) (fuel : ℕ)
      → ltb 0 (refusal s va pa) ≡ true
      → bind_address (suc fuel) va pa ba s ≡ returns (refusal s va pa) s
  unfolding bind_address
  bind_address-rejects ba fuel refused = elim (Bool-cases (pa % 2 ^ 12 == 0)) [
    | inr odd ↦ rw (low_digits pa, odd) refl
    | inl aligned ↦
        refused_by ba fuel (refusal s va pa) aligned (lvl2_refusal aligned refused)
          (positive (refusal s va pa) refused) at_most_four
  ]
