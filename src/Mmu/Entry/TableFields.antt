-- ===== src/Mmu/Entry/TableFields.antt =====
-- The digits of a table entry.
use sysres_os.Base.{
  ℕ, ◌+◌, ◌*◌, ◌/◌, ◌%◌, ◌^◌, ◌≡◌, bit_and, bit_or, arith, and_field, or_above, or_between,
}
use sysres_os.Mmu.State.{mask, TableAttributes}
use sysres_os.Mmu.Entry.{with_table_attributes}
use sysres_os.Mmu.Entry.Fields.{identifier_lem}

-- The layout of a table entry: every field at its place, and the digits below as they were but for the
-- lowest two, which become ones.
pub with_table_attributes_lem :
    (e : ℕ) (ta : TableAttributes)
    → with_table_attributes e ta
      ≡ ta.ns_table % 2 * 2 ^ 63
        + ta.ap_table % 4 * 2 ^ 61
        + ta.uxn_table % 2 * 2 ^ 60
        + ta.pxn_table % 2 * 2 ^ 59
        + e % 2 ^ 59 / 4 * 4
        + 3
unfolding with_table_attributes
with_table_attributes_lem e ta =
    let a = e % 2 ^ 59 in
    let n = ta.ns_table % 2 in
    let p = ta.ap_table % 4 in
    let u = ta.uxn_table % 2 in
    let x = ta.pxn_table % 2 in
    let h2 = n * 4 + p in
    let h3 = h2 * 2 + u in
    let h4 = h3 * 2 + x in
    let w = h4 * 2 ^ 59 + a in
    let x2 : bit_or (n * 2 ^ 63 + a) (p * 2 ^ 61) ≡ h2 * 2 ^ 61 + a =
      omega (arith, or_between 61 63 n a p (omega arith) (omega arith) (omega arith)) in
    let x3 : bit_or (h2 * 2 ^ 61 + a) (u * 2 ^ 60) ≡ h3 * 2 ^ 60 + a =
      omega (arith, or_between 60 61 h2 a u (omega arith) (omega arith) (omega arith)) in
    let x4 : bit_or (h3 * 2 ^ 60 + a) (x * 2 ^ 59) ≡ h4 * 2 ^ 59 + a =
      omega (arith, or_between 59 60 h3 a x (omega arith) (omega arith) (omega arith)) in
    let one : bit_and ta.ns_table 1 ≡ n = omega (arith, and_field 1 0 ta.ns_table) in
    let two : bit_and ta.ap_table 3 ≡ p = omega (arith, and_field 2 0 ta.ap_table) in
    let three : bit_and ta.uxn_table 1 ≡ u = omega (arith, and_field 1 0 ta.uxn_table) in
    let four : bit_and ta.pxn_table 1 ≡ x = omega (arith, and_field 1 0 ta.pxn_table) in
    let low : bit_and e (mask 58 0) ≡ a = omega (arith, and_field 59 0 e) in
    rw (low, one, two, three, four, or_above 63 n a (omega arith), x2, x3, x4)
      (omega (arith, identifier_lem w))
