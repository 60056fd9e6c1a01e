-- ===== src/Mmu/Entry/Fields.antt =====
-- The digits of an entry.
use sysres_os.Base.{
  ℕ, ◌+◌, ◌-◌, ◌*◌, ◌/◌, ◌%◌, ◌^◌, ◌<◌, ◌≡◌, ap, refl, ◌==◌, bit_and, bit_or, u64, arith, and_field,
  or_below, or_above, or_between, or_split, and_split, or_lt, or_zero, zero, suc,
}
use sysres_os.Mmu.State.{mask, BlockAttributes}
use sysres_os.Mmu.Entry.{
  with_attributes, with_inner, get_address_sg1, is_block_entry, is_table_entry,
}

abbrev pub page_of : ℕ → ℕ
page_of entry = entry / 2 ^ 12 % 2 ^ 36

pub get_address_lem : (e : ℕ) → get_address_sg1 e ≡ page_of e * 2 ^ 12
unfolding get_address_sg1
get_address_lem e = and_field 36 12 e

digit : (x : ℕ) → bit_and x 1 ≡ x % 2
digit x = omega (arith, and_field 1 0 x)

digits_two : (x : ℕ) → bit_and x 3 ≡ x % 4
digits_two x = omega (arith, and_field 2 0 x)

-- The layout of an entry with attributes: every field at its place, and the address as it was.
pub with_attributes_lem :
    (e : ℕ) (ba : BlockAttributes)
    → with_attributes e ba
      ≡ ba.uxn % 2 * 2 ^ 54
        + ba.pxn % 2 * 2 ^ 53
        + ba.continuous_bit % 2 * 2 ^ 52
        + ba.dirty_bit % 2 * 2 ^ 51
        + page_of e * 2 ^ 12
        + ba.not_global % 2 * 2 ^ 11
        + ba.access_flag % 2 * 2 ^ 10
        + ba.shareability % 4 * 2 ^ 8
        + ba.access_permission % 4 * 2 ^ 6
        + ba.non_secure % 2 * 2 ^ 5
        + ba.attr_index % 2 * 2 ^ 2
        + 3
unfolding with_attributes
with_attributes_lem e ba =
    let a = page_of e * 2 ^ 12 in
    let u = ba.uxn % 2 in
    let p = ba.pxn % 2 in
    let c = ba.continuous_bit % 2 in
    let d = ba.dirty_bit % 2 in
    let n = ba.not_global % 2 in
    let f = ba.access_flag % 2 in
    let s = ba.shareability % 4 in
    let r = ba.access_permission % 4 in
    let o = ba.non_secure % 2 in
    let i = ba.attr_index % 2 in
    let h2 = u * 2 + p in
    let h3 = h2 * 2 + c in
    let h4 = (h3 * 2 + d) * 2 ^ 39 + page_of e in
    let h5 = h4 * 2 + n in
    let h6 = h5 * 2 + f in
    let h7 = h6 * 4 + s in
    let h8 = h7 * 4 + r in
    let h9 = h8 * 2 + o in
    let x2 : bit_or (u * 2 ^ 54 + a) (p * 2 ^ 53) ≡ h2 * 2 ^ 53 + a =
      omega (arith, or_between 53 54 u a p (omega arith) (omega arith) (omega arith)) in
    let x3 : bit_or (h2 * 2 ^ 53 + a) (c * 2 ^ 52) ≡ h3 * 2 ^ 52 + a =
      omega (arith, or_between 52 53 h2 a c (omega arith) (omega arith) (omega arith)) in
    let x4 : bit_or (h3 * 2 ^ 52 + a) (d * 2 ^ 51) ≡ h4 * 2 ^ 12 =
      omega (arith, or_between 51 52 h3 a d (omega arith) (omega arith) (omega arith)) in
    let x5 : bit_or (h4 * 2 ^ 12) (n * 2 ^ 11) ≡ h5 * 2 ^ 11 =
      omega (arith, or_below 12 h4 (n * 2 ^ 11) (omega arith)) in
    let x6 : bit_or (h5 * 2 ^ 11) (f * 2 ^ 10) ≡ h6 * 2 ^ 10 =
      omega (arith, or_below 11 h5 (f * 2 ^ 10) (omega arith)) in
    let x7 : bit_or (h6 * 2 ^ 10) (s * 2 ^ 8) ≡ h7 * 2 ^ 8 =
      omega (arith, or_below 10 h6 (s * 2 ^ 8) (omega arith)) in
    let x8 : bit_or (h7 * 2 ^ 8) (r * 2 ^ 6) ≡ h8 * 2 ^ 6 =
      omega (arith, or_below 8 h7 (r * 2 ^ 6) (omega arith)) in
    let x9 : bit_or (h8 * 2 ^ 6) (o * 2 ^ 5) ≡ h9 * 2 ^ 5 =
      omega (arith, or_below 6 h8 (o * 2 ^ 5) (omega arith)) in
    let x10 : bit_or (h9 * 2 ^ 5) (i * 2 ^ 2) ≡ (h9 * 8 + i) * 2 ^ 2 =
      omega (arith, or_below 5 h9 (i * 2 ^ 2) (omega arith)) in
    let x11 : bit_or ((h9 * 8 + i) * 2 ^ 2) 3 ≡ (h9 * 8 + i) * 2 ^ 2 + 3 =
      or_below 2 (h9 * 8 + i) 3 (omega arith) in
    rw
      (
        and_field 36 12 e,
        digit ba.uxn,
        digit ba.pxn,
        digit ba.continuous_bit,
        digit ba.dirty_bit,
        digit ba.not_global,
        digit ba.access_flag,
        digits_two ba.shareability,
        digits_two ba.access_permission,
        digit ba.non_secure,
        digit ba.attr_index,
        or_above 54 u a (omega arith),
        x2,
        x3,
        x4,
        x5,
        x6,
        x7,
        x8,
        x9,
        x10,
        x11,
      )
      (omega arith)

-- A word with a new address: 24 digits of the page, under the 12 highest digits of the address.
pub with_inner_lem : (e inner : ℕ) → page_of (with_inner e inner) ≡ inner / 2 ^ 12 % 2 ^ 24
unfolding with_inner
with_inner_lem e inner =
    let high = e / 2 ^ 48 % 2 ^ 16 in
    let low = e % 2 ^ 12 in
    let j = inner / 2 ^ 12 % 2 ^ 24 in
    let k = inner % 2 ^ 12 in
    let whole : e / 2 ^ 48 * 2 ^ 48 + e % 2 ^ 48 ≡ e = omega arith in
    let kept : bit_and e (bit_or (mask 63 48) (mask 11 0)) ≡ high * 2 ^ 36 * 2 ^ 12 + low = omega (
      arith,
      ap (λ (v : ℕ). bit_and v (bit_or (mask 63 48) (mask 11 0))) whole,
      and_split 48 (e / 2 ^ 48) (e % 2 ^ 48) (2 ^ 16 - 1) (2 ^ 12 - 1) (omega arith) (omega arith),
      and_field 16 0 (e / 2 ^ 48),
      and_field 12 0 (e % 2 ^ 48),
    ) in
    let put : bit_and inner (mask 35 0) ≡ j * 2 ^ 12 + k = omega (arith, and_field 36 0 inner) in
    rw (kept, put)
      (omega (
        arith,
        or_split 12 (high * 2 ^ 36) low j k (omega arith) (omega arith),
        or_below 36 high j (omega arith),
        or_lt 12 low k (omega arith) (omega arith),
      ))

-- The words that the other operations write keep the address; the low digits say what they are.
pub table_bits : (e : ℕ) → is_table_entry e ≡ (e % 4 == 3)
unfolding is_table_entry
table_bits e = rw (digits_two e) refl

pub block_bits : (e : ℕ) → is_block_entry e 3 ≡ (e % 4 == 3)
unfolding is_block_entry
block_bits e = rw (digits_two e) refl

pub invalid_lem : (e : ℕ) → e < u64 → bit_and e (mask 63 1) ≡ e / 2 * 2
invalid_lem e h = omega (arith, and_field 63 1 e)

both_set : (r : ℕ) → r < 4 → bit_or r 3 ≡ 3
both_set zero h = refl
both_set (suc zero) h = refl
both_set (suc (suc zero)) h = refl
both_set (suc (suc (suc zero))) h = refl
both_set (suc (suc (suc (suc r)))) h = absurd (omega arith)

pub identifier_lem : (e : ℕ) → bit_or e 3 ≡ e / 4 * 4 + 3
identifier_lem e =
    let whole : e / 4 * 2 ^ 2 + e % 4 ≡ e = omega arith in
    omega (
      arith,
      ap (λ (v : ℕ). bit_or v 3) whole,
      or_split 2 (e / 4) (e % 4) 0 3 (omega arith) (omega arith),
      or_zero (e / 4),
      both_set (e % 4) (omega arith),
    )
