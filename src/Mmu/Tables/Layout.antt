-- ===== src/Mmu/Tables/Layout.antt =====
-- The table of level 2 of a process.
use mathlib.Core.Path.{fun_ext}
use sysres_os.Base.{
  ℕ, zero, suc, ◌+◌, ◌*◌, ◌/◌, ◌%◌, ◌^◌, ◌<◌, ◌≤◌, ◌≡◌, ◌∙◌, refl, true, ltb, leb, ◌==◌, u64, arith,
  Bool-cases, inl, inr,
}
use sysres_os.Proc.Run.{update}
use sysres_os.Step.{returns}
use sysres_os.Mmu.State.{Mmu, page_size}
use sysres_os.Mmu.Entry.{
  init_table_entry_sg1, set_table_attributes_sg1, with_inner, with_table_attributes,
  new_table_attributes_sg1,
}
use sysres_os.Mmu.Entry.Fields.{page_of, with_inner_lem}
use sysres_os.Mmu.Entry.TableFields.{with_table_attributes_lem}
use sysres_os.Mmu.Walk.Layout.{IsLaidOut, valid}
use sysres_os.Mmu.Tables.{populate_entries, populate_lvl2_table}

-- The entry of a table, written over a word.
abbrev table_entry : (old inner : ℕ) → ℕ
table_entry old inner = with_table_attributes (with_inner old inner) new_table_attributes_sg1

entry_page : (old inner : ℕ) → page_of (table_entry old inner) ≡ inner / 2 ^ 12 % 2 ^ 24
entry_page old inner = omega (
  arith,
  with_table_attributes_lem (with_inner old inner) new_table_attributes_sg1,
  with_inner_lem old inner,
)

entry_valid : (old inner : ℕ) → table_entry old inner % 4 ≡ 3
entry_valid old inner =
    omega (arith, with_table_attributes_lem (with_inner old inner) new_table_attributes_sg1)

entry_word : (old inner : ℕ) → table_entry old inner < u64
entry_word old inner =
    omega (arith, with_table_attributes_lem (with_inner old inner) new_table_attributes_sg1)

overwrite : (f : ℕ → ℕ) (a x y : ℕ) → update (update f a x) a y ≡ update f a y
overwrite f a x y = fun_ext λ k. ground arith

self : (k : ℕ) → (k == k) ≡ true
self k = ground arith

-- `w'` has the words of `w` but for the entries from the `i`th to before the `n`th of the table at `t`,
-- which lead to the pages from `a` on.
record IsFilled (t a i n : ℕ) (w w' : ℕ → ℕ) : Type 0 where
  pages : (j : ℕ) → i ≤ j → j < n → page_of (w' (t + j * 8)) ≡ (a + j * 2 ^ 12) / 2 ^ 12 % 2 ^ 24
  valids : (j : ℕ) → i ≤ j → j < n → w' (t + j * 8) % 4 ≡ 3
  others : (x : ℕ) → ltb x (t + i * 8) ≡ true → w' x ≡ w x
  behind : (x : ℕ) → leb (t + n * 8) x ≡ true → w' x ≡ w x
  words : ((x : ℕ) → w x < u64) → (x : ℕ) → w' x < u64

populate_entries-IsFilled :
    (rounds i n a : ℕ) (s : Mmu)
    → i + rounds ≡ n
    → (w : ℕ → ℕ) × (populate_entries rounds i a s ≡ returns tt (record s { word = w }))
      × IsFilled s.lvl2_table_address a i n s.word w
unfolding populate_entries init_table_entry_sg1 set_table_attributes_sg1
populate_entries-IsFilled zero i n a s e = (
  s.word,
  refl,
  record {
    pages = λ j low high. absurd (omega arith);
    valids = λ j low high. absurd (omega arith);
    others = λ x h. refl;
    behind = λ x h. refl;
    words = λ h. h;
  },
)
populate_entries-IsFilled (suc rounds) i n a s e =
    let at = s.lvl2_table_address + i * 8 in
    let new = table_entry (s.word at) (a + i * page_size) in
    let (w, run, f) =
      populate_entries-IsFilled rounds (i + 1) n a (record s { word = update s.word at new })
        (omega arith) in
    let first : w at ≡ new = f.others at (ground arith) ∙ ground arith in
    (
      w,
      rw (self at, overwrite s.word at (with_inner (s.word at) (a + i * page_size)) new) run,
      record {
        pages = λ j low high. elim (Bool-cases (j == i)) [
          | inl same ↦
              let eq : j ≡ i = ground arith in
              rw (eq, first) (entry_page (s.word at) (a + i * page_size))
          | inr ne ↦ f.pages j (ground (arith, ne, low)) high
        ];
        valids = λ j low high. elim (Bool-cases (j == i)) [
          | inl same ↦
              let eq : j ≡ i = ground arith in
              rw (eq, first) (entry_valid (s.word at) (a + i * page_size))
          | inr ne ↦ f.valids j (ground (arith, ne, low)) high
        ];
        others = λ x h. f.others x (ground arith) ∙ ground arith;
        behind = λ x h. f.behind x h ∙ ground arith;
        words = λ h. f.words (λ x. ground (arith, h x, entry_word (s.word at) (a + i * page_size)));
      },
    )

-- The table that `populate_lvl2_table` fills for the tables that lie behind it is laid out. Every entry
-- but the last is a table entry, and the words before and behind these entries stay as they were. The
-- table starts at a multiple of 2 ^ 17, below 2 ^ 36 - 2 ^ 21.
pub populate_lvl2_table-IsLaidOut :
    (s : Mmu)
    → s.lvl2_table_address % 2 ^ 17 ≡ 0
    → s.lvl2_table_address + 2 ^ 21 ≤ 2 ^ 36
    → ((x : ℕ) → s.word x < u64)
    → (w : ℕ → ℕ) × (populate_lvl2_table (s.lvl2_table_address + page_size) s
        ≡ returns tt (record s { word = w }))
      × IsLaidOut (record s { word = w })
      × ((i : ℕ) → i < 511 → valid (w (s.lvl2_table_address + 8 * i)) ≡ true)
      × ((x : ℕ) → ltb x s.lvl2_table_address ≡ true → w x ≡ s.word x)
      × ((x : ℕ) → leb (s.lvl2_table_address + 8 * 511) x ≡ true → w x ≡ s.word x)
unfolding populate_lvl2_table
populate_lvl2_table-IsLaidOut s aligned low words =
    let t = s.lvl2_table_address in
    let (w, run, f) = populate_entries-IsFilled 511 0 511 (t + page_size) s refl in
    let whole : (t % page_size == 0) ≡ true = ground (arith, aligned) in
    let next : ((t + page_size) % page_size == 0) ≡ true = ground (arith, aligned) in
    let slot : (i : ℕ) → t + 8 * i ≡ t + i * 8 = λ i. omega arith in
    (
      w,
      rw (whole, next) run,
      record {
        aligned = aligned;
        low = low;
        tables = λ i h. rw (slot i) (omega (arith, f.pages i (omega arith) h, aligned, low));
        words = f.words words;
      },
      (λ i h. rw (slot i) (ground (arith, f.valids i (omega arith) h))),
      (λ x h. f.others x (ground (arith, h))),
      (λ x h. f.behind x (ground (arith, h))),
    )
