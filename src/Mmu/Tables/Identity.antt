-- ===== src/Mmu/Tables/Identity.antt =====
-- The identity that the kernel's pages are bound by.
use sysres_os.Base.{
  ℕ, zero, suc, ◌+◌, ◌*◌, ◌/◌, ◌%◌, ◌^◌, ◌<◌, ◌≤◌, ◌≡◌, ◌∙◌, refl, true, ltb, leb, ◌==◌, ◌&&◌,
  if◌then◌else◌, some, arith,
}
use sysres_os.Step.{◌>>◌, returns}
use sysres_os.Mmu.State.{Mmu, BlockAttributes, page_size}
use sysres_os.Mmu.Entry.Fields.{block_bits}
use sysres_os.Mmu.Walk.Layout.{
  IsLaidOut, n_pages, table_slot, page_slot, valid, page_at, lvl3_mapped, slot_status,
  get_physical_address-refines,
}
use sysres_os.Mmu.Bind.Fresh.{bind_address-refines}
use sysres_os.Mmu.Tables.{check_pages, check_identity_paging, pages_between, bind_identity}

-- `s'` is `s` with each of the `n` pages from page `k` on bound to itself.
pub record IsIdentity (s : Mmu) (k n : ℕ) (s' : Mmu) : Type 0 where
  pub maps :
      (x : ℕ)
      → x < n_pages
      → page_at s' x ≡ (if leb k x && ltb x (k + n) then some x else page_at s x)
  pub laid : IsLaidOut s'
  pub same_size : s'.id_paging_size ≡ s.id_paging_size

next_page : (k : ℕ) → k * 2 ^ 12 + page_size ≡ (k + 1) * 2 ^ 12
next_page k = omega arith

page_back : (k : ℕ) → k * 2 ^ 12 / 2 ^ 12 ≡ k
page_back k = omega arith

bind_identity-IsIdentity :
    (n k : ℕ) (s : Mmu) (ba : BlockAttributes)
    → IsLaidOut s
    → k + n ≤ n_pages
    → (k + n) * 2 ^ 12 ≤ s.id_paging_size
    → (s' : Mmu) × (bind_identity n (k * 2 ^ 12) ba s ≡ returns tt s') × IsIdentity s k n s'
unfolding bind_identity
bind_identity-IsIdentity zero k s ba l inside low =
    (s, refl, record { maps = λ x h. ground arith; laid = l; same_size = refl })
bind_identity-IsIdentity (suc n) k s ba l inside low =
    let (t, run, b) =
      bind_address-refines s l (k * 2 ^ 12) k (omega arith) (omega arith) ba
        (λ above. absurd (omega arith)) in
    let same = b.same_size in
    let (u, run_rest, rest) =
      bind_identity-IsIdentity n (k + 1) t ba b.laid (omega arith) (omega (arith, same)) in
    (
      u,
      rw (run, next_page k) run_rest,
      record {
        maps = λ x h. ground (arith, rest.maps x h, b.maps x h, page_back k);
        laid = rest.laid;
        same_size = rest.same_size ∙ same;
      },
    )

-- The check on pages that are bound to themselves.
check_pages_lem :
    (n k : ℕ) (s : Mmu)
    → IsLaidOut s
    → k + n ≤ n_pages
    → ((x : ℕ) → k ≤ x → x < k + n → page_at s x ≡ some x)
    → check_pages n (k * 2 ^ 12) s ≡ returns tt s
unfolding check_pages
check_pages_lem zero k s l inside same = refl
check_pages_lem (suc n) k s l inside same =
    let bound : page_at s (k * 2 ^ 12 / 2 ^ 12) ≡ some k =
      rw (page_back k) (same k (omega arith) (omega arith)) in
    let ok : valid (s.word (table_slot s (k * 2 ^ 12 / 2 ^ 12))) ≡ true = ground (arith, bound) in
    let entry : (s.word (page_slot s (k * 2 ^ 12 / 2 ^ 12)) % 4 == 3) ≡ true =
      ground (arith, bound) in
    let whole : k * 2 ^ 12 + k * 2 ^ 12 % 2 ^ 12 ≡ k * 2 ^ 12 = omega arith in
    let itself : (k * 2 ^ 12 == k * 2 ^ 12) ≡ true = ground arith in
    rw
      (
        lvl3_mapped s l (k * 2 ^ 12) (omega arith) ok,
        slot_status s l (k * 2 ^ 12) (omega arith),
        block_bits (s.word (page_slot s (k * 2 ^ 12 / 2 ^ 12))),
        entry,
        get_physical_address-refines s l (k * 2 ^ 12) (omega arith) k bound,
        whole,
        itself,
        next_page k,
      )
      (check_pages_lem n (k + 1) s l (omega arith)
        (λ x low high. same x (omega arith) (omega arith)))

-- Where the kernel's area is `n` whole pages, `bind_identity` of them returns, the check of
-- `check_identity_paging` that follows passes, and then exactly these pages are bound anew, each to
-- itself.
pub bind_identity-check_identity_paging :
    (n : ℕ) (s : Mmu) (ba : BlockAttributes)
    → IsLaidOut s
    → n ≤ n_pages
    → s.id_paging_size ≡ n * 2 ^ 12
    → (s' : Mmu) × ((bind_identity n 0 ba >> check_identity_paging) s ≡ returns tt s')
      × IsIdentity s 0 n s'
unfolding check_identity_paging
bind_identity-check_identity_paging n s ba l inside size =
    let (t, run, i) = bind_identity-IsIdentity n 0 s ba l (omega arith) (omega (arith, size)) in
    let rounds : pages_between 0 t.id_paging_size ≡ n = omega (arith, size, i.same_size) in
    (
      t,
      rw (run, rounds)
          (check_pages_lem n 0 t i.laid (omega arith)
            (λ x low high. ground (arith, i.maps x (omega arith), low, high))),
      i,
    )
