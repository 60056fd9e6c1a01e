-- ===== src/Proc/Family/Walk.antt =====
-- The loops over the children of a process, along the list of the children.
use mathlib.Core.Path.{fun_ext}
use sysres_os.Base.{
  ℕ, zero, suc, ◌+◌, ◌<◌, ◌≤◌, ◌≡◌, refl, true, false, Option, none, some, List, [], ◌∷◌, arith,
  same_ptr, if◌then◌else◌, has, Distinct, length, count, count-le, count_drop, lt→ltb, ap, ◌∙◌,
  Bool-cases, inl, inr,
}
use sysres_os.Ring.{IsRing, Seg, Seg_congr}
use sysres_os.Proc.State.{Proc, Sys, max_proc, is_zombie, init_pid}
use sysres_os.Proc.Run.{done, load, update}
use sysres_os.Proc.Family.{count_siblings, print_children}
use sysres_os.Proc.Family.Links.{with_procs}
use sysres_os.Proc.Lifecycle.{find_zombie, orphan}
use sysres_os.Proc.Queue.Update.{change_lem}

abbrev pub siblings_next : (ℕ → Proc) → ℕ → Option ℕ
siblings_next g x = (g x).next_sibling

abbrev pub siblings_prev : (ℕ → Proc) → ℕ → Option ℕ
siblings_prev g x = (g x).prev_sibling

-- The children of `parent`, in order.
abbrev pub IsChildren : (ℕ → Proc) → ℕ → List ℕ → Type 0
IsChildren g parent xs = IsRing (siblings_next g) (siblings_prev g) (g parent).child xs

abbrev pub Slots : List ℕ → Type 0
Slots xs = (x : ℕ) → has x xs ≡ true → x < max_proc

-- Distinct numbers below a bound are not more than the bound.
length-count :
    (xs : List ℕ) (n : ℕ)
    → Distinct xs
    → ((x : ℕ) → has x xs ≡ true → x < n)
    → length xs ≤ count (λ x. has x xs) n
length-count [] n d below = omega arith
length-count (a ∷ xs) n d below =
    let more =
      count_drop {P = λ x. has x (a ∷ xs)} {Q = λ x. has x xs} n a (below a (ground arith))
        (ground arith) d.0 (λ x ne. ground arith) in
    omega (arith, more, length-count xs n d.1 (λ x h. below x (ground arith)))

pub length-Slots : (xs : List ℕ) → Distinct xs → Slots xs → length xs ≤ max_proc
length-Slots xs d below =
    omega (arith, length-count xs max_proc d below, count-le (λ x. has x xs) max_proc)

-- The first zombie in a list.
unfoldable pub first_zombie : (ℕ → Proc) → List ℕ → Option ℕ
first_zombie g [] = none
first_zombie g (x ∷ xs) = if is_zombie (g x).state then some x else first_zombie g xs

-- Where the loop of `syscall_wait` stops: at the first zombie, or at the last of the list.
unfoldable pub stop_at : (ℕ → Proc) → List ℕ → ℕ → ℕ
stop_at g [] d = d
stop_at g (x ∷ xs) d = if is_zombie (g x).state then x else stop_at g xs x

pub stop_at_zombie :
    (g : ℕ → Proc) (xs : List ℕ) (d : ℕ)
    → is_zombie (g d).state ≡ false
    → first_zombie g xs
      ≡ (if is_zombie (g (stop_at g xs d)).state then some (stop_at g xs d) else none)
unfolding first_zombie stop_at
stop_at_zombie g [] d h = rw h refl
stop_at_zombie g (x ∷ xs) d h = elim (Bool-cases (is_zombie (g x).state)) [
  | inl e ↦ rw (e, e) refl
  | inr e ↦ rw e (stop_at_zombie g xs x e)
]

pub has-stop_at : (g : ℕ → Proc) (xs : List ℕ) (d : ℕ) → has (stop_at g xs d) (d ∷ xs) ≡ true
unfolding stop_at
has-stop_at g [] d = ground arith
has-stop_at g (x ∷ xs) d = ground (arith, has-stop_at g xs x)

-- The children of the list go to process 1.
unfoldable pub orphaned : (ℕ → Proc) → List ℕ → ℕ → Proc
orphaned g xs x = if has x xs then record (g x) { parent_pid = init_pid } else g x

module _ (h : ℕ) where
  pub count_siblings_lem :
      (s : Sys) (fuel c n : ℕ) (ys : List ℕ)
      → length ys < fuel
      → Slots (c ∷ ys)
      → has h ys ≡ false
      → Seg (siblings_next s.procs) (siblings_prev s.procs) c ys h
      → count_siblings fuel c h n s ≡ done (n + length ys) s
  unfolding count_siblings load
  count_siblings_lem s zero c n ys lt slots out seg = absurd (omega arith)
  count_siblings_lem s (suc fuel) c n [] lt slots out seg =
      let self : same_ptr (some h) h ≡ true = ground arith in
      rw (lt→ltb c max_proc (slots c (ground arith)), seg.0, self)
        (ap (λ m. done m s) (omega arith))
  count_siblings_lem s (suc fuel) c n (y ∷ ys) lt slots out seg =
      let other : same_ptr (some y) h ≡ false = ground arith in
      rw (lt→ltb c max_proc (slots c (ground arith)), seg.0.0, other)
        (count_siblings_lem s fuel y (n + 1) ys (omega arith) (λ x i. slots x (ground arith))
            (ground arith) seg.1
          ∙ ap (λ m. done m s) (omega arith))

  -- From a child that is followed by `ys`, of which there are some.
  pub find_zombie_lem :
      (s : Sys) (fuel c y : ℕ) (ys : List ℕ)
      → length ys < fuel
      → Slots (c ∷ y ∷ ys)
      → has h (y ∷ ys) ≡ false
      → Seg (siblings_next s.procs) (siblings_prev s.procs) c (y ∷ ys) h
      → find_zombie fuel c h s ≡ done (stop_at s.procs (y ∷ ys) c) s
  unfolding find_zombie load stop_at
  find_zombie_lem s zero c y ys lt slots out seg = absurd (omega arith)
  find_zombie_lem s (suc fuel) c y [] lt slots out seg =
      let self : same_ptr (some h) h ≡ true = ground arith in
      elim (Bool-cases (is_zombie (s.procs y).state)) [
        | inl e ↦
            rw
              (
                lt→ltb c max_proc (slots c (ground arith)),
                seg.0.0,
                lt→ltb y max_proc (slots y (ground arith)),
                e,
              )
              refl
        | inr e ↦
            rw
              (
                lt→ltb c max_proc (slots c (ground arith)),
                seg.0.0,
                lt→ltb y max_proc (slots y (ground arith)),
                e,
                seg.1.0,
                self,
              )
              refl
      ]
  find_zombie_lem s (suc fuel) c y (z ∷ ys) lt slots out seg =
      let other : same_ptr (some z) h ≡ false = ground arith in
      elim (Bool-cases (is_zombie (s.procs y).state)) [
        | inl e ↦
            rw
              (
                lt→ltb c max_proc (slots c (ground arith)),
                seg.0.0,
                lt→ltb y max_proc (slots y (ground arith)),
                e,
              )
              refl
        | inr e ↦
            rw
              (
                lt→ltb c max_proc (slots c (ground arith)),
                seg.0.0,
                lt→ltb y max_proc (slots y (ground arith)),
                e,
                seg.1.0.0,
                other,
              )
              (find_zombie_lem s fuel y z ys (omega arith) (λ x i. slots x (ground arith))
                (ground arith) seg.1)
      ]

  pub orphan_lem :
      (s : Sys) (fuel c : ℕ) (ys : List ℕ)
      → length ys < fuel
      → Slots (c ∷ ys)
      → has h ys ≡ false
      → Seg (siblings_next s.procs) (siblings_prev s.procs) c ys h
      → orphan fuel c h s ≡ done tt (with_procs s (orphaned s.procs (c ∷ ys)))
  unfolding orphan load orphaned
  orphan_lem s zero c ys lt slots out seg = absurd (omega arith)
  orphan_lem s (suc fuel) c [] lt slots out seg =
      let self : same_ptr (some h) h ≡ true = ground arith in
      let g = update s.procs c (record (s.procs c) { parent_pid = init_pid }) in
      let kept : (g c).next_sibling ≡ some h = ground arith in
      rw
        (
          change_lem s c (λ r. record r { parent_pid = init_pid }) (slots c (ground arith)),
          lt→ltb c max_proc (slots c (ground arith)),
          kept,
          self,
        )
        (ap (λ f. done tt (with_procs s f)) (fun_ext λ x. ground arith))
  orphan_lem s (suc fuel) c (y ∷ ys) lt slots out seg =
      let other : same_ptr (some y) h ≡ false = ground arith in
      let g = update s.procs c (record (s.procs c) { parent_pid = init_pid }) in
      let kept : (g c).next_sibling ≡ some y = ground arith in
      rw
        (
          change_lem s c (λ r. record r { parent_pid = init_pid }) (slots c (ground arith)),
          lt→ltb c max_proc (slots c (ground arith)),
          kept,
          other,
        )
        (orphan_lem (with_procs s g) fuel y ys (omega arith) (λ x i. slots x (ground arith))
            (ground arith)
            (Seg_congr (siblings_next s.procs) (siblings_prev s.procs) (siblings_next g)
              (siblings_prev g) y h ys seg.1 (λ x i. ground arith) (λ x i. ground arith))
          ∙ ap (λ f. done tt (with_procs s f)) (fun_ext λ x. ground arith))

-- `print_children` returns, and counts the children.
pub print_children_lem :
    (s : Sys) (parent : ℕ) (xs : List ℕ)
    → parent < max_proc
    → IsChildren s.procs parent xs
    → Slots xs
    → print_children parent s ≡ done (length xs) s
unfolding print_children load
print_children_lem s parent [] hp ring slots = rw (lt→ltb parent max_proc hp, ring) refl
print_children_lem s parent (h ∷ ys) hp ring slots =
    rw (lt→ltb parent max_proc hp, ring.0)
      (count_siblings_lem h s max_proc h 1 ys (omega (arith, length-Slots (h ∷ ys) ring.2 slots))
          slots ring.2.0 ring.1
        ∙ ap (λ m. done m s) (omega arith))

-- What `first_zombie` finds is a zombie of the list.
pub first_zombie_found :
    (g : ℕ → Proc) (xs : List ℕ) (z : ℕ)
    → first_zombie g xs ≡ some z
    → (has z xs ≡ true) × (is_zombie (g z).state ≡ true)
unfolding first_zombie
first_zombie_found g [] z e = ground arith
first_zombie_found g (x ∷ xs) z e = elim (Bool-cases (is_zombie (g x).state)) [
  | inl on ↦ (ground arith, ground arith)
  | inr off ↦ let (i, on) = first_zombie_found g xs z (ground arith) in (ground arith, on)
]

-- The loop of `syscall_wait` from the only child: it looks at that child once more.
pub find_zombie_alone :
    (s : Sys) (h : ℕ)
    → h < max_proc
    → (s.procs h).next_sibling ≡ some h
    → is_zombie (s.procs h).state ≡ false
    → find_zombie max_proc h h s ≡ done h s
unfolding find_zombie load
find_zombie_alone s h hh e off =
    let self : same_ptr (some h) h ≡ true = ground arith in
    rw (lt→ltb h max_proc hh, e, lt→ltb h max_proc hh, off, e, self) refl
