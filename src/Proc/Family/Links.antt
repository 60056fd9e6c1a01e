-- ===== src/Proc/Family/Links.antt =====
-- What `add_child` and `remove_child` leave in the descriptors.
use mathlib.Core.Path.{fun_ext}
use sysres_os.Base.{
  ℕ, ◌<◌, ◌≡◌, refl, true, false, Option, none, some, ◌==◌, ◌&&◌, arith, same_ptr, if◌then◌else◌,
  ap, ◌∙◌, Bool-cases, inl, inr, lt→ltb,
}
use sysres_os.Proc.State.{Proc, Sys, max_proc}
use sysres_os.Proc.Run.{done, load, change}
use sysres_os.Proc.Family.{add_child, remove_child}
use sysres_os.Proc.Queue.Update.{change_lem}

-- The descriptors once `c` has left the ring, where `a` stood before it and `b` behind it.
unfoldable pub removed : (ℕ → Proc) → (parent c a b : ℕ) → ℕ → Proc
removed g parent c a b x = record (g x) {
  next_sibling = if x == a then some b else (g x).next_sibling;
  prev_sibling = if x == b then some a else (g x).prev_sibling;
  child =
      if (x == parent) && same_ptr (g parent).child c
      then (if b == c then none else some b)
      else (g x).child;
}

-- The descriptors once `c` is the only child, or the one before `h`, behind the last child `l`.
unfoldable pub adopted_first : (ℕ → Proc) → (parent c : ℕ) → ℕ → Proc
adopted_first g parent c x = record (g x) {
  next_sibling = if x == c then some c else (g x).next_sibling;
  prev_sibling = if x == c then some c else (g x).prev_sibling;
  child = if x == parent then some c else (g x).child;
}

unfoldable pub adopted_front : (ℕ → Proc) → (parent c h l : ℕ) → ℕ → Proc
adopted_front g parent c h l x = record (g x) {
  next_sibling = if x == l then some c else if x == c then some h else (g x).next_sibling;
  prev_sibling = if x == h then some c else if x == c then some l else (g x).prev_sibling;
  child = if x == parent then some c else (g x).child;
}

-- The state with other descriptors.
abbrev pub with_procs : Sys → (ℕ → Proc) → Sys
with_procs s f = record s { procs = f }

-- The three kinds of writes, over the whole table.
abbrev set_next : (ℕ → Proc) → ℕ → Option ℕ → ℕ → Proc
set_next g p v x = record (g x) { next_sibling = if x == p then v else (g x).next_sibling }

abbrev set_prev : (ℕ → Proc) → ℕ → Option ℕ → ℕ → Proc
set_prev g p v x = record (g x) { prev_sibling = if x == p then v else (g x).prev_sibling }

abbrev set_child : (ℕ → Proc) → ℕ → Option ℕ → ℕ → Proc
set_child g p v x = record (g x) { child = if x == p then v else (g x).child }

module _ (s : Sys) (p : ℕ) (v : Option ℕ) (h : p < max_proc) where
  change_next :
      change p (λ r. record r { next_sibling = v }) s
      ≡ done tt (with_procs s (set_next s.procs p v))
  change_next =
      change_lem s p (λ r. record r { next_sibling = v }) h
      ∙ ap (λ f. done tt (with_procs s f)) (fun_ext λ x. ground arith)

  change_prev :
      change p (λ r. record r { prev_sibling = v }) s
      ≡ done tt (with_procs s (set_prev s.procs p v))
  change_prev =
      change_lem s p (λ r. record r { prev_sibling = v }) h
      ∙ ap (λ f. done tt (with_procs s f)) (fun_ext λ x. ground arith)

  change_child :
      change p (λ r. record r { child = v }) s ≡ done tt (with_procs s (set_child s.procs p v))
  change_child =
      change_lem s p (λ r. record r { child = v }) h
      ∙ ap (λ f. done tt (with_procs s f)) (fun_ext λ x. ground arith)

  change_both :
      (w : Option ℕ)
      → change p (λ r. record r { next_sibling = v; prev_sibling = w }) s
        ≡ done tt (with_procs s (set_prev (set_next s.procs p v) p w))
  change_both w =
      change_lem s p (λ r. record r { next_sibling = v; prev_sibling = w }) h
      ∙ ap (λ f. done tt (with_procs s f)) (fun_ext λ x. ground arith)

module _ (s : Sys) (parent c : ℕ) (hpar : parent < max_proc) (hc : c < max_proc) where
  module _ (a b : ℕ) (ha : a < max_proc) (hb : b < max_proc)
      (en : (s.procs c).next_sibling ≡ some b) (ep : (s.procs c).prev_sibling ≡ some a) where
    abbrev joined : ℕ → Proc
    joined = set_prev (set_next s.procs a (some b)) b (some a)

    still : (joined c).next_sibling ≡ some b
    still = ground arith

    -- The head moves on if it is `c`.
    abbrev moved : Option ℕ
    moved = if b == c then none else some b

    head_lem :
        (x : ℕ)
        → same_ptr (s.procs parent).child c ≡ true
        → set_child joined parent moved x ≡ removed s.procs parent c a b x
    unfolding removed
    head_lem x e = rw e (ground arith)

    inner_lem :
        (x : ℕ)
        → same_ptr (s.procs parent).child c ≡ false
        → joined x ≡ removed s.procs parent c a b x
    unfolding removed
    inner_lem x e = rw e (ground arith)

    pub remove_child_lem :
        remove_child parent c s ≡ done tt (with_procs s (removed s.procs parent c a b))
    unfolding remove_child load
    remove_child_lem = elim (Bool-cases (same_ptr (s.procs parent).child c)) [
      | inl e ↦
          rw
            (
              lt→ltb c max_proc hc,
              ep,
              en,
              change_next s a (some b) ha,
              change_prev (with_procs s (set_next s.procs a (some b))) b (some a) hb,
              lt→ltb parent max_proc hpar,
              lt→ltb c max_proc hc,
              e,
              still,
              change_child (with_procs s joined) parent moved hpar,
            )
            (ap (λ f. done tt (with_procs s f)) (fun_ext λ x. head_lem x e))
      | inr e ↦
          rw
            (
              lt→ltb c max_proc hc,
              ep,
              en,
              change_next s a (some b) ha,
              change_prev (with_procs s (set_next s.procs a (some b))) b (some a) hb,
              lt→ltb parent max_proc hpar,
              lt→ltb c max_proc hc,
              e,
            )
            (ap (λ f. done tt (with_procs s f)) (fun_ext λ x. inner_lem x e))
    ]

  pub add_child_first_lem :
      (s.procs parent).child ≡ none
      → add_child parent c s ≡ done tt (with_procs s (adopted_first s.procs parent c))
  unfolding add_child load adopted_first
  add_child_first_lem e =
      rw
        (
          lt→ltb parent max_proc hpar,
          e,
          change_both s c (some c) hc (some c),
          change_child (with_procs s (set_prev (set_next s.procs c (some c)) c (some c))) parent
              (some c) hpar,
        )
        refl

  module _ (h l : ℕ) (hh : h < max_proc) (hl : l < max_proc) (nh : (c == h) ≡ false) where
    abbrev placed : ℕ → Proc
    placed = set_prev (set_prev (set_next s.procs c (some h)) c (some l)) h (some c)

    behind : (placed c).prev_sibling ≡ some l
    behind = ground arith

    pub add_child_front_lem :
        (s.procs parent).child ≡ some h
        → (s.procs h).prev_sibling ≡ some l
        → add_child parent c s ≡ done tt (with_procs s (adopted_front s.procs parent c h l))
    unfolding add_child load adopted_front
    add_child_front_lem e el =
        rw
          (
            lt→ltb parent max_proc hpar,
            e,
            lt→ltb h max_proc hh,
            el,
            change_both s c (some h) hc (some l),
            change_prev (with_procs s (set_prev (set_next s.procs c (some h)) c (some l))) h
                (some c) hh,
            lt→ltb c max_proc hc,
            behind,
            change_next (with_procs s placed) l (some c) hl,
            change_child (with_procs s (set_next placed l (some c))) parent (some c) hpar,
          )
          refl
