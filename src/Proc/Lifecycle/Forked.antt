-- ===== src/Proc/Lifecycle/Forked.antt =====
-- What `fork_child` leaves in the descriptors, and that it keeps the families in order.
use mathlib.Core.Path.{fun_ext}
use sysres_os.Base.{
  ap, false, ℕ, ◌<◌, ◌≡◌, refl, true, none, List, [], ◌∷◌, arith, if◌then◌else◌, ◌==◌, ◌*◌, ◌-◌,
  ◌%◌, ◌^◌, bit_and, bit_or, u64, of_int,
}
use sysres_os.Proc.State.{Proc, free, quantum, max_proc, n_prio, is_free, runnable}
use sysres_os.Proc.Run.{update}
use sysres_os.Proc.Descriptor.{child_descriptor, new_proc_descriptor, with_reg}
use sysres_os.Proc.Sound.{AreOrderly, IsOrderly}
use sysres_os.Proc.Family.Links.{adopted_first, adopted_front}
use sysres_os.Proc.Family.Kin.{is_live, IsKin, SameKin, IsKin-congr}
use sysres_os.Proc.Family.Adopted.{adopted, kin_adopted, IsKin-adopted}

-- The parent with its result, and the descriptor that the child starts with.
abbrev pub told : (ℕ → Proc) → (p c : ℕ) → ℕ → Proc
told g p c = update g p (with_reg 0 (of_int c) (g p))

abbrev newborn_with : (ℕ → ℕ) → Proc → (c priority : ℕ) → Proc
newborn_with registers r c priority = record {
  pid = c;
  parent_pid = r.pid;
  priority = priority;
  state = free;
  sched_conf = record { time_left = quantum; preempt = r.sched_conf.preempt };
  initialized = false;
  saved_context = record {
    registers = registers;
    pc = r.saved_context.pc;
    sp = r.saved_context.sp;
    pstate = r.saved_context.pstate;
    sctlr_el1 = 0xc00801;
  };
  mem_conf = r.mem_conf;
  err = r.err;
  child = none;
  next_sibling = none;
  prev_sibling = none;
  buffer = record { buff = λ i. 0; used_size = 0; write_addr = 0 };
  sender_data = record {
    target_pid = 0;
    send_size = 0;
    ack_data = 0;
    ack_size = 0;
    acknowledged = true;
  };
  receiver_data = record { source_pid = 0; receive_size = 0; receive_data = 0; return_code = 0 };
  next_same_prio = none;
  prev_same_prio = none;
}

-- The child of process `p`: the parent's context, with 0 as the result.
unfoldable pub newborn : (ℕ → Proc) → (p c priority : ℕ) → Proc
newborn g p c priority =
    newborn_with (λ i. if i == 0 then 0 else (g p).saved_context.registers i) (g p) c priority

told_at : (g : ℕ → Proc) (p c : ℕ) → told g p c p ≡ with_reg 0 (of_int c) (g p)
told_at g p c = let here : (p == p) ≡ true = ground arith in rw here refl

pub newborn_lem :
    (g : ℕ → Proc) (p c priority : ℕ)
    → with_reg 0 0 (child_descriptor (told g p c p) c priority) ≡ newborn g p c priority
unfolding newborn child_descriptor new_proc_descriptor
newborn_lem g p c priority =
    rw (told_at g p c)
      (ap (λ (f : ℕ → ℕ). newborn_with f (g p) c priority) (fun_ext λ i. ground arith))

-- `ttbr0_el1` of process `pid`, whose table lies at `lvl2`.
unfoldable pub table_root : (lvl2 pid : ℕ) → ℕ
table_root lvl2 pid = bit_or ((pid * 2 ^ 48) % u64) (bit_and lvl2 (2 ^ 48 - 2))

-- The writes to the child once it is in its queue.
abbrev pub with_root : ℕ → Proc → Proc
with_root root r = record r { mem_conf = record (r.mem_conf) { ttbr0_el1 = root } }

abbrev pub ready : ℕ → Proc → Proc
ready root r = record (with_root root r) { initialized = true }

-- The descriptors once process `p`, whose children were `xs`, has the child `c`.
unfoldable pub forked : (lvl2 : ℕ) → (ℕ → Proc) → (p c priority : ℕ) → List ℕ → ℕ → Proc
forked lvl2 g p c priority xs =
    let h = adopted (told g p c) p c (newborn g p c priority) xs in
    update h c (ready (table_root lvl2 c) (h c))

module _ (g : ℕ → Proc) (p c priority : ℕ) where
  told_same : (x : ℕ) → SameKin (g x) (told g p c x)
  told_same x = record {
    same_free = ground arith;
    same_zombie = λ z. ground arith;
    same_kernel = λ z. ground arith;
    same_pid = ground arith;
    same_next = ground arith;
    same_prev = ground arith;
    same_child = ground arith;
    same_parent = ground arith;
  }

  newborn_facts :
      ((newborn g p c priority).pid ≡ c)
      × ((newborn g p c priority).parent_pid ≡ (g p).pid)
      × ((newborn g p c priority).priority ≡ priority)
  unfolding newborn
  newborn_facts = (refl, ground arith, refl)

  pub newborn_fresh : (newborn g p c priority).child ≡ none
  unfolding newborn
  newborn_fresh = refl

  module _ (kin : ℕ → List ℕ) (k : IsKin g kin) (hp : p < max_proc) (hc : c < max_proc)
      (hc' : 1 < c) (vacant : is_free (g c).state ≡ true) (alive : is_live g p ≡ true) where
    -- The families with the child in its queue.
    IsKin-born :
        IsKin (adopted (told g p c) p c (newborn g p c priority) (kin p)) (kin_adopted kin p c)
    IsKin-born =
        IsKin-adopted (told g p c) kin (IsKin-congr g (told g p c) told_same kin k) p c
          (newborn g p c priority) hc hc' (ground arith) (ground arith) newborn_facts.0
          (ground (arith, newborn_facts, k.numbered p hp)) newborn_fresh

  ready_same : (root : ℕ) (h : ℕ → Proc) (x : ℕ) → SameKin (h x) (update h c (ready root (h c)) x)
  ready_same root h x = record {
    same_free = ground arith;
    same_zombie = λ z. ground arith;
    same_kernel = λ z. ground arith;
    same_pid = ground arith;
    same_next = ground arith;
    same_prev = ground arith;
    same_child = ground arith;
    same_parent = ground arith;
  }

  IsKin-ready :
      (root : ℕ) (h : ℕ → Proc) (kin : ℕ → List ℕ)
      → IsKin h kin
      → IsKin (update h c (ready root (h c))) kin
  IsKin-ready root h kin k = IsKin-congr h _ (ready_same root h) kin k

  module _ (lvl2 x : ℕ) where
    IsOrderly-first :
        IsOrderly (g x) → priority < n_prio → IsOrderly (forked lvl2 g p c priority [] x)
    unfolding forked adopted adopted_first newborn
    IsOrderly-first o prio = ground (arith, o)

    IsOrderly-front :
        (h : ℕ) (xs : List ℕ)
        → IsOrderly (g x)
        → priority < n_prio
        → IsOrderly (forked lvl2 g p c priority (h ∷ xs) x)
    unfolding forked adopted adopted_front newborn
    IsOrderly-front h xs o prio = ground (arith, o)

  pub AreOrderly-forked :
      (lvl2 : ℕ) (xs : List ℕ)
      → AreOrderly g
      → priority < n_prio
      → AreOrderly (forked lvl2 g p c priority xs)
  AreOrderly-forked lvl2 [] o prio x hx = IsOrderly-first lvl2 x (o x hx) prio
  AreOrderly-forked lvl2 (h ∷ xs) o prio x hx = IsOrderly-front lvl2 x h xs (o x hx) prio

  pub IsKin-forked :
      (lvl2 : ℕ) (kin : ℕ → List ℕ)
      → IsKin g kin
      → p < max_proc
      → c < max_proc
      → 1 < c
      → is_free (g c).state ≡ true
      → is_live g p ≡ true
      → IsKin (forked lvl2 g p c priority (kin p)) (kin_adopted kin p c)
  unfolding forked
  IsKin-forked lvl2 kin k hp hc hc' vacant alive =
      IsKin-ready (table_root lvl2 c) (adopted (told g p c) p c (newborn g p c priority) (kin p))
        (kin_adopted kin p c) (IsKin-born kin k hp hc hc' vacant alive)

  state_first :
      (lvl2 x : ℕ)
      → (forked lvl2 g p c priority [] x).state ≡ (if x == c then runnable else (g x).state)
  unfolding forked adopted adopted_first
  state_first lvl2 x = ground arith

  state_front :
      (lvl2 x h : ℕ) (xs : List ℕ)
      → (forked lvl2 g p c priority (h ∷ xs) x).state ≡ (if x == c then runnable else (g x).state)
  unfolding forked adopted adopted_front
  state_front lvl2 x h xs = ground arith

  -- The child runs, and no other process changes its state.
  pub state-forked :
      (lvl2 x : ℕ) (xs : List ℕ)
      → (forked lvl2 g p c priority xs x).state ≡ (if x == c then runnable else (g x).state)
  state-forked lvl2 x [] = state_first lvl2 x
  state-forked lvl2 x (h ∷ xs) = state_front lvl2 x h xs
