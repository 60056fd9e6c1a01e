-- ===== src/Proc/Dispatch/Cycle.antt =====
-- One system call from its trap to the next process, and what any number of them reaches.
use mathlib.Core.Path.{subst}
use sysres_os.Base.{
  ℕ, some, lt_int, ◌<◌, ◌≤◌, ◌≡◌, ◌⊎◌, ◌%◌, ◌^◌, refl, true, false, arith, ◌==◌, if◌then◌else◌,
  Bool-cases, inl, inr, ◌∙◌, ap, sym,
}
use sysres_os.Proc.State.{Sys, max_proc, is_sending_ch, is_free}
use sysres_os.Proc.Run.{Run, Cmd, ◌>>◌, fault, stuck, done, panic, halted}
use sysres_os.Proc.Lifecycle.{syscall_fork, syscall_wait, syscall_exit}
use sysres_os.Proc.Lifecycle.Fork.{asked_priority, free_slot}
use sysres_os.Proc.Context.{Setup}
use sysres_os.Mmu.State.{Mmu}
use sysres_os.Step.{returns}
use sysres_os.Proc.Lifecycle.Keep.{syscall_fork-Keeps, syscall_wait-Keeps, syscall_exit-Keeps}
use sysres_os.Proc.Channel.{syscall_send, syscall_receive, syscall_acknowledge}
use sysres_os.Proc.Channel.Steady.{
  syscall_send-Keeps, syscall_receive-Keeps, syscall_acknowledge-Keeps,
}
use sysres_os.Proc.Schedule.{schedule}
use sysres_os.Proc.Schedule.Turn.{schedule-Turn}
use sysres_os.Proc.Schedule.Choice.{IsHead}
use sysres_os.Proc.Schedule.Resume.{resumed, curr-resumed, runs-resumed}
use sysres_os.Proc.Dispatch.{svc_handler}
use sysres_os.Proc.Queue.Inv.{runs}
use sysres_os.Proc.Steady.{IsSteady, Keeps}
use sysres_os.Proc.Steady.Trap.{
  Runs, Traps, Stay, call_code, IsAccessible, user_turn, user_turn-Traps,
}

-- What a request has to respect: the number of one of the six calls, for fork no negative priority and
-- setup that `c_init_mmu` returns for a child that may be made, and for an acknowledgement a source
-- that is a slot and, if it is blocked unacknowledged, waits for the caller.
pub record IsRequest (setup : Setup) (t : Sys) (code : ℕ) : Type 0 where
  pub known : code ≤ 5
  pub priority : code ≡ 0 → asked_priority t.procs t.last_pid < 2 ^ 31
  pub mapped :
      code ≡ 0
      → (lvl2 : ℕ) × (m : Mmu) × ((c : ℕ)
          → free_slot t.procs ≡ some c
          → lt_int (t.procs t.last_pid).priority (asked_priority t.procs t.last_pid) ≡ false
          → setup c ≡ returns lvl2 m)
  pub source : code ≡ 5 → (t.procs t.last_pid).receiver_data.source_pid < max_proc
  pub addressed :
      code ≡ 5
      → is_sending_ch (t.procs (t.procs t.last_pid).receiver_data.source_pid).state ≡ true
      → (t.procs (t.procs t.last_pid).receiver_data.source_pid).sender_data.acknowledged ≡ false
      → (t.procs (t.procs t.last_pid).receiver_data.source_pid).sender_data.target_pid
        ≡ (t.procs t.last_pid).pid

-- The system call of a number.
abbrev syscall : Setup → (code : ℕ) → Cmd (Unit {0})
syscall setup code =
    if code == 0
    then syscall_fork setup
    else if code == 1
    then syscall_exit
    else if code == 2
    then syscall_wait
    else if code == 3
    then syscall_send
    else if code == 4
    then syscall_receive
    else syscall_acknowledge

module _ (setup : Setup) (t : Sys) (traps : Traps t) (code : ℕ) (ok : IsRequest setup t code) where
  syscall-Keeps : Keeps t (syscall setup code t)
  syscall-Keeps = elim (Bool-cases (code == 0)) [
    | inl e ↦
        let zeroth : code ≡ 0 = ground arith in
        let (lvl2, m, mapped) = ok.mapped zeroth in
        rw e (
          syscall_fork-Keeps t traps.steady traps.slot traps.running setup lvl2 m
            (ok.priority zeroth) mapped)
    | inr e0 ↦ elim (Bool-cases (code == 1)) [
      | inl e ↦ rw (e0, e) (syscall_exit-Keeps t traps.steady traps.slot traps.running)
      | inr e1 ↦ elim (Bool-cases (code == 2)) [
        | inl e ↦ rw (e0, e1, e) (syscall_wait-Keeps t traps.steady traps.slot traps.running)
        | inr e2 ↦ elim (Bool-cases (code == 3)) [
          | inl e ↦
              rw (e0, e1, e2, e)
                (syscall_send-Keeps t traps.steady traps.slot traps.running traps.used)
          | inr e3 ↦ elim (Bool-cases (code == 4)) [
            | inl e ↦
                rw (e0, e1, e2, e3, e)
                  (syscall_receive-Keeps t traps.steady traps.slot traps.running)
            | inr e4 ↦
                let five : code ≡ 5 = ground (arith, ok.known) in
                rw (e0, e1, e2, e3, e4)
                  (syscall_acknowledge-Keeps t traps.steady traps.slot traps.running
                    (ok.source five) traps.used (ok.addressed five))
          ]
        ]
      ]
    ]
  ]

  dispatch_lem :
      (counter esr_el1 : ℕ)
      → esr_el1 % 2 ^ 16 ≡ code
      → svc_handler setup counter esr_el1 t ≡ (syscall setup code >> schedule counter) t
  unfolding svc_handler
  dispatch_lem counter esr_el1 eq = rw eq (elim (Bool-cases (code == 0)) [
    | inl e ↦ rw e refl
    | inr e0 ↦ elim (Bool-cases (code == 1)) [
      | inl e ↦ rw (e0, e) refl
      | inr e1 ↦ elim (Bool-cases (code == 2)) [
        | inl e ↦ rw (e0, e1, e) refl
        | inr e2 ↦ elim (Bool-cases (code == 3)) [
          | inl e ↦ rw (e0, e1, e2, e) refl
          | inr e3 ↦ elim (Bool-cases (code == 4)) [
            | inl e ↦ rw (e0, e1, e2, e3, e) refl
            | inr e4 ↦
                let five : (code == 5) ≡ true = ground (arith, ok.known) in
                rw (e0, e1, e2, e3, e4, five) refl
          ]
        ]
      ]
    ]
  ])

-- The process that was resumed runs.
Runs-resumed :
    (u : Sys)
    → IsSteady u
    → (k p : ℕ) → IsHead u k p
    → IsSteady (resumed u k p)
    → Runs (resumed u k p)
Runs-resumed u steady k p head steady' =
    let user : is_free (u.procs p).state ≡ false = ground (arith, head.running) in
    let curr : (resumed u k p).curr_pid ≡ p =
      curr-resumed u k p ∙ steady.kinned.numbered p head.slot user in
    record {
      steady = steady';
      slot = subst (λ x. x < max_proc) (sym curr) head.slot;
      running =
          subst (λ x. runs (resumed u k p) x ≡ true) (sym curr)
            (runs-resumed u k p p ∙ head.running);
    }

-- The handler of a trap: the system call returns, and then a process runs, or the system halts as no
-- process is runnable.
abbrev pub Serves : Setup → (counter esr_el1 : ℕ) → Sys → Type 0
Serves setup counter esr_el1 t =
    (u : Sys) × (syscall setup (esr_el1 % 2 ^ 16) t ≡ done tt u)
    × IsSteady u
    × (((u.n_runnable_procs ≡ 0) × (svc_handler setup counter esr_el1 t ≡ halted))
        ⊎ ((v : Sys) × (svc_handler setup counter esr_el1 t ≡ done tt v) × Runs v))

module _ (setup : Setup) (counter esr_el1 : ℕ) (t : Sys) (traps : Traps t)
    (ok : IsRequest setup t (esr_el1 % 2 ^ 16)) where
  -- `svc_handler` serves a system call with a request in order: it neither faults nor panics nor
  -- stays in a loop.
  pub svc_handler-Serves : Serves setup counter esr_el1 t
  svc_handler-Serves =
      let (u, call, curr, steady) = syscall-Keeps setup t traps (esr_el1 % 2 ^ 16) ok in
      let handler : svc_handler setup counter esr_el1 t ≡ schedule counter u =
        dispatch_lem setup t traps (esr_el1 % 2 ^ 16) ok counter esr_el1 refl ∙ rw call refl in
      (
        u,
        call,
        steady,
        elim (schedule-Turn u steady (curr ∙ traps.idle) counter) [
          | inl stop ↦ inl (stop.0, handler ∙ stop.1)
          | inr (k, p, e, head, run, steady') ↦
              inr (resumed u k p, handler ∙ run, Runs-resumed u steady k p head steady')
        ],
      )

-- The states in which a process runs, from one such state on: the process stays in user mode up to a
-- system call, and the call is handled.
pub data Reaches (start : Sys) : Sys → Type 0 where
  here : Reaches start start
  served :
      {s t u : Sys} (stay : Stay) (setup : Setup) (counter : ℕ)
      → Reaches start s
      → IsAccessible stay s
      → user_turn stay s ≡ done tt t
      → IsRequest setup t (call_code stay)
      → svc_handler setup counter stay.esr_el1 t ≡ done tt u
      → Reaches start u

-- Where a run returns to.
abbrev state_after : Sys → Run (Unit {0}) → Sys
state_after d (done a s) = s
state_after d fault = d
state_after d panic = d
state_after d halted = d
state_after d stuck = d

same_state : (r : Run (Unit {0})) (s t : Sys) → r ≡ done tt s → r ≡ done tt t → s ≡ t
same_state r s t e f = ap (state_after s) (sym e ∙ f)

handled-Runs :
    (setup : Setup) (counter esr_el1 : ℕ) (t u : Sys)
    → Serves setup counter esr_el1 t
    → svc_handler setup counter esr_el1 t ≡ done tt u
    → Runs u
handled-Runs setup counter esr_el1 t u (w, call, steady, inl (none_left, stop)) run =
    absurd (ground (arith, stop, run))
handled-Runs setup counter esr_el1 t u (w, call, steady, inr (v, done_v, runs_v)) run =
    subst Runs (same_state _ v u done_v run) runs_v

module _ (start : Sys) (booted : Runs start) where
  -- A process runs in every state that is reached, in a steady system.
  pub reached-Runs : (s : Sys) → Reaches start s → Runs s
  reached-Runs s here = booted
  reached-Runs u (served {s} {t} stay setup counter path copies trap ok run) =
      let (t', trap', traps) = user_turn-Traps stay s (reached-Runs s path) copies in
      handled-Runs setup counter stay.esr_el1 t u
        (svc_handler-Serves setup counter stay.esr_el1 t
          (subst Traps (same_state _ t' t trap' trap) traps) ok)
        run
