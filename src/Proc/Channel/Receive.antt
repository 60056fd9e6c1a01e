-- ===== src/Proc/Channel/Receive.antt =====
-- `syscall_receive` on every branch.
use mathlib.Core.Path.{fun_ext, subst}
use sysres_os.Base.{
  ℕ, ◌<◌, ◌≡◌, refl, Bool, true, false, none, some, ◌==◌, ◌&&◌, arith, lt→ltb, ap, Option-cases,
  inl, inr, ◌∙◌,
}
use sysres_os.Proc.State.{Proc, Sys, listening_ch, max_proc, is_wait_listener}
use sysres_os.Proc.Run.{Run, done, load, change, update, and_then}
use sysres_os.Proc.Descriptor.{reg}
use sysres_os.Proc.Queue.{change_state}
use sysres_os.Proc.Queue.Inv.{runs}
use sysres_os.Proc.Queue.Update.{change_lem}
use sysres_os.Proc.Queue.Ends.{
  Ends, Yields, start, then_change, then_change_state, with_state, Ends-by, Ends-after,
}
use sysres_os.Proc.Search.{find_from, find_waiting_sender}
use sysres_os.Proc.Search.First.{IsFirst, Found, find_from-Found}
use sysres_os.Proc.Channel.{note_zone, syscall_receive, handle_channel_connection}
use sysres_os.Proc.Channel.Connect.{connection, connection-refines, connection_congr}
use sysres_os.Proc.Sound.{IsSound}

-- Whether slot `i` waits for process `pid` to listen.
abbrev pub waits_for : (ℕ → Proc) → ℕ → ℕ → Bool
waits_for g pid i = is_wait_listener (g i).state && ((g i).sender_data.target_pid == pid)

-- The caller with its zone noted: register 0 is the address, and register 1 the size.
abbrev pub zone_noted : Proc → Proc
zone_noted r = record r {
  receiver_data = record {
    source_pid = r.receiver_data.source_pid;
    receive_size = reg r 1;
    receive_data = reg r 0;
    return_code = r.receiver_data.return_code;
  };
}

-- The descriptors once `p` listens.
abbrev pub listening : (ℕ → Proc) → ℕ → ℕ → Proc
listening g p = with_state p listening_ch (update g p (zone_noted (g p)))

-- The descriptors after process `p` receives, up to queue links.
abbrev pub receive_outcome : (ℕ → Proc) → ℕ → ℕ → Proc
receive_outcome g p x = elim (find_from (waits_for (listening g p) (g p).pid) max_proc 0) [
  | none ↦ listening g p x
  | some i ↦ connection (listening g p) i p x
]

module _ (s : Sys) (sound : IsSound s) (hp : s.last_pid < max_proc)
    (on : runs s s.last_pid ≡ true) where
  abbrev p : ℕ
  p = s.last_pid

  -- The run up to the search.
  abbrev listened : Run (Unit {0})
  listened = and_then (change p note_zone s) (λ _. change_state p listening_ch)

  listened-Ends : Ends listened s (listening s.procs p)
  unfolding note_zone
  listened-Ends =
      then_change_state _ s _
        (then_change (done tt s) s s.procs (start s sound.queues sound.queued) p hp note_zone
          (λ a. record { runnable = refl; prio = λ h. refl; next = λ h. refl; prev = λ h. refl })
          (λ a b e. ap (λ (r : Proc). note_zone r) e))
        p hp listening_ch (λ off. cc)

  module _ (t : Sys) (run : listened ≡ done tt t) (y : Yields s (listening s.procs p) t) where
    abbrev pid : ℕ
    pid = (s.procs p).pid

    same_search :
        find_from (waits_for t.procs pid) max_proc 0
        ≡ find_from (waits_for (listening s.procs p) pid) max_proc 0
    same_search =
        ap (λ (f : ℕ → Bool). find_from f max_proc 0)
          (fun_ext λ x. ground (
            arith,
            ap (λ (r : Proc). r.state) (y.frame x),
            ap (λ (r : Proc). r.sender_data.target_pid) (y.frame x),
          ))

    run_none : find_from (waits_for t.procs pid) max_proc 0 ≡ none → syscall_receive s ≡ done tt t
    unfolding syscall_receive find_waiting_sender load
    run_none e = ground (arith, change_lem s p note_zone hp, run, e, lt→ltb p max_proc hp)

    run_some :
        (i : ℕ)
        → find_from (waits_for t.procs pid) max_proc 0 ≡ some i
        → syscall_receive s ≡ handle_channel_connection i p t
    unfolding syscall_receive find_waiting_sender load
    run_some i e = ground (arith, change_lem s p note_zone hp, run, e, lt→ltb p max_proc hp)

    none-Ends :
        find_from (waits_for (listening s.procs p) pid) max_proc 0 ≡ none
        → Ends (syscall_receive s) s (receive_outcome s.procs p)
    none-Ends e =
        Ends-by (receive_outcome s.procs p) (run_none (same_search ∙ e)) (t, refl, y)
          (λ x. rw (e, receive_outcome))

    -- What the search gives is orderly, and not the receiver.
    some-Ends :
        (i : ℕ)
        → find_from (waits_for (listening s.procs p) pid) max_proc 0 ≡ some i
        → Ends (syscall_receive s) s (receive_outcome s.procs p)
    unfolding note_zone
    some-Ends i e =
        let first : IsFirst (waits_for (listening s.procs p) pid) max_proc 0 i =
          subst (Found (waits_for (listening s.procs p) pid) max_proc 0) e
            (find_from-Found (waits_for (listening s.procs p) pid) max_proc 0) in
        let hi : i < max_proc = omega (arith, first.below) in
        let ne : (i == p) ≡ false = ground (arith, first.passes) in
        let waits : is_wait_listener (s.procs i).state ≡ true = ground (arith, first.passes) in
        let used_size = ap (λ (r : Proc). r.buffer.used_size) (y.frame i) in
        let send_size = ap (λ (r : Proc). r.sender_data.send_size) (y.frame i) in
        let priority = ap (λ (r : Proc). r.priority) (y.frame p) in
        let o = sound.orderly i hi in
        Ends-by (receive_outcome s.procs p) (run_some i (same_search ∙ e))
          (Ends-after y (
            connection-refines t i p y.queues y.queued hi hp
              (ground (arith, used_size, send_size, o.used waits))
              (ground (arith, send_size, o.small waits)) ne
              (ground (arith, priority, sound.queued.in_range p hp on))))
          (λ x.
            rw (e, receive_outcome) (connection_congr t.procs (listening s.procs p) i p y.frame x))

  -- `syscall_receive` returns, and the descriptors are those of `receive_outcome`: the caller listens
  -- with the zone it gave, and is connected to the first process that waits for it, if there is one.
  -- The run queues stay in order. The state is sound and the caller runs.
  pub syscall_receive-refines : Ends (syscall_receive s) s (receive_outcome s.procs p)
  syscall_receive-refines =
      let (t, run, y) = listened-Ends in
      elim (Option-cases (find_from (waits_for (listening s.procs p) (s.procs p).pid) max_proc 0)) [
        | inl e ↦ none-Ends t run y e
        | inr (i, e) ↦ some-Ends t run y i e
      ]
