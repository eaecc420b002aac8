-- ===== src/Session/Retransmission.antt =====
-- Retransmission in any state that a session can come to.
use cam_reverse_py.Base.{
  ℕ, suc, ◌+◌, ◌^◌, ◌≤◌, ◌<◌, ◌≡◌, refl, ap, subst, ◌∙◌, Bool, List, [], ◌∷◌, ◌++◌, length, arith,
  ok,
}
use cam_reverse_py.State.{State, Pending, open_transport, for_each, ◌>>=◌}
use cam_reverse_py.State.Keeps.{Keeps, Anything, yields-then, Post-continue}
use cam_reverse_py.Link.{Event, Callbacks, send}
use cam_reverse_py.Link.Queued.{IsQueued, AllQueued}
use cam_reverse_py.Impl.Requests.{send_video_resolution, send_start_video}
use cam_reverse_py.Impl.Commands.{
  CanSendAll, resolution-yields, send_all-Keeps, command-yields, build_send-Keeps,
}
use cam_reverse_py.Datatypes
use cam_reverse_py.Session.{start_video_stream, resend_tick}
use cam_reverse_py.Session.Steps.{Reach, Reach-IsQueued}
use cam_reverse_py.Session.Timers.{
  Sent, pending, datagrams, renumbered, advanced, IsBelow, AreDue, resent, bytes_of,
  resend_tick_lem,
}

-- `start_video_stream`, which a server registers for the login, keeps a session in order.
pub start_video-Keeps :
    {App : Type 0} (Holds : Bool → App → Type 0) → Keeps (IsQueued Holds) start_video_stream
unfolding start_video_stream
start_video-Keeps {App} Holds =
    let P = IsQueued Holds in
    yields-then P CanSendAll (Anything P) (send_video_resolution 2) _ (resolution-yields Holds 2)
      (λ pkts s q c.
        Post-continue P (Anything P) (Anything P) (for_each pkts send s)
          (λ _. send_start_video >>= send) (send_all-Keeps Holds pkts s q c)
          (λ _ u k _.
            build_send-Keeps Holds send_start_video (command-yields Holds Datatypes.start_video) u
              k))

length-pending : (cs : List Sent) → length (pending cs) ≡ length cs
length-pending [] = refl
length-pending (c ∷ cs) = ap suc (length-pending cs)

-- Every waiting packet is more than 100 ms old.
abbrev pub AllDue : ℕ → Pending → Type 0
AllDue now [] = Unit {0}
AllDue now ((id, u) ∷ m) = (u.sent_ts + 100 < now) × AllDue now m

-- The waiting packets of a session in order, as commands.
commands_of :
    (o now : ℕ) (m : Pending)
    → AllQueued o m
    → AllDue now m
    → (cs : List Sent) × (m ≡ pending cs) × IsBelow o (pending cs) × AreDue now cs
commands_of o now [] q due = ([], refl, tt, tt)
commands_of o now ((id, u) ∷ m) ((l, l', channel, rest, e), less, q) due =
    let (cs, same, below, are_due) = commands_of o now m q due.1 in
    let c : Sent = record {
      id = id;
      sent_ts = u.sent_ts;
      l = l;
      l' = l';
      channel = channel;
      rest = rest;
    } in
    (
      c ∷ cs,
      ap (λ p. (id, record { sent_ts = u.sent_ts; packet = p }) ∷ m) e
          ∙ ap (λ n. (c.id, record { sent_ts = c.sent_ts; packet = bytes_of c }) ∷ n) same,
      (less, below),
      (due.0, are_due),
    )

-- Nothing is asked of the program.
abbrev pub Always : {App : Type 0} → Bool → App → Type 0
Always b a = Unit {0}

-- Whatever happened to a session since it was in order: a round of the retransmission timer over an open
-- socket, with waiting packets that are all more than 100 ms old and few enough for the 16-bit ids,
-- sends every one of them again, under the next free ids and in the order in which they wait, and exactly
-- these wait afterwards.
pub Reach-resends :
    {App : Type 0} (callbacks : Callbacks App) (s t : State App)
    → ((e : Event) → Keeps (IsQueued Always) (callbacks.listener e))
    → Keeps (IsQueued Always) callbacks.on_login
    → Reach callbacks s t
    → IsQueued Always s
    → t.session.transport ≡ open_transport
    → AllDue (t.clock 0) t.session.unacked_drw
    → t.session.outgoing_command_id + length t.session.unacked_drw ≤ 2 ^ 16
    → let o = t.session.outgoing_command_id in
      (cs : List Sent) × (t.session.unacked_drw ≡ pending cs)
      × (resend_tick t ≡ (
        ok tt,
        resent t
            (o + length cs)
            (pending (renumbered o (λ k. t.clock (suc k)) cs))
            (t.wire ++ datagrams (renumbered o (λ k. t.clock (suc k)) cs))
            (advanced (suc (length cs)) t.clock),
      ))
Reach-resends callbacks s t listens logs_in r q up due fit =
    let o = t.session.outgoing_command_id in
    let (cs, same, below, are_due) =
      commands_of o (t.clock 0) t.session.unacked_drw
        (Reach-IsQueued Always (λ b a h. h) callbacks listens logs_in r q).0 due in
    (
      cs,
      same,
      ap (λ m. resend_tick (resent t o m t.wire t.clock)) same
          ∙ resend_tick_lem t up cs o t.wire t.clock below are_due
              (omega (arith, subst (λ m. o + length m ≤ 2 ^ 16) same fit, length-pending cs)),
    )
